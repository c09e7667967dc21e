-- ===== src/Assets/Store.antt =====
-- The statements of services/tokenization/db.py. An asset is read with its token; every operation
-- commits or rolls back before it returns.
use tokenization.Common.{
  ℕ, Bool, true, false, ◌&&◌, Option, none, some, [], ◌∷◌, ◌++◌, ◌==◌, map, is_some, if◌then◌else◌,
}
use tokenization.Common.Table.{select_where, update_where, fetch_one}
use tokenization.Database.Rows.{Text, same_text}
use tokenization.Database.Assets.{Asset, Token, Category, AssetStatus}
use tokenization.Database.Model.{TokenBalance, Db}
use tokenization.Database.Tx.{
  Tx, ◌>>=◌, ◌>>◌, pure, query, raise_if, attempt, modify, commit, rollback, integrity_error,
}
use tokenization.Assets.Evaluation.{EvaluationResult}

-- What a client submits.
pub record Submission : Type 0 where
  pub owner_id : ℕ
  pub name : Text
  pub description : Text
  pub category : Category
  pub valuation_sat : ℕ
  pub documents_url : Option Text

abbrev pub new_asset : ℕ → ℕ → Submission → Asset
new_asset asset_id now s = record {
  id = asset_id;
  owner_id = s.owner_id;
  name = s.name;
  description = s.description;
  category = s.category;
  valuation_sat = s.valuation_sat;
  documents_url = s.documents_url;
  ai_score = none;
  ai_analysis = none;
  projected_roi = none;
  status = AssetStatus.pending;
  created_at = now;
  updated_at = now;
}

unfoldable pub create_asset : ℕ → ℕ → Submission → Tx Asset
create_asset asset_id now s = do
  let row = new_asset asset_id now s
  modify (λ db. record db { assets = db.assets ++ row ∷ [] })
  commit
  pure row

abbrev pub is_asset : ℕ → Asset → Bool
is_asset asset_id a = a.id == asset_id

abbrev pub is_token_of : ℕ → Token → Bool
is_token_of asset_id t = t.asset_id == asset_id

-- The outer join of an asset with its token.
abbrev pub with_token : Db → Option Asset → Option (Asset × Option Token)
with_token db none = none
with_token db (some a) = some (a, fetch_one (select_where (is_token_of a.id) db.tokens))

unfoldable pub get_asset_by_id : ℕ → Tx (Option (Asset × Option Token))
get_asset_by_id asset_id =
    query (λ db. with_token db (fetch_one (select_where (is_asset asset_id) db.assets)))

-- `_EVALUABLE_ASSET_STATUSES`
abbrev pub is_evaluable : AssetStatus → Bool
is_evaluable AssetStatus.pending = true
is_evaluable AssetStatus.evaluating = false
is_evaluable AssetStatus.approved = true
is_evaluable AssetStatus.rejected = true
is_evaluable AssetStatus.tokenized = false

abbrev pub is_evaluating : AssetStatus → Bool
is_evaluating AssetStatus.pending = false
is_evaluating AssetStatus.evaluating = true
is_evaluating AssetStatus.approved = false
is_evaluating AssetStatus.rejected = false
is_evaluating AssetStatus.tokenized = false

abbrev pub is_approved : AssetStatus → Bool
is_approved AssetStatus.pending = false
is_approved AssetStatus.evaluating = false
is_approved AssetStatus.approved = true
is_approved AssetStatus.rejected = false
is_approved AssetStatus.tokenized = false

-- UPDATE assets .. RETURNING
abbrev pub update_assets : (Asset → Bool) → (Asset → Asset) → Db → Db
update_assets p g db = record db { assets = update_where p g db.assets }

unfoldable pub update_returning : (Asset → Bool) → (Asset → Asset) → Tx (Option Asset)
update_returning p g = do
  row ← query (λ db. fetch_one (map g (select_where p db.assets)))
  modify (update_assets p g)
  pure row

abbrev pub can_begin : ℕ → ℕ → Asset → Bool
can_begin asset_id owner_id a =
    is_asset asset_id a && a.owner_id == owner_id && is_evaluable a.status

abbrev pub moved : AssetStatus → ℕ → Asset → Asset
moved status now a = record a { status = status; updated_at = now }

unfoldable pub begin_asset_evaluation : ℕ → ℕ → ℕ → Tx (Option Asset)
unfolding update_returning
begin_asset_evaluation now asset_id owner_id = do
  row ← update_returning (can_begin asset_id owner_id) (moved AssetStatus.evaluating now)
  commit
  pure row

abbrev pub under_evaluation : ℕ → Asset → Bool
under_evaluation asset_id a = is_asset asset_id a && is_evaluating a.status

abbrev pub evaluated : EvaluationResult → ℕ → Asset → Asset
evaluated r now a = record a {
  ai_score = some r.ai_score;
  ai_analysis = some r.ai_analysis;
  projected_roi = some r.projected_roi;
  status = r.status;
  updated_at = now;
}

unfoldable pub complete_asset_evaluation : ℕ → ℕ → EvaluationResult → Tx (Option Asset)
unfolding update_returning
complete_asset_evaluation now asset_id r = do
  row ← update_returning (under_evaluation asset_id) (evaluated r now)
  commit
  pure row

unfoldable pub reset_asset_evaluation : ℕ → ℕ → AssetStatus → Tx (Option Asset)
unfolding update_returning
reset_asset_evaluation now asset_id fallback_status = do
  row ← update_returning (under_evaluation asset_id) (moved fallback_status now)
  commit
  pure row

-- What is issued: the new identifiers, the asset, and what its owner gets.
pub record Issue : Type 0 where
  pub token_id : ℕ
  pub balance_id : ℕ
  pub asset_id : ℕ
  pub owner_id : ℕ
  pub liquid_asset_id : Text
  pub total_supply : ℕ
  pub circulating_supply : ℕ
  pub unit_price_sat : ℕ

abbrev pub can_tokenize : Issue → Asset → Bool
can_tokenize i a = is_asset i.asset_id a && a.owner_id == i.owner_id && is_approved a.status

abbrev pub new_token : ℕ → Issue → Token
new_token now i = record {
  id = i.token_id;
  asset_id = i.asset_id;
  liquid_asset_id = i.liquid_asset_id;
  total_supply = i.total_supply;
  circulating_supply = i.circulating_supply;
  unit_price_sat = i.unit_price_sat;
  minted_at = now;
}

abbrev pub issued_balance : ℕ → Issue → TokenBalance
issued_balance now i = record {
  id = i.balance_id;
  user_id = i.owner_id;
  token_id = i.token_id;
  balance = i.circulating_supply;
  updated_at = now;
}

-- The unique key of the table.
abbrev pub is_issued : Text → Token → Bool
is_issued liquid_asset_id t = same_text t.liquid_asset_id liquid_asset_id

abbrev pub holds : ℕ → ℕ → TokenBalance → Bool
holds user_id token_id b = b.user_id == user_id && b.token_id == token_id

unfoldable pub insert_token : ℕ → Issue → Tx Unit
insert_token now i = do
  taken ← query (λ db. fetch_one (select_where (is_issued i.liquid_asset_id) db.tokens))
  raise_if (is_some taken) integrity_error
  modify (λ db. record db { tokens = db.tokens ++ new_token now i ∷ [] })

unfoldable pub insert_balance : ℕ → Issue → Tx Unit
insert_balance now i = do
  taken ← query (λ db. fetch_one (select_where (holds i.owner_id i.token_id) db.balances))
  raise_if (is_some taken) integrity_error
  modify (λ db. record db { balances = db.balances ++ issued_balance now i ∷ [] })

abbrev pub issue_if : ℕ → Issue → Bool → Tx Bool
unfolding insert_token insert_balance
issue_if now i false = do rollback; pure false
issue_if now i true = do insert_token now i; insert_balance now i; commit; pure true

-- The transaction of `create_asset_token`: did it find the asset approved?
unfoldable pub mint : ℕ → Issue → Tx Bool
unfolding update_returning insert_token insert_balance
mint now i = do
  updated_asset ← update_returning (can_tokenize i) (moved AssetStatus.tokenized now)
  issue_if now i (is_some updated_asset)

unfoldable pub create_asset_token : ℕ → Issue → Tx (Option (Asset × Option Token))
unfolding mint get_asset_by_id
create_asset_token now i = do
  minted ← attempt (mint now i)
  if minted then get_asset_by_id i.asset_id else pure none
