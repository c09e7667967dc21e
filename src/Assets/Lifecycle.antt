-- ===== src/Assets/Lifecycle.antt =====
-- The tokenization service as a step relation: any interleaving of the statements of
-- services/tokenization/db.py that the handlers and the evaluation tasks of
-- services/tokenization/main.py issue, each on a connection of its own. A handler or a task acts on rows
-- that it read before; what was read so far is part of the state.
pub mod Updates
pub mod Sound
pub mod Issuing
pub mod Reached
use tokenization.Common.{ℕ, ◌≤◌, ◌≡◌, Bool, true, false, List, ◌∷◌, Member, ◌&&◌}
use tokenization.Common.Table.{count_where}
use tokenization.Database.Rows.{Text}
use tokenization.Database.Assets.{Asset, AssetStatus}
use tokenization.Database.Model.{Db}
use tokenization.Database.Tx.{Tx}
use tokenization.Database.Tx.{at_rest}
use tokenization.Assets.Evaluation.{evaluate_asset_submission}
use tokenization.Assets.Store.{
  Submission, Issue, is_asset, is_token_of, is_issued, is_evaluable, create_asset,
  begin_asset_evaluation, complete_asset_evaluation, reset_asset_evaluation, create_asset_token,
}

pub record World : Type 0 where
  pub db : Db
  pub seen : List Asset

-- The database after an operation on a connection that is then closed.
abbrev pub after : {A : Type 0} → World → Tx A → World
after w m = record w { db = (m (at_rest w.db)).1.committed }

infix 40 ◌⇒◌ ◌⇒*◌
pub data ◌⇒◌ : World → World → Type 0 where
  -- a request submits an asset, under a new identifier
  submits :
      {w : World} (asset_id now : ℕ) (s : Submission)
      → count_where (is_asset asset_id) w.db.assets ≡ 0
      → w ⇒ after w (create_asset asset_id now s)
  -- a request or a task reads an asset
  reads : {w : World} (row : Asset) → Member row w.db.assets → w ⇒ record w { seen = row ∷ w.seen }
  -- a request starts an evaluation
  begins :
      {w : World} (now asset_id owner_id : ℕ)
      → w ⇒ after w (begin_asset_evaluation now asset_id owner_id)
  -- a task stores the evaluation of the row that it read
  completes :
      {w : World} (now : ℕ) (row : Asset)
      → Member row w.seen
      → w ⇒ after w (complete_asset_evaluation now row.id (evaluate_asset_submission row))
  -- a task or a request falls back to the status that the request read
  resets :
      {w : World} (now : ℕ) (row : Asset)
      → Member row w.seen
      → is_evaluable row.status ≡ true
      → w ⇒ after w (reset_asset_evaluation now row.id row.status)
  -- a request issues the token of an asset
  mints : {w : World} (now : ℕ) (i : Issue) → w ⇒ after w (create_asset_token now i)

pub data ◌⇒*◌ : World → World → Type 0 where
  here : {w : World} → w ⇒* w
  then : {u v w : World} → u ⇒ v → v ⇒* w → u ⇒* w

-- The evaluation of the row approves it.
abbrev pub Passes : Asset → Type 0
Passes a = (evaluate_asset_submission a).status ≡ AssetStatus.approved

abbrev pub is_tokenized : AssetStatus → Bool
is_tokenized AssetStatus.pending = false
is_tokenized AssetStatus.evaluating = false
is_tokenized AssetStatus.approved = false
is_tokenized AssetStatus.rejected = false
is_tokenized AssetStatus.tokenized = true

-- Approved, or tokenized.
abbrev pub is_accepted : AssetStatus → Bool
is_accepted AssetStatus.pending = false
is_accepted AssetStatus.evaluating = false
is_accepted AssetStatus.approved = true
is_accepted AssetStatus.rejected = false
is_accepted AssetStatus.tokenized = true

abbrev pub is_tokenized_asset : ℕ → Asset → Bool
is_tokenized_asset asset_id a = is_asset asset_id a && is_tokenized a.status

-- The same asset, as it was submitted.
pub record Same (a b : Asset) : Type 0 where
  pub id : a.id ≡ b.id
  pub name : a.name ≡ b.name
  pub description : a.description ≡ b.description
  pub category : a.category ≡ b.category
  pub valuation_sat : a.valuation_sat ≡ b.valuation_sat
  pub documents_url : a.documents_url ≡ b.documents_url

-- Nothing is accepted without passing its evaluation.
abbrev pub IsVetted : Asset → Type 0
IsVetted a = is_accepted a.status ≡ true → Passes a

-- A row that was read: it was vetted, and the asset is still there as it was submitted.
pub record IsKnown (db : Db) (row : Asset) : Type 0 where
  pub vetted : IsVetted row
  pub now : Asset
  pub found : Member now db.assets
  pub same : Same row now

pub record IsSound (w : World) : Type 0 where
  pub asset_key : (k : ℕ) → count_where (is_asset k) w.db.assets ≤ 1
  pub liquid_key : (t : Text) → count_where (is_issued t) w.db.tokens ≤ 1
  -- an asset has a token exactly if it is tokenized, and then one
  pub one_token :
      (k : ℕ)
      → count_where (is_token_of k) w.db.tokens ≡ count_where (is_tokenized_asset k) w.db.assets
  pub vetted : (a : Asset) → Member a w.db.assets → IsVetted a
  pub known : (row : Asset) → Member row w.seen → IsKnown w.db row
