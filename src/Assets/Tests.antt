-- ===== src/Assets/Tests.antt =====
-- The theorems on the tokenization service at one house: submitted, evaluated, issued and listed.
use tokenization.Common.{
  ℕ, zero, Bool, false, suc, ◌≤◌, ◌≡◌, ◌≢◌, refl, inl, inr, arith, ◌==◌, true, none, some, List, [],
  ◌∷◌, Member, length,
}
use tokenization.Common.Table.{count_where, select_where, update_where}
use tokenization.Common.Text.{strip_left, is_space, strip, lower, from_hex}
use tokenization.Database.Rows.{Text}
use tokenization.Common.Pages.{walk}
use tokenization.Database.Assets.{Asset, Category, AssetStatus}
use tokenization.Database.Users.{Role}
use tokenization.Database.Model.{Db}
use tokenization.Database.Tx.{
  Result, ok, err, attempt, catch, connected, or_raise, raise, raise_if, rollback, query, ◌>>=◌,
  modify, commit, pure, at_rest,
}
use tokenization.Market.Fixture.{matched}
use tokenization.Assets.Evaluation.{evaluate_asset_submission}
use tokenization.Assets.Evaluation.Bounds.{IsSound, evaluate_asset_submission-IsSound}
use tokenization.Assets.Store.{
  mint, insert_token, insert_balance, get_asset_by_id, update_returning, Submission, Issue,
  new_asset, moved, create_asset_token, create_asset, is_evaluable, begin_asset_evaluation,
}
use tokenization.Assets.Lifecycle
use tokenization.Assets.Lifecycle.{World, after, ◌⇒◌, submits, begins, mints, ◌⇒*◌, here, then}
use tokenization.Assets.Lifecycle.Reached.{IsFollowed, ⇒*-IsSound, ⇒-IsFollowed, ⇒*-stays}
use tokenization.Assets.Listing.{IsCatalogue, get_assets, answer_of, get_assets-walk}
use tokenization.Assets.Service.{
  require_seller_or_admin, get_tokenizable, issue_liquid_asset, persist_issue, Principal, Moment,
  Tokenization, Course, Node, tokenize_asset, request_asset_evaluation, run_asset_evaluation,
}
use tokenization.Assets.Service.Pinned.{Pinned}
use tokenization.Assets.Service.Evaluates.{Ends, ended, evaluation-Ends}

abbrev submission : Submission
submission = record {
  owner_id = 20;
  name = b'H' ∷ b'o' ∷ b'u' ∷ b's' ∷ b'e' ∷ [];
  description = b'L' ∷ b'e' ∷ b'a' ∷ b's' ∷ b'e' ∷ b'd' ∷ b' ' ∷ b'f' ∷ b'l' ∷ b'a' ∷ b't' ∷ [];
  category = Category.real_estate;
  valuation_sat = 4000000;
  documents_url = some (b'h' ∷ []);
}

abbrev house : Asset
house = new_asset 70 5 submission

abbrev approved_house : Asset
approved_house = moved AssetStatus.approved 6 house

abbrev tokenized_house : Asset
tokenized_house = moved AssetStatus.tokenized 7 house

evaluate_asset_submission-IsSound_example : IsSound (evaluate_asset_submission house)
evaluate_asset_submission-IsSound_example = evaluate_asset_submission-IsSound house

abbrev db_with : List Asset → Db
db_with assets = record matched { assets = assets; balances = [] }

abbrev issue : Issue
issue = record {
  token_id = 80;
  balance_id = 81;
  asset_id = 70;
  owner_id = 20;
  liquid_asset_id = 1 ∷ [];
  total_supply = 1000;
  circulating_supply = 1000;
  unit_price_sat = 4000;
}

abbrev empty : World
empty = record { db = db_with []; seen = [] }

abbrev submitted : World
submitted = after empty (create_asset 70 5 submission)

empty-IsSound : Lifecycle.IsSound empty
unfolding count_where
empty-IsSound = record {
  asset_key = λ k. omega arith;
  liquid_key = λ t. omega arith;
  one_token = λ k. refl;
  vetted = λ a m. elim m [ ];
  known = λ row m. elim m [ ];
}

submit_step : empty ⇒ submitted
unfolding count_where
submit_step = submits 70 5 submission refl

abbrev queued : World
queued = after submitted (begin_asset_evaluation 6 70 20)

abbrev refused : World
refused = after queued (create_asset_token 7 issue)

⇒*-IsSound_example : Lifecycle.IsSound refused
⇒*-IsSound_example =
    ⇒*-IsSound
      (then submit_step
        (then {v = queued} (begins 6 70 20) (then {v = refused} (mints 7 issue) here)))
      empty-IsSound

house_there : Member house submitted.db.assets
unfolding create_asset ◌>>=◌ modify commit pure
house_there = inl refl

⇒-IsFollowed_example : IsFollowed empty.db house
⇒-IsFollowed_example = ⇒-IsFollowed submit_step house house_there

abbrev sold : World
sold = record { db = db_with (tokenized_house ∷ []); seen = [] }

abbrev sold_and_queued : World
sold_and_queued = after sold (begin_asset_evaluation 8 70 20)

queue_step : sold ⇒ sold_and_queued
queue_step = begins 8 70 20

⇒*-stays_example : Member tokenized_house sold_and_queued.db.assets
⇒*-stays_example =
    ⇒*-stays (then queue_step (here {w = sold_and_queued})) tokenized_house refl (inl refl)

abbrev offered : Db
offered = db_with (house ∷ record house { id = 71 } ∷ [])

offered-keys : (k : ℕ) → count_where (λ a. a.id == k) offered.assets ≤ 1
unfolding count_where
offered-keys k = ground arith

get_assets-walk_example : IsCatalogue none (some Category.real_estate) offered.assets (
    walk
      (suc (length offered.assets))
      (λ cursor.
        answer_of (get_assets none (some Category.real_estate) cursor 1 (at_rest offered)).0)
      none)
get_assets-walk_example =
    get_assets-walk offered none (some Category.real_estate) 1 offered-keys (omega arith)

abbrev owner : Principal
owner = record { id = 20; role = Role.seller }

abbrev moment : Moment
moment = record { now = 9; audited = true }

abbrev order : Tokenization
order = record { total_supply = 1000; unit_price_sat = 4000; token_id = 80; balance_id = 81 }

abbrev zeros : ℕ → Text
zeros zero = []
zeros (suc n) = b'0' ∷ zeros n

-- The node names the Liquid asset by 64 digits.
abbrev node : Node
node supply = some (some (zeros 64))

abbrev is_answered : {A : Type 0} → Result A → Bool
is_answered (ok a) = true
is_answered (err e) = false

house_sold :
    is_answered
      (tokenize_asset node moment 70 owner order (at_rest (db_with (approved_house ∷ [])))).0
    ≡ true
unfolding tokenize_asset require_seller_or_admin get_tokenizable issue_liquid_asset persist_issue
    create_asset_token mint insert_token insert_balance get_asset_by_id update_returning ◌>>=◌ query
    modify commit rollback pure attempt raise raise_if or_raise catch connected strip lower from_hex
    select_where update_where strip_left is_space
house_sold = refl

house-Pinned : Pinned 70 house (db_with (house ∷ []))
house-Pinned = record {
  own = refl;
  found = inl refl;
  only = λ y m e. elim m [ inl same ↦ same | inr none_left ↦ elim none_left [ ] ];
}

not_cancelled : Course.fails_early ≢ Course.cancelled
not_cancelled e = cc

evaluation-Ends_example :
    let q =
      ended Course.fails_early 12 AssetStatus.pending (moved AssetStatus.evaluating 9 house) in
    let (r, c) =
      (request_asset_evaluation true moment 70 owner >>= run_asset_evaluation Course.fails_early 12)
        (at_rest (db_with (house ∷ []))) in
    Ends 70 q r c × (is_evaluable q.status ≡ true)
evaluation-Ends_example =
    evaluation-Ends moment 12 70 house owner Course.fails_early (db_with (house ∷ [])) house-Pinned
      refl refl refl not_cancelled
