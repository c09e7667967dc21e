-- ===== src/Assets/Service.antt =====
-- The handlers of services/tokenization/main.py that change assets, and the evaluation task. The Elements
-- node is a parameter; events, metrics and alerts are left out. An audit record is written on the same
-- connection, which it commits, or rolls back if it could not be written.
pub mod Pinned
pub mod Tokenizes
pub mod Evaluates
use tokenization.Common.{
  ℕ, ◌==◌, Bool, true, false, not, ◌&&◌, ◌||◌, Option, none, some, List, [], ◌∷◌, is_some, length,
  get_or, if◌then◌else◌,
}
use tokenization.Common.Text.{strip, lower, from_hex}
use tokenization.Database.Rows.{Text}
use tokenization.Database.Users.{Role}
use tokenization.Database.Assets.{Asset, Token, AssetStatus}
use tokenization.Database.Tx.{
  Result, ok, err, Tx, ◌>>=◌, ◌>>◌, pure, raise, or_raise, raise_if, catch, commit, rollback,
  connected, Failure, contract_error, Refusal, runtime_error, integrity_error, Unit₀, value_error,
  lookup_error,
}
use tokenization.Assets.Evaluation.{evaluate_asset_submission}
use tokenization.Assets.Store.{
  Submission, Issue, create_asset, get_asset_by_id, is_evaluating, is_approved,
  begin_asset_evaluation, complete_asset_evaluation, reset_asset_evaluation, create_asset_token,
}
use tokenization.Assets.Lifecycle.{is_tokenized}

pub record Principal : Type 0 where
  pub id : ℕ
  pub role : Role

-- `_require_roles("seller", "admin")`
abbrev pub may_issue : Role → Bool
may_issue Role.user = false
may_issue Role.seller = true
may_issue Role.admin = true
may_issue Role.auditor = false

unfoldable pub require_seller_or_admin : Principal → Tx Unit₀
require_seller_or_admin p = raise_if (not (may_issue p.role)) (contract_error Refusal.forbidden)

-- `record_audit_event`
abbrev pub audit : Bool → Tx Unit₀
audit true = commit
audit false = rollback

-- Whether the audit record could be written, and when.
pub record Moment : Type 0 where
  pub now : ℕ
  pub audited : Bool

unfoldable pub submit_asset : Moment → ℕ → Principal → Submission → Tx Asset
unfolding require_seller_or_admin
submit_asset at asset_id principal s = do
  require_seller_or_admin principal
  connected (do row ← create_asset asset_id at.now s; audit at.audited; pure row)

-- What the evaluation task is started with.
pub record Task : Type 0 where
  pub asset_id : ℕ
  pub fallback_status : AssetStatus

-- The statements of `request_asset_evaluation` on its first connection.
unfoldable pub queue_evaluation : Moment → ℕ → Principal → Tx (AssetStatus × Option Asset)
queue_evaluation at asset_id principal = do
  found ← get_asset_by_id asset_id
  (asset_row, token) ← or_raise found (contract_error Refusal.asset_not_found)
  raise_if (not (asset_row.owner_id == principal.id)) (contract_error Refusal.forbidden)
  raise_if (is_evaluating asset_row.status) (contract_error Refusal.asset_state_conflict)
  raise_if (is_tokenized asset_row.status) (contract_error Refusal.asset_state_conflict)
  queued_row ← begin_asset_evaluation at.now asset_id principal.id
  (if is_some queued_row then audit at.audited else pure tt)
  pure (asset_row.status, queued_row)

-- `_dispatch_asset_evaluation`, which can fail to start the task.
unfoldable pub dispatch : Bool → Moment → Task → Tx Task
dispatch true at task = pure task
dispatch false at task = do
  connected (reset_asset_evaluation at.now task.asset_id task.fallback_status)
  raise (contract_error Refusal.evaluation_dispatch_failed)

unfoldable pub request_asset_evaluation : Bool → Moment → ℕ → Principal → Tx Task
unfolding queue_evaluation dispatch require_seller_or_admin
request_asset_evaluation dispatches at asset_id principal = do
  require_seller_or_admin principal
  (previous_status, queued_row) ← connected (queue_evaluation at asset_id principal)
  raise_if (not (is_some queued_row)) (contract_error Refusal.asset_state_conflict)
  dispatch dispatches at (record { asset_id = asset_id; fallback_status = previous_status })

-- How a task goes: it stores its result, it fails before it stores it or after, or the service shuts down.
pub data Course : Type 0 where
  completes fails_early fails_late cancelled : Course

abbrev is_early : Course → Bool
is_early Course.completes = false
is_early Course.fails_early = true
is_early Course.fails_late = false
is_early Course.cancelled = false

abbrev is_late : Course → Bool
is_late Course.completes = false
is_late Course.fails_early = false
is_late Course.fails_late = true
is_late Course.cancelled = false

abbrev pub store_evaluation : Course → ℕ → ℕ → Option (Asset × Option Token) → Tx Unit₀
store_evaluation course now asset_id none = pure tt
store_evaluation course now asset_id (some (asset_row, token)) = do
  completed_row ←
      connected (complete_asset_evaluation now asset_id (evaluate_asset_submission asset_row))
  raise_if (is_some completed_row && is_late course) runtime_error

abbrev pub evaluate_and_store : Course → ℕ → ℕ → Tx Unit₀
evaluate_and_store course now asset_id = do
  asset_row ← connected (get_asset_by_id asset_id)
  raise_if (is_early course) runtime_error
  store_evaluation course now asset_id asset_row

abbrev pub unless_done : ℕ → Task → Result Unit₀ → Tx Unit₀
unless_done now task (ok _) = pure tt
unless_done now task (err e) =
    connected (reset_asset_evaluation now task.asset_id task.fallback_status) >> pure tt

abbrev pub or_fall_back : Course → ℕ → Task → Tx Unit₀
or_fall_back course now task = do
  outcome ← catch (evaluate_and_store course now task.asset_id)
  unless_done now task outcome

-- `_run_asset_evaluation`: a cancelled task stops without a word.
unfoldable pub run_asset_evaluation : Course → ℕ → Task → Tx Unit₀
run_asset_evaluation Course.cancelled now task = pure tt
run_asset_evaluation Course.completes now task = or_fall_back Course.completes now task
run_asset_evaluation Course.fails_early now task = or_fall_back Course.fails_early now task
run_asset_evaluation Course.fails_late now task = or_fall_back Course.fails_late now task

-- `AssetTokenizationRequest`, and the new identifiers.
pub record Tokenization : Type 0 where
  pub total_supply : ℕ
  pub unit_price_sat : ℕ
  pub token_id : ℕ
  pub balance_id : ℕ

-- `none` is an exception of the node; its answer can lack the asset.
abbrev pub Node : Type 0
Node = ℕ → Option (Option Text)

unfoldable pub get_tokenizable : ℕ → Principal → Tx Asset
get_tokenizable asset_id principal = do
  found ← connected (get_asset_by_id asset_id)
  (asset_row, token) ← or_raise found (contract_error Refusal.asset_not_found)
  raise_if (not (asset_row.owner_id == principal.id)) (contract_error Refusal.forbidden)
  raise_if (is_some token || is_tokenized asset_row.status)
      (contract_error Refusal.asset_state_conflict)
  raise_if (not (is_approved asset_row.status)) (contract_error Refusal.asset_state_conflict)
  pure asset_row

unfoldable pub issue_liquid_asset : Node → ℕ → Tx Text
issue_liquid_asset issue_asset total_supply = do
  issuance_result ←
      or_raise (issue_asset total_supply) (contract_error Refusal.liquid_issuance_failed)
  let liquid_asset_id = lower (strip (get_or issuance_result []))
  raise_if (not (is_some (from_hex liquid_asset_id)))
      (contract_error Refusal.liquid_issuance_invalid)
  raise_if (not (length liquid_asset_id == 64)) (contract_error Refusal.liquid_issuance_invalid)
  pure liquid_asset_id

abbrev pub or_persist_failed : Result (Option (Asset × Option Token)) → Tx (Asset × Option Token)
or_persist_failed (ok (some row)) = pure row
or_persist_failed (ok none) = raise (contract_error Refusal.liquid_issuance_persist_failed)
or_persist_failed (err integrity_error) =
    raise (contract_error Refusal.liquid_issuance_persist_failed)
or_persist_failed (err runtime_error) = raise runtime_error
or_persist_failed (err (value_error e)) = raise (value_error e)
or_persist_failed (err (lookup_error e)) = raise (lookup_error e)
or_persist_failed (err (contract_error e)) = raise (contract_error e)

abbrev pub issue_of : Tokenization → ℕ → Principal → Text → Issue
issue_of body asset_id principal liquid_asset_id = record {
  token_id = body.token_id;
  balance_id = body.balance_id;
  asset_id = asset_id;
  owner_id = principal.id;
  liquid_asset_id = liquid_asset_id;
  total_supply = body.total_supply;
  circulating_supply = body.total_supply;
  unit_price_sat = body.unit_price_sat;
}

unfoldable pub persist_issue : Moment → Issue → Tx (Option (Asset × Option Token))
persist_issue at i = do
  tokenized_row ← create_asset_token at.now i
  (if is_some tokenized_row then audit at.audited else pure tt)
  pure tokenized_row

unfoldable pub tokenize_asset :
    Node → Moment → ℕ → Principal → Tokenization → Tx (Asset × Option Token)
unfolding get_tokenizable issue_liquid_asset persist_issue require_seller_or_admin
tokenize_asset issue_asset at asset_id principal body = do
  require_seller_or_admin principal
  asset_row ← get_tokenizable asset_id principal
  liquid_asset_id ← issue_liquid_asset issue_asset body.total_supply
  outcome ← catch (connected (persist_issue at (issue_of body asset_id principal liquid_asset_id)))
  or_persist_failed outcome

unfoldable pub get_asset : ℕ → Tx (Asset × Option Token)
get_asset asset_id = do
  row ← connected (get_asset_by_id asset_id)
  or_raise row (contract_error Refusal.asset_not_found)
