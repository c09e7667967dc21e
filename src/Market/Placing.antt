-- ===== src/Market/Placing.antt =====
-- Placing and cancelling an order (the handlers `place_order` and `delete_order` of
-- services/marketplace/main.py, and services/auth/kyc_db.py): the checks, and one turn of the
-- matching loop as a function. The loop itself is a relation, Placing/Loop.antt.
pub mod Safe
pub mod Loop
pub mod Work
pub mod Lightens
pub mod Enough
pub mod Handler
pub mod Turn
pub mod Ends
pub mod Deletes
pub mod Checks
pub mod Tests
use tokenization.Common.{
  ℕ, ◌+◌, ◌-◌, ◌*◌, min, Bool, true, false, not, ◌&&◌, ◌||◌, Option, none, some, List, [], ◌∷◌,
  ◌++◌, ltb, leb, ◌==◌, if◌then◌else◌, get_or,
}
use tokenization.Common.Table.{select_where, fetch_one}
use tokenization.Database.Model.{
  Side, OrderType, KycStatus, KycRecord, Order, Trade, Escrow, TokenBalance, Wallet, Db, is_buy,
  is_limit, is_open_status,
}
use tokenization.Database.Tx.{
  Result, ok, err, Tx, ◌>>=◌, ◌>>◌, pure, raise, query, or_raise, raise_if, catch, Failure,
  value_error, lookup_error, contract_error, runtime_error, integrity_error, ValueError,
  LookupError, Refusal, Unit₀,
}
use tokenization.Market.Keys.{Keys}
use tokenization.Market.Orders.{
  OrderRequest, get_token_by_id, get_order_by_id, get_reserved_buy_commitment,
  get_reserved_sell_quantity, create_order, remaining_quantity,
}
use tokenization.Market.Balances.{get_wallet_by_user_id, get_token_balance_for_user}
use tokenization.Market.Book.{
  find_best_match, activate_triggered_orders, get_reference_price_for_token, cancel_order,
}
use tokenization.Market.Trading.{Stamp, create_trade_escrow}

unfoldable pub get_kyc_status : ℕ → Tx (Option KycRecord)
get_kyc_status user_id = query (λ db. fetch_one (select_where (λ k. k.user_id == user_id) db.kyc))

unfoldable pub is_kyc_verified : Option KycRecord → Bool
is_kyc_verified none = false
is_kyc_verified (some row) = elim row.status [
  | KycStatus.pending ↦ false
  | KycStatus.verified ↦ true
  | KycStatus.rejected ↦ false
  | KycStatus.expired ↦ false
]

-- The refusal for a user who is not verified.
abbrev pub kyc_refusal : Option KycRecord → Refusal
kyc_refusal none = Refusal.kyc_required
kyc_refusal (some row) = elim row.status [
  | KycStatus.pending ↦ Refusal.kyc_pending
  | KycStatus.verified ↦ Refusal.kyc_not_verified
  | KycStatus.rejected ↦ Refusal.kyc_rejected
  | KycStatus.expired ↦ Refusal.kyc_not_verified
]

abbrev pub require_kyc : Option KycRecord → Tx Unit₀
require_kyc kyc_row =
    if is_kyc_verified kyc_row then pure tt else raise (contract_error (kyc_refusal kyc_row))

-- `threshold` is the setting `kyc_trade_threshold_sat`.
unfoldable pub enforce_kyc_threshold : ℕ → ℕ → ℕ → Tx Unit₀
enforce_kyc_threshold threshold user_id total_value_sat =
    if threshold == 0 || ltb total_value_sat threshold
    then pure tt
    else do kyc_row ← get_kyc_status user_id; require_kyc kyc_row

unfoldable pub wallet_total_balance : Wallet → ℕ
wallet_total_balance w = w.onchain_balance_sat + w.lightning_balance_sat

unfoldable pub stop_order_triggered : Side → ℕ → Option ℕ → Bool
stop_order_triggered side trigger_price_sat none = false
stop_order_triggered side trigger_price_sat (some reference_price) =
    if is_buy side
    then leb trigger_price_sat reference_price
    else leb reference_price trigger_price_sat

abbrev balance_of_row : Option TokenBalance → ℕ
balance_of_row none = 0
balance_of_row (some b) = b.balance

-- The funds that other open orders leave: `total - reserved < wanted`, where the difference may be
-- negative.
abbrev pub check_sats : ℕ → OrderRequest → Wallet → Tx Unit₀
check_sats user_id body wallet_row = do
  reserved ← get_reserved_buy_commitment user_id
  raise_if (ltb (wallet_total_balance wallet_row) (body.quantity * body.price_sat + reserved))
      (contract_error Refusal.insufficient_sats)

abbrev pub check_tokens : ℕ → OrderRequest → Tx Unit₀
check_tokens user_id body = do
  balance_row ← get_token_balance_for_user user_id body.token_id
  reserved ← get_reserved_sell_quantity user_id body.token_id
  raise_if (ltb (balance_of_row balance_row) (body.quantity + reserved))
      (contract_error Refusal.insufficient_tokens)

unfoldable pub check_funds : ℕ → OrderRequest → Wallet → Tx Unit₀
check_funds user_id body wallet_row =
    if is_buy body.side then check_sats user_id body wallet_row else check_tokens user_id body

-- `triggered_at` of the new order: a stop order whose trigger price is reached already.
abbrev pub trigger_time : ℕ → OrderRequest → Option ℕ → Tx (Option ℕ)
trigger_time now body none = pure none
trigger_time now body (some trigger_price_sat) = if is_limit body.order_type then pure none else do
  reference_price ← get_reference_price_for_token body.token_id
  pure (if stop_order_triggered body.side trigger_price_sat reference_price then some now else none)

-- The handler up to the loop.
unfoldable pub open_order : ℕ → Stamp → ℕ → OrderRequest → Tx Order
open_order threshold s user_id body = do
  token_row ← get_token_by_id body.token_id
  or_raise token_row (contract_error Refusal.token_unknown)
  found_wallet ← get_wallet_by_user_id user_id
  wallet_row ← or_raise found_wallet (contract_error Refusal.wallet_missing)
  check_funds user_id body wallet_row
  enforce_kyc_threshold threshold user_id (body.quantity * body.price_sat)
  triggered_at ← trigger_time s.now body body.trigger_price_sat
  create_order s.order_id s.now user_id body triggered_at

-- A trade that the loop will publish: the trade, its escrow, the buy and the sell order.
abbrev pub Match : Type 0
Match = Trade × Escrow × Order × Order

-- The variables of the loop; `over` after a `break`.
pub record Progress : Type 0 where
  pub order_row : Order
  pub published : List Match
  pub over : Bool

-- What the handler does about an exception of `create_trade_escrow`.
pub data Recovery : Type 0 where
  cancels_match rereads propagates : Recovery

abbrev of_value_error : ValueError → Recovery
of_value_error ValueError.insufficient_token_balance = Recovery.cancels_match
of_value_error ValueError.order_insufficient_quantity = Recovery.rereads
of_value_error _ = Recovery.propagates

abbrev of_lookup_error : LookupError → Recovery
of_lookup_error LookupError.wallet_not_found = Recovery.cancels_match
of_lookup_error _ = Recovery.propagates

abbrev pub recovery : Failure → Recovery
recovery (value_error e) = of_value_error e
recovery (lookup_error e) = of_lookup_error e
recovery (contract_error e) = Recovery.propagates
recovery runtime_error = Recovery.propagates
recovery integrity_error = Recovery.propagates

-- `order_row = await get_order_by_id(..) or order_row`
unfoldable pub reread : Progress → Tx Progress
unfolding get_order_by_id
reread p = do
  found ← get_order_by_id p.order_row.id
  pure (record p { order_row = get_or found p.order_row })

abbrev pub recover : Stamp → Order → Progress → Failure → Recovery → Tx Progress
recover s matched p e Recovery.cancels_match = do
  cancel_order s.now matched.id matched.user_id
  pure p
recover s matched p e Recovery.rereads = reread p
recover s matched p e Recovery.propagates = raise e

abbrev pub after_match :
    Stamp
    → OrderRequest
    → (matched buy_order sell_order : Order) → Progress
    → Result (Trade × Escrow)
    → Tx Progress
after_match s body matched buy_order sell_order p (ok (trade_row, escrow_row)) = do
  activate_triggered_orders s.now body.token_id matched.price_sat
  reread
      (record p { published = p.published ++ (trade_row, escrow_row, buy_order, sell_order) ∷ [] })
after_match s body matched buy_order sell_order p (err e) = recover s matched p e (recovery e)

abbrev pub activate_at : ℕ → ℕ → Option ℕ → Tx Unit₀
activate_at now token_id none = pure tt
activate_at now token_id (some reference) =
    activate_triggered_orders now token_id reference >> pure tt

-- Only stop orders look at the reference price again.
abbrev pub refresh_stops : ℕ → OrderRequest → Tx Unit₀
refresh_stops now body = if is_limit body.order_type then pure tt else do
  reference ← get_reference_price_for_token body.token_id
  activate_at now body.token_id reference

module _ (k : Keys) (s : Stamp) (user_id : ℕ) (body : OrderRequest) (p : Progress) where
  abbrev pub trade_with : Order → Option Order → Tx Progress
  trade_with current none = pure (record p { order_row = current; over = true })
  trade_with current (some matched) =
      let quantity = min (remaining_quantity current) (remaining_quantity matched) in
      let buy_order = if is_buy body.side then current else matched in
      let sell_order = if is_buy body.side then matched else current in
      if remaining_quantity matched == 0
      then pure (record p { order_row = current; over = true })
      else do
        r ← catch (create_trade_escrow s buy_order sell_order quantity matched.price_sat 0 k)
        after_match s body matched buy_order sell_order p r

  abbrev pub continue_with : Option Order → Tx Progress
  continue_with none = pure (record p { over = true })
  continue_with (some current) =
      if remaining_quantity current == 0
      then pure (record p { order_row = current; over = true })
      else do
        refresh_stops s.now body
        matched ← find_best_match body.token_id body.side body.price_sat user_id
        trade_with current matched

  -- One turn of `while triggered_at is not None or body.order_type == "limit"`.
  unfoldable pub match_turn : Tx Progress
  match_turn = do found ← get_order_by_id p.order_row.id; continue_with found

-- The body of `delete_order`.
abbrev pub cancel_found : ℕ → ℕ → ℕ → Order → Tx (Option Order)
cancel_found now order_id user_id existing = do
  raise_if (not (existing.user_id == user_id)) (contract_error Refusal.forbidden)
  raise_if (not (is_open_status existing.status)) (contract_error Refusal.order_state_conflict)
  cancel_order now order_id user_id

unfoldable pub delete_order : ℕ → ℕ → ℕ → Tx (Option Order)
delete_order now order_id user_id = do
  found ← get_order_by_id order_id
  existing ← or_raise found (contract_error Refusal.order_not_found)
  cancel_found now order_id user_id existing
