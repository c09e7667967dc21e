-- ===== src/Market/Disputes.antt =====
-- Opening and resolving a dispute (services/marketplace/db.py).
use tokenization.Common.{
  ℕ, Bool, true, false, ◌&&◌, ◌||◌, Option, none, some, [], ◌∷◌, ◌++◌, map, ◌==◌, if◌then◌else◌,
  is_some,
}
use tokenization.Common.Table.{select_where, update_where, fetch_one}
use tokenization.Database.Model.{
  Text, TradeStatus, EscrowStatus, DisputeStatus, Resolution, Order, Trade, Escrow, Dispute,
  Metadata, Signatures,
}
use tokenization.Database.Tx.{
  Tx, ◌>>=◌, ◌>>◌, pure, query, raise, or_raise, raise_if, modify, commit, attempt, lookup_error,
  integrity_error, trade_not_found_or_state_conflict, escrow_not_found_or_state_conflict,
  orders_not_found, escrow_update_failed, trade_update_failed,
  dispute_not_found_or_already_resolved, Unit₀,
}
use tokenization.Market.Orders.{get_order_by_id, get_trade_by_id}
use tokenization.Market.Balances.{increment_token_balance}
use tokenization.Market.Treasury.{record_trade_fee_income}
use tokenization.Market.Trading.{Stamp}
use tokenization.Market.Escrows.{
  get_escrow_by_trade_id, update_escrow, update_trade, is_funded, is_disputed, set_status,
  merge_settlement_metadata,
}

unfoldable pub get_dispute_by_trade_id : ℕ → Tx (Option Dispute)
get_dispute_by_trade_id trade_id =
    query (λ db. fetch_one (select_where (λ d. d.trade_id == trade_id) db.disputes))

abbrev pub is_escrowed : TradeStatus → Bool
is_escrowed TradeStatus.pending = false
is_escrowed TradeStatus.escrowed = true
is_escrowed _ = false

abbrev pub is_disputed_trade : TradeStatus → Bool
is_disputed_trade TradeStatus.pending = false
is_disputed_trade TradeStatus.disputed = true
is_disputed_trade _ = false

abbrev pub dispute_escrow : ℕ → Escrow → Escrow
dispute_escrow now e = record e { status = EscrowStatus.disputed; updated_at = now }

abbrev pub new_dispute : Stamp → ℕ → ℕ → Text → Dispute
new_dispute s trade_id opened_by reason = record {
  id = s.dispute_id;
  trade_id = trade_id;
  opened_by = opened_by;
  reason = reason;
  status = DisputeStatus.open_dispute;
  resolution = none;
  resolved_by = none;
  resolved_at = none;
  created_at = s.now;
  updated_at = s.now;
}

-- `disputes.trade_id` is unique.
unfoldable pub insert_dispute : Dispute → Tx Unit₀
insert_dispute row = do
  taken ← query (λ db.
      is_some
        (fetch_one (select_where (λ d. d.id == row.id || d.trade_id == row.trade_id) db.disputes)))
  raise_if taken integrity_error
  modify (λ db. record db { disputes = db.disputes ++ row ∷ [] })

unfoldable pub open_dispute : Stamp → ℕ → ℕ → Text → Tx Dispute
open_dispute s trade_id opened_by reason = attempt (do
  update_trade (λ t. t.id == trade_id && is_escrowed t.status) (set_status TradeStatus.disputed)
      trade_not_found_or_state_conflict
  update_escrow (λ e. e.trade_id == trade_id && is_funded e.status) (dispute_escrow s.now)
      escrow_not_found_or_state_conflict
  insert_dispute (new_dispute s trade_id opened_by reason)
  commit
  pure (new_dispute s trade_id opened_by reason))

-- The statuses and the transaction id that a resolution writes.
abbrev pub resolved_escrow : Resolution → ℕ → Text → Signatures → Metadata → Escrow → Escrow
resolved_escrow Resolution.release now txid signatures metadata e = record e {
  status = EscrowStatus.released;
  release_txid = some txid;
  collected_signatures = signatures;
  settlement_metadata = metadata;
  updated_at = now;
}
resolved_escrow Resolution.refund now txid signatures metadata e = record e {
  status = EscrowStatus.refunded;
  refund_txid = some txid;
  collected_signatures = signatures;
  settlement_metadata = metadata;
  updated_at = now;
}

abbrev pub resolved_trade : Resolution → ℕ → Trade → Trade
resolved_trade Resolution.release now t = record t {
  status = TradeStatus.settled;
  settled_at = some now;
}
resolved_trade Resolution.refund now t = record t {
  status = TradeStatus.cancelled;
  settled_at = none;
}

-- The user who receives the locked tokens.
abbrev pub beneficiary : Resolution → Order → Order → ℕ
beneficiary Resolution.release buy_order sell_order = buy_order.user_id
beneficiary Resolution.refund buy_order sell_order = sell_order.user_id

abbrev pub record_fee_on_release : Resolution → Stamp → Trade → Tx Unit₀
record_fee_on_release Resolution.release s trade_row =
    record_trade_fee_income s.entry_id s.now trade_row >> pure tt
record_fee_on_release Resolution.refund s trade_row = pure tt

abbrev pub is_open_dispute : DisputeStatus → Bool
is_open_dispute DisputeStatus.open_dispute = true
is_open_dispute DisputeStatus.resolved = false

abbrev pub close_dispute : ℕ → ℕ → Resolution → Dispute → Dispute
close_dispute now resolved_by resolution d = record d {
  status = DisputeStatus.resolved;
  resolution = some resolution;
  resolved_by = some resolved_by;
  resolved_at = some now;
  updated_at = now;
}

unfoldable pub update_dispute : (Dispute → Bool) → (Dispute → Dispute) → Tx Dispute
update_dispute p g = do
  rows ← query (λ db. map g (select_where p db.disputes))
  modify (λ db. record db { disputes = update_where p g db.disputes })
  or_raise (fetch_one rows) (lookup_error dispute_not_found_or_already_resolved)

-- `raise LookupError` unless the row is there and meets the test.
abbrev pub require_row : {A : Type 0} → (A → Bool) → Tx A → Option A → Tx A
require_row p missing none = missing
require_row p missing (some a) = if p a then pure a else missing

-- The literal type of `resolution` leaves no other value, so the first guard of the source is void.
unfoldable pub resolve_dispute :
    Stamp → ℕ → ℕ → Resolution → Text → Signatures → Metadata → Tx (Dispute × Trade × Escrow)
resolve_dispute s trade_id resolved_by resolution txid signatures updates = attempt (do
  found_trade ← get_trade_by_id trade_id
  trade_row ←
      require_row (λ t. is_disputed_trade t.status)
        (raise (lookup_error trade_not_found_or_state_conflict)) found_trade
  found_escrow ← get_escrow_by_trade_id trade_id
  escrow_row ←
      require_row (λ e. is_disputed e.status)
        (raise (lookup_error escrow_not_found_or_state_conflict)) found_escrow
  found_buy ← get_order_by_id trade_row.buy_order_id
  found_sell ← get_order_by_id trade_row.sell_order_id
  buy_order ← or_raise found_buy (lookup_error orders_not_found)
  sell_order ← or_raise found_sell (lookup_error orders_not_found)
  let metadata = merge_settlement_metadata escrow_row.settlement_metadata updates
  increment_token_balance s.balance_id s.now (beneficiary resolution buy_order sell_order)
      trade_row.token_id trade_row.quantity
  new_escrow ←
      update_escrow (λ e. e.trade_id == trade_id && is_disputed e.status)
        (resolved_escrow resolution s.now txid signatures metadata) escrow_update_failed
  new_trade ←
      update_trade (λ t. t.id == trade_id) (resolved_trade resolution s.now) trade_update_failed
  record_fee_on_release resolution s new_trade
  dispute_row ←
      update_dispute (λ d. d.trade_id == trade_id && is_open_dispute d.status)
        (close_dispute s.now resolved_by resolution)
  commit
  pure (dispute_row, new_trade, new_escrow))
