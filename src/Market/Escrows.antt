-- ===== src/Market/Escrows.antt =====
-- The life of an escrow after the match: funding, signatures, release and expiry
-- (services/marketplace/db.py).
pub mod Collected
pub mod Signed
use Prim.Native.String.{String}
use tokenization.Common.{
  ℕ, ◌+◌, Bool, true, false, not, ◌&&◌, ◌||◌, Option, none, some, List, [], ◌∷◌, map, ltb, ◌==◌,
  if◌then◌else◌, get_or,
}
use tokenization.Common.Table.{select_where, update_where, fetch_one}
use tokenization.Common.Dict.{Dict, lookup, insert, update}
use tokenization.Common.Sort.{order_by}
use tokenization.Database.Model.{
  Text, TradeStatus, EscrowStatus, Order, Trade, Escrow, Value, Metadata, SignatureRecord,
  Signatures, Db, time,
}
use tokenization.Database.Tx.{
  Tx, ◌>>=◌, ◌>>◌, pure, query, raise, or_raise, raise_if, modify, commit, attempt, LookupError,
  lookup_error, escrow_not_found, trade_not_found, trade_not_found_or_state_conflict,
  escrow_not_found_or_state_conflict, escrow_not_expirable, Unit₀,
}
use tokenization.Market.Balances.{increment_token_balance, revert_order_fill}
use tokenization.Market.Treasury.{record_trade_fee_income}
use tokenization.Market.Trading.{Stamp}

unfoldable pub get_escrow_by_trade_id : ℕ → Tx (Option Escrow)
get_escrow_by_trade_id trade_id =
    query (λ db. fetch_one (select_where (λ e. e.trade_id == trade_id) db.escrows))

abbrev older_escrow : Escrow → Escrow → Bool
older_escrow a b = ltb a.created_at b.created_at || (a.created_at == b.created_at && ltb a.id b.id)

unfoldable pub list_escrows_by_status : (EscrowStatus → Bool) → Tx (List Escrow)
list_escrows_by_status statuses =
    query (λ db. order_by older_escrow (select_where (λ e. statuses e.status) db.escrows))

-- UPDATE escrows .. RETURNING, then `fetchone`; `LookupError` if no row was updated.
unfoldable pub update_escrow : (Escrow → Bool) → (Escrow → Escrow) → LookupError → Tx Escrow
update_escrow p g missing = do
  rows ← query (λ db. map g (select_where p db.escrows))
  modify (λ db. record db { escrows = update_where p g db.escrows })
  or_raise (fetch_one rows) (lookup_error missing)

-- The same on the trades.
unfoldable pub update_trade : (Trade → Bool) → (Trade → Trade) → LookupError → Tx Trade
update_trade p g missing = do
  rows ← query (λ db. map g (select_where p db.trades))
  modify (λ db. record db { trades = update_where p g db.trades })
  or_raise (fetch_one rows) (lookup_error missing)

abbrev pub is_created : EscrowStatus → Bool
is_created EscrowStatus.created = true
is_created _ = false

abbrev pub is_funded : EscrowStatus → Bool
is_funded EscrowStatus.created = false
is_funded EscrowStatus.funded = true
is_funded _ = false

abbrev pub is_inspection_pending : EscrowStatus → Bool
is_inspection_pending EscrowStatus.created = false
is_inspection_pending EscrowStatus.inspection_pending = true
is_inspection_pending _ = false

abbrev pub is_disputed : EscrowStatus → Bool
is_disputed EscrowStatus.created = false
is_disputed EscrowStatus.disputed = true
is_disputed _ = false

abbrev pub is_pending : TradeStatus → Bool
is_pending TradeStatus.pending = true
is_pending _ = false

unfoldable pub update_escrow_settlement_metadata : ℕ → ℕ → Metadata → Tx Escrow
unfolding update_escrow
update_escrow_settlement_metadata now escrow_id settlement_metadata = do
  row ←
      update_escrow (λ e. e.id == escrow_id)
        (λ e. record e { settlement_metadata = settlement_metadata; updated_at = now })
        escrow_not_found
  commit
  pure row

-- `_merge_settlement_metadata`, where `None` and `{}` are one
unfoldable pub merge_settlement_metadata : Metadata → Metadata → Metadata
unfolding update
merge_settlement_metadata existing updates = update existing updates

unfoldable pub updated_signature_payload :
    Signatures → String → String → SignatureRecord → Signatures
unfolding lookup insert
updated_signature_payload existing signature_path signer_role signature_record =
    insert signature_path
      (insert signer_role signature_record (get_or (lookup signature_path existing) [])) existing

-- `settlement_metadata || CAST(.. AS JSON)` as the merge it stands for; PostgreSQL has no such operator between jsonb
-- and json, and refuses the statement.
abbrev pub mark_funded : ℕ → Text → Metadata → Escrow → Escrow
mark_funded now funding_txid updates e = record e {
  funding_txid = some funding_txid;
  status = EscrowStatus.funded;
  settlement_metadata = update e.settlement_metadata updates;
  updated_at = now;
}

abbrev pub set_status : TradeStatus → Trade → Trade
set_status status t = record t { status = status }

unfoldable pub mark_escrow_funded : ℕ → ℕ → Text → Metadata → Tx (Trade × Escrow)
mark_escrow_funded now trade_id funding_txid updates = attempt (do
  escrow_row ←
      update_escrow (λ e. e.trade_id == trade_id && is_created e.status)
        (mark_funded now funding_txid updates) escrow_not_found
  trade_row ← update_trade (λ t. t.id == trade_id) (set_status TradeStatus.escrowed) trade_not_found
  commit
  pure (trade_row, escrow_row))

-- The columns that a recorded signature writes.
abbrev pub write_signature : ℕ → Signatures → Metadata → EscrowStatus → Escrow → Escrow
write_signature now signatures metadata status e = record e {
  collected_signatures = signatures;
  settlement_metadata = metadata;
  status = status;
  updated_at = now;
}

unfoldable pub record_escrow_signature :
    ℕ → Escrow → String → String → SignatureRecord → Metadata → Tx Escrow
record_escrow_signature now escrow_row signer_role signature_path signature_record updates =
    let updated_signatures =
      updated_signature_payload escrow_row.collected_signatures signature_path signer_role
        signature_record in
    let updated_metadata = merge_settlement_metadata escrow_row.settlement_metadata updates in
    let next_status =
      if is_funded escrow_row.status then EscrowStatus.inspection_pending else escrow_row.status in
    attempt (do
      row ←
          update_escrow
            (λ e. e.id == escrow_row.id && (is_funded e.status || is_inspection_pending e.status))
            (write_signature now updated_signatures updated_metadata next_status)
            escrow_not_found_or_state_conflict
      commit
      pure row)

abbrev pub mark_released : ℕ → Signatures → Metadata → Text → Escrow → Escrow
mark_released now signatures metadata release_txid e = record e {
  collected_signatures = signatures;
  settlement_metadata = metadata;
  release_txid = some release_txid;
  status = EscrowStatus.released;
  updated_at = now;
}

abbrev pub mark_settled : ℕ → Trade → Trade
mark_settled now t = record t { status = TradeStatus.settled; settled_at = some now }

unfoldable pub process_escrow_signature :
    Stamp → Escrow → Trade → Order → Order → Signatures → Text → Metadata → Tx (Trade × Escrow)
process_escrow_signature s escrow_row trade_row buy_order sell_order signatures release_txid
      updates =
    let updated_metadata = merge_settlement_metadata escrow_row.settlement_metadata updates in
    attempt (do
      released_row ←
          update_escrow
            (λ e. e.id == escrow_row.id && (is_inspection_pending e.status || is_disputed e.status))
            (mark_released s.now signatures updated_metadata release_txid)
            escrow_not_found_or_state_conflict
      settled_row ← update_trade (λ t. t.id == trade_row.id) (mark_settled s.now) trade_not_found
      increment_token_balance s.balance_id s.now buy_order.user_id settled_row.token_id
          settled_row.quantity
      record_trade_fee_income s.entry_id s.now settled_row
      commit
      pure (settled_row, released_row))

abbrev pub mark_expired : ℕ → Metadata → Escrow → Escrow
mark_expired now metadata e = record e {
  status = EscrowStatus.expired;
  settlement_metadata = metadata;
  updated_at = now;
}

unfoldable pub expire_unfunded_escrow : Stamp → Trade → Escrow → Order → Order → Tx (Trade × Escrow)
expire_unfunded_escrow s trade_row escrow_row buy_order sell_order = do
  raise_if (not (is_created escrow_row.status)) (lookup_error escrow_not_expirable)
  let metadata =
      merge_settlement_metadata escrow_row.settlement_metadata (("expired_at", time s.now) ∷ [])
  attempt (do
    increment_token_balance s.balance_id s.now sell_order.user_id trade_row.token_id
        trade_row.quantity
    revert_order_fill s.now buy_order trade_row.quantity
    revert_order_fill s.now sell_order trade_row.quantity
    updated_escrow ←
        update_escrow (λ e. e.id == escrow_row.id && is_created e.status)
          (mark_expired s.now metadata) escrow_not_found_or_state_conflict
    updated_trade ←
        update_trade (λ t. t.id == trade_row.id && is_pending t.status)
          (set_status TradeStatus.cancelled) trade_not_found_or_state_conflict
    commit
    pure (updated_trade, updated_escrow))
