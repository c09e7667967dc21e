-- ===== src/Market/Balances.antt =====
-- Wallet and token balances, and the fill of an order (services/marketplace/db.py). Rows are
-- arguments, as in the source: what an operation computes from a row may be older than the table.
pub mod Fills
pub mod Debits
use tokenization.Common.{
  ℕ, ◌+◌, ◌-◌, min, Bool, ◌&&◌, Option, none, some, List, [], ◌∷◌, ◌++◌, map, ltb, leb, ◌==◌,
  if◌then◌else◌, is_some,
}
use tokenization.Common.Table.{select_where, update_where, fetch_one}
use tokenization.Database.Model.{OrderStatus, Order, Wallet, TokenBalance, Db}
use tokenization.Database.Tx.{
  Tx, ◌>>=◌, ◌>>◌, pure, query, raise_if, modify, value_error, quantity_must_be_positive,
  insufficient_wallet_balance, insufficient_token_balance, order_already_filled, Unit₀,
}

unfoldable pub get_wallet_by_user_id : ℕ → Tx (Option Wallet)
get_wallet_by_user_id user_id =
    query (λ db. fetch_one (select_where (λ w. w.user_id == user_id) db.wallets))

abbrev pub is_balance_of : ℕ → ℕ → TokenBalance → Bool
is_balance_of user_id token_id b = b.user_id == user_id && b.token_id == token_id

unfoldable pub get_token_balance_for_user : ℕ → ℕ → Tx (Option TokenBalance)
get_token_balance_for_user user_id token_id =
    query (λ db. fetch_one (select_where (is_balance_of user_id token_id) db.balances))

-- The two new balances of a debit: on-chain funds first, then Lightning funds.
unfoldable pub debited : ℕ → ℕ → Wallet → Wallet
debited now amount_sat w =
    let onchain_debit = min w.onchain_balance_sat amount_sat in
    record w {
      onchain_balance_sat = w.onchain_balance_sat - onchain_debit;
      lightning_balance_sat = w.lightning_balance_sat - (amount_sat - onchain_debit);
      updated_at = now;
    }

-- The UPDATE writes the balances that were computed from the row that was passed in.
abbrev pub write_balances : Wallet → Wallet → Wallet
write_balances v w = record w {
  onchain_balance_sat = v.onchain_balance_sat;
  lightning_balance_sat = v.lightning_balance_sat;
  updated_at = v.updated_at;
}

unfoldable pub debit_wallet_balance : ℕ → Wallet → ℕ → Tx Unit₀
unfolding debited
debit_wallet_balance now wallet_row amount_sat = do
  raise_if (ltb (wallet_row.onchain_balance_sat + wallet_row.lightning_balance_sat) amount_sat)
      (value_error insufficient_wallet_balance)
  modify (λ db. record db {
    wallets =
        update_where (λ w. w.id == wallet_row.id)
          (write_balances (debited now amount_sat wallet_row)) db.wallets;
  })

abbrev pub write_onchain : ℕ → ℕ → Wallet → Wallet
write_onchain now onchain w = record w { onchain_balance_sat = onchain; updated_at = now }

unfoldable pub credit_wallet_balance : ℕ → Wallet → ℕ → Tx Unit₀
credit_wallet_balance now wallet_row amount_sat = modify (λ db. record db {
  wallets =
      update_where (λ w. w.id == wallet_row.id)
        (write_onchain now (wallet_row.onchain_balance_sat + amount_sat)) db.wallets;
})

abbrev pub covers : ℕ → ℕ → ℕ → TokenBalance → Bool
covers user_id token_id quantity b = is_balance_of user_id token_id b && leb quantity b.balance

abbrev pub minus_tokens : ℕ → ℕ → TokenBalance → TokenBalance
minus_tokens now quantity b = record b { balance = b.balance - quantity; updated_at = now }

unfoldable pub decrement_token_balance : ℕ → ℕ → ℕ → ℕ → Tx Unit₀
decrement_token_balance now user_id token_id quantity = do
  row ← query (λ db. fetch_one (
      map (minus_tokens now quantity)
        (select_where (covers user_id token_id quantity) db.balances)))
  modify (λ db. record db {
    balances =
        update_where (covers user_id token_id quantity) (minus_tokens now quantity) db.balances;
  })
  raise_if (if is_some row then Bool.false else Bool.true) (value_error insufficient_token_balance)

abbrev pub plus_tokens : ℕ → ℕ → TokenBalance → TokenBalance
plus_tokens now quantity b = record b { balance = b.balance + quantity; updated_at = now }

abbrev pub new_balance : ℕ → ℕ → ℕ → ℕ → ℕ → TokenBalance
new_balance row_id now user_id token_id quantity = record {
  id = row_id;
  user_id = user_id;
  token_id = token_id;
  balance = quantity;
  updated_at = now;
}

-- INSERT .. ON CONFLICT (user_id, token_id) DO UPDATE
unfoldable pub upsert_balance : ℕ → ℕ → ℕ → ℕ → ℕ → List TokenBalance → List TokenBalance
upsert_balance row_id now user_id token_id quantity rows =
    if is_some (fetch_one (select_where (is_balance_of user_id token_id) rows))
    then update_where (is_balance_of user_id token_id) (plus_tokens now quantity) rows
    else rows ++ new_balance row_id now user_id token_id quantity ∷ []

unfoldable pub increment_token_balance : ℕ → ℕ → ℕ → ℕ → ℕ → Tx Unit₀
increment_token_balance row_id now user_id token_id quantity =
    modify (λ db. record db {
      balances = upsert_balance row_id now user_id token_id quantity db.balances;
    })

abbrev pub write_fill : ℕ → ℕ → OrderStatus → Order → Order
write_fill now filled status o = record o {
  filled_quantity = filled;
  status = status;
  updated_at = now;
}

abbrev pub set_fill : ℕ → Order → ℕ → OrderStatus → Db → Db
set_fill now order_row filled status db = record db {
  orders = update_where (λ o. o.id == order_row.id) (write_fill now filled status) db.orders;
}

unfoldable pub apply_order_fill : ℕ → Order → ℕ → Tx Unit₀
apply_order_fill now order_row quantity = do
  raise_if (quantity == 0) (value_error quantity_must_be_positive)
  let new_filled = min (order_row.filled_quantity + quantity) order_row.quantity
  raise_if (leb new_filled order_row.filled_quantity) (value_error order_already_filled)
  let new_status =
      if new_filled == order_row.quantity then OrderStatus.filled else OrderStatus.partially_filled
  modify (set_fill now order_row new_filled new_status)

abbrev pub reverted_status : ℕ → Order → OrderStatus
reverted_status new_filled order_row =
    if new_filled == 0
    then OrderStatus.open_order
    else if ltb new_filled order_row.quantity
    then OrderStatus.partially_filled
    else OrderStatus.filled

unfoldable pub revert_order_fill : ℕ → Order → ℕ → Tx Unit₀
revert_order_fill now order_row quantity = do
  raise_if (quantity == 0) (value_error quantity_must_be_positive)
  let new_filled = order_row.filled_quantity - quantity
  modify (set_fill now order_row new_filled (reverted_status new_filled order_row))
