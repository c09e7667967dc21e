-- ===== src/Wallet/Ledger.antt =====
-- Wallets and their transactions (services/wallet/db.py).
use tokenization.Common.{
  ℕ, ◌+◌, ◌-◌, Bool, true, false, ◌&&◌, ◌||◌, Option, none, some, List, [], ◌∷◌, ◌++◌, map, ltb,
  leb, ◌==◌, if◌then◌else◌, is_some,
}
use tokenization.Common.Table.{select_where, update_where, fetch_one}
use tokenization.Common.Sort.{order_by}
use tokenization.Database.Rows.{
  Text, same_text, TransactionType, Direction, TransactionStatus, Transaction,
}
use tokenization.Database.Model.{Wallet, Db}
use tokenization.Database.Tx.{
  Result, ok, err, Tx, ◌>>=◌, ◌>>◌, pure, raise, or_raise, query, raise_if, catch, modify, commit,
  rollback, integrity_error, runtime_error, Unit₀,
}
use tokenization.Market.Balances.{get_wallet_by_user_id}

abbrev pub is_wallet : ℕ → Wallet → Bool
is_wallet wallet_id w = w.id == wallet_id

unfoldable pub get_wallet_by_id : ℕ → Tx (Option Wallet)
get_wallet_by_id wallet_id = query (λ db. fetch_one (select_where (is_wallet wallet_id) db.wallets))

unfoldable pub list_wallets : Tx (List Wallet)
list_wallets = query (λ db. db.wallets)

-- `id` and `user_id` are unique.
unfoldable pub insert_wallet : Wallet → Tx Unit₀
insert_wallet row = do
  taken ← query (λ db.
      is_some
        (fetch_one (select_where (λ w. w.id == row.id || w.user_id == row.user_id) db.wallets)))
  raise_if taken integrity_error
  modify (λ db. record db { wallets = db.wallets ++ row ∷ [] })

-- `except IntegrityError: await conn.rollback()`
abbrev pub unless_taken : Result Unit₀ → Tx Unit₀
unless_taken (ok _) = pure tt
unless_taken (err integrity_error) = rollback
unless_taken (err e) = raise e

-- The balances of a new wallet are 0; its seed and path come from the custody backend.
abbrev pub new_wallet : ℕ → ℕ → ℕ → Text → Text → Wallet
new_wallet wallet_id now user_id encrypted_seed derivation_path = record {
  id = wallet_id;
  user_id = user_id;
  onchain_balance_sat = 0;
  lightning_balance_sat = 0;
  encrypted_seed = encrypted_seed;
  derivation_path = derivation_path;
  updated_at = now;
}

abbrev pub or_create_wallet : Wallet → Option Wallet → Tx Wallet
or_create_wallet fresh (some existing) = pure existing
or_create_wallet fresh none = do
  inserted ← catch (insert_wallet fresh >> commit)
  unless_taken inserted
  wallet ← get_wallet_by_user_id fresh.user_id
  or_raise wallet runtime_error

unfoldable pub get_or_create_wallet : Wallet → Tx Wallet
unfolding insert_wallet get_wallet_by_user_id
get_or_create_wallet fresh = do
  existing ← get_wallet_by_user_id fresh.user_id
  or_create_wallet fresh existing

abbrev pub same_type : TransactionType → TransactionType → Bool
same_type TransactionType.deposit TransactionType.deposit = true
same_type TransactionType.withdrawal TransactionType.withdrawal = true
same_type TransactionType.ln_send TransactionType.ln_send = true
same_type TransactionType.ln_receive TransactionType.ln_receive = true
same_type TransactionType.escrow_lock TransactionType.escrow_lock = true
same_type TransactionType.escrow_release TransactionType.escrow_release = true
same_type TransactionType.fee TransactionType.fee = true
same_type _ _ = false

abbrev pub is_pending : TransactionStatus → Bool
is_pending TransactionStatus.pending = true
is_pending TransactionStatus.confirmed = false
is_pending TransactionStatus.failed = false

abbrev pub is_confirmed : TransactionStatus → Bool
is_confirmed TransactionStatus.pending = false
is_confirmed TransactionStatus.confirmed = true
is_confirmed TransactionStatus.failed = false

-- `id` is the primary key, and a CHECK wants a positive amount.
unfoldable pub insert_transaction : Transaction → Tx Unit₀
insert_transaction row = do
  taken ← query (λ db. is_some (fetch_one (select_where (λ t. t.id == row.id) db.transactions)))
  raise_if (taken || row.amount_sat == 0) integrity_error
  modify (λ db. record db { transactions = db.transactions ++ row ∷ [] })

unfoldable pub create_transaction : Transaction → Tx Transaction
create_transaction row = do insert_transaction row; commit; pure row

-- `confirmed_at` is written only if it is given.
abbrev or_kept : Option ℕ → Option ℕ → Option ℕ
or_kept none old = old
or_kept (some at) old = some at

abbrev pub write_status : TransactionStatus → Option ℕ → Transaction → Transaction
write_status status confirmed_at t = record t {
  status = status;
  confirmed_at = or_kept confirmed_at t.confirmed_at;
}

abbrev update_transactions : (Transaction → Bool) → (Transaction → Transaction) → Db → Db
update_transactions p g db = record db { transactions = update_where p g db.transactions }

unfoldable pub update_transaction_status : ℕ → TransactionStatus → Option ℕ → Tx Unit₀
update_transaction_status transaction_id status confirmed_at = do
  modify (update_transactions (λ t. t.id == transaction_id) (write_status status confirmed_at))
  commit

abbrev pub has_text : Option Text → Text → Bool
has_text none k = false
has_text (some t) k = same_text t k

unfoldable pub update_transaction_status_by_txid :
    ℕ → Text → TransactionStatus → Option ℕ → Tx Unit₀
update_transaction_status_by_txid wallet_id txid status confirmed_at = do
  modify (
      update_transactions (λ t. t.wallet_id == wallet_id && has_text t.txid txid)
        (write_status status confirmed_at))
  commit

abbrev pub of_type : Option TransactionType → TransactionType → Bool
of_type none t = true
of_type (some k) t = same_type t k

unfoldable pub get_transaction_by_payment_hash :
    ℕ → Text → Option TransactionType → Tx (Option Transaction)
get_transaction_by_payment_hash wallet_id payment_hash tx_type = query (λ db. fetch_one (
    select_where
      (λ t.
        t.wallet_id == wallet_id
        && has_text t.ln_payment_hash payment_hash
        && of_type tx_type t.type_of)
      db.transactions))

abbrev pub awaits_payment : ℕ → Transaction → Bool
awaits_payment wallet_id t =
    t.wallet_id == wallet_id
    && same_type t.type_of TransactionType.ln_receive
    && is_pending t.status
    && is_some t.ln_payment_hash

unfoldable pub list_pending_lightning_receives : ℕ → Tx (List Transaction)
list_pending_lightning_receives wallet_id =
    query (λ db. select_where (awaits_payment wallet_id) db.transactions)

unfoldable pub list_pending_onchain_withdrawals : Tx (List Transaction)
list_pending_onchain_withdrawals = query (λ db.
    select_where
      (λ t. same_type t.type_of TransactionType.withdrawal && is_pending t.status && is_some t.txid)
      db.transactions)

abbrev pub affords : ℕ → ℕ → Wallet → Bool
affords wallet_id total_cost_sat w =
    is_wallet wallet_id w && leb total_cost_sat w.onchain_balance_sat

abbrev pub minus_onchain : ℕ → ℕ → Wallet → Wallet
minus_onchain now amount w = record w {
  onchain_balance_sat = w.onchain_balance_sat - amount;
  updated_at = now;
}

abbrev pub plus_onchain : ℕ → ℕ → Wallet → Wallet
plus_onchain now amount w = record w {
  onchain_balance_sat = w.onchain_balance_sat + amount;
  updated_at = now;
}

abbrev pub update_wallets : (Wallet → Bool) → (Wallet → Wallet) → Db → Db
update_wallets p g db = record db { wallets = update_where p g db.wallets }

unfoldable pub reserve_onchain_balance : ℕ → ℕ → ℕ → Tx Bool
reserve_onchain_balance now wallet_id total_cost_sat = do
  reserved ← query (λ db. is_some (
      fetch_one (
        map (minus_onchain now total_cost_sat)
          (select_where (affords wallet_id total_cost_sat) db.wallets))))
  modify (update_wallets (affords wallet_id total_cost_sat) (minus_onchain now total_cost_sat))
  (if reserved then commit else rollback)
  pure reserved

unfoldable pub release_onchain_balance : ℕ → ℕ → ℕ → Tx Unit₀
release_onchain_balance now wallet_id total_cost_sat = do
  modify (update_wallets (is_wallet wallet_id) (plus_onchain now total_cost_sat))
  commit

abbrev pub withdrawal_row : ℕ → ℕ → ℕ → ℕ → ℕ → Text → Transaction
withdrawal_row transaction_id now wallet_id amount_sat fee_sat txid = record {
  id = transaction_id;
  wallet_id = wallet_id;
  type_of = TransactionType.withdrawal;
  amount_sat = amount_sat;
  direction = Direction.outgoing;
  status = TransactionStatus.pending;
  txid = some txid;
  ln_payment_hash = none;
  fee_sat = some fee_sat;
  created_at = now;
  confirmed_at = none;
}

unfoldable pub create_onchain_withdrawal : ℕ → ℕ → ℕ → ℕ → ℕ → Text → Tx Transaction
unfolding create_transaction
create_onchain_withdrawal transaction_id now wallet_id amount_sat fee_sat txid =
    create_transaction (withdrawal_row transaction_id now wallet_id amount_sat fee_sat txid)

abbrev pub newer_transaction : Transaction → Transaction → Bool
newer_transaction a b =
    ltb b.created_at a.created_at || (a.created_at == b.created_at && ltb b.id a.id)

unfoldable pub list_wallet_transactions : ℕ → Tx (List Transaction)
list_wallet_transactions wallet_id = query (λ db.
    order_by newer_transaction (select_where (λ t. t.wallet_id == wallet_id) db.transactions))
