-- ===== src/Wallet/Reconcile.antt =====
-- The reconciliation of deposits with the Elements node (services/wallet/reconciliation.py). What the
-- node answers is an argument.
use tokenization.Common.{
  ℕ, Bool, true, false, not, ◌&&◌, ◌||◌, Option, none, some, List, [], ◌∷◌, ◌++◌, ltb, leb, ◌==◌,
  if◌then◌else◌, is_some,
}
use tokenization.Common.Table.{select_where, update_where, fetch_one}
use tokenization.Database.Rows.{
  Text, same_text, TransactionType, Direction, TransactionStatus, DepositStatus, Transaction,
  WalletAddress, Deposit,
}
use tokenization.Database.Model.{Db}
use tokenization.Database.Tx.{
  Tx, ◌>>=◌, ◌>>◌, pure, query, raise_if, modify, commit, rollback, integrity_error, Unit₀,
}
use tokenization.Wallet.Ledger.{is_wallet, plus_onchain, update_wallets, insert_transaction}
use tokenization.Wallet.Addresses.{list_imported_wallet_addresses}

pub data Network : Type 0 where
  mainnet testnet signet regtest : Network

unfoldable pub confirmation_threshold : Network → ℕ
confirmation_threshold Network.mainnet = 6
confirmation_threshold Network.testnet = 3
confirmation_threshold Network.signet = 3
confirmation_threshold Network.regtest = 1

-- An unspent output as the node lists it; `amount_sat` is its amount in satoshi (`_to_sats`).
pub record Unspent : Type 0 where
  pub address : Option Text
  pub txid : Option Text
  pub vout : Option ℕ
  pub confirmations : ℕ
  pub amount_sat : ℕ

-- The time and the identifiers that the handling of one output draws.
pub record Draw : Type 0 where
  pub now : ℕ
  pub deposit_id : ℕ
  pub transaction_id : ℕ

abbrev pub is_credited : DepositStatus → Bool
is_credited DepositStatus.pending = false
is_credited DepositStatus.confirmed = false
is_credited DepositStatus.credited = true

abbrev pub creditable : ℕ → Deposit → Bool
creditable deposit_id d = d.id == deposit_id && not (is_credited d.status)

abbrev pub mark_credited : ℕ → ℕ → Deposit → Deposit
mark_credited now confirmations d = record d {
  confirmations = confirmations;
  status = DepositStatus.credited;
  credited_at = some now;
}

abbrev pub update_deposits : (Deposit → Bool) → (Deposit → Deposit) → Db → Db
update_deposits p g db = record db { deposits = update_where p g db.deposits }

abbrev pub deposit_row : Draw → ℕ → Text → ℕ → Transaction
deposit_row d wallet_id txid amount_sat = record {
  id = d.transaction_id;
  wallet_id = wallet_id;
  type_of = TransactionType.deposit;
  amount_sat = amount_sat;
  direction = Direction.incoming;
  status = TransactionStatus.confirmed;
  txid = some txid;
  ln_payment_hash = none;
  fee_sat = none;
  created_at = d.now;
  confirmed_at = some d.now;
}

abbrev pub pay_out : Draw → ℕ → Text → ℕ → Tx Bool
pay_out d wallet_id txid amount_sat = do
  modify (update_wallets (is_wallet wallet_id) (plus_onchain d.now amount_sat))
  insert_transaction (deposit_row d wallet_id txid amount_sat)
  commit
  pure true

unfoldable pub credit_confirmed_deposit : Draw → ℕ → ℕ → Text → ℕ → ℕ → Tx Bool
unfolding insert_transaction
credit_confirmed_deposit d deposit_id wallet_id txid amount_sat confirmations = do
  found ← query (λ db. is_some (fetch_one (select_where (creditable deposit_id) db.deposits)))
  modify (update_deposits (creditable deposit_id) (mark_credited d.now confirmations))
  (if found then pay_out d wallet_id txid amount_sat else (rollback >> pure false))

abbrev pub is_output : Text → ℕ → Deposit → Bool
is_output txid vout d = same_text d.txid txid && d.vout == vout

abbrev pub new_deposit : Draw → WalletAddress → Text → ℕ → Unspent → Deposit
new_deposit d info txid vout u = record {
  id = d.deposit_id;
  wallet_id = info.wallet_id;
  wallet_address_id = info.id;
  txid = txid;
  vout = vout;
  amount_sat = u.amount_sat;
  confirmations = u.confirmations;
  status = DepositStatus.pending;
  credited_at = none;
  created_at = d.now;
}

-- The primary key, and UNIQUE (txid, vout).
abbrev pub conflicts : Deposit → Deposit → Bool
conflicts row d = d.id == row.id || is_output row.txid row.vout d

-- A CHECK wants a positive amount.
unfoldable pub insert_deposit : Deposit → Tx Unit₀
insert_deposit row = do
  taken ← query (λ db. is_some (fetch_one (select_where (conflicts row) db.deposits)))
  raise_if (taken || row.amount_sat == 0) integrity_error
  modify (λ db. record db { deposits = db.deposits ++ row ∷ [] })

abbrev pub add_deposit : Deposit → Tx Unit₀
add_deposit row = insert_deposit row >> commit

abbrev pub note_confirmations : ℕ → ℕ → Tx Unit₀
note_confirmations deposit_id confirmations = do
  modify
      (update_deposits (λ d. d.id == deposit_id) (λ d. record d { confirmations = confirmations }))
  commit

abbrev pub credit : Draw → ℕ → ℕ → Text → ℕ → ℕ → Tx Unit₀
credit d deposit_id wallet_id txid amount_sat confirmations =
    credit_confirmed_deposit d deposit_id wallet_id txid amount_sat confirmations >> pure tt

-- What is done about an output of one of the service's addresses, by its deposit row if it has one.
abbrev pub by_deposit : ℕ → Draw → WalletAddress → Text → ℕ → Unspent → Option Deposit → Tx Unit₀
by_deposit threshold d info txid vout u none = do
  add_deposit (new_deposit d info txid vout u)
  (if leb threshold u.confirmations
      then credit d d.deposit_id info.wallet_id txid u.amount_sat u.confirmations
      else pure tt)
by_deposit threshold d info txid vout u (some existing) =
    if ltb u.confirmations threshold || is_credited existing.status
    then note_confirmations existing.id u.confirmations
    else credit d existing.id existing.wallet_id txid existing.amount_sat u.confirmations

unfoldable pub reconcile_output : ℕ → Draw → WalletAddress → Text → ℕ → Unspent → Tx Unit₀
unfolding insert_deposit credit_confirmed_deposit
reconcile_output threshold d info txid vout u = do
  existing ← query (λ db. fetch_one (select_where (is_output txid vout) db.deposits))
  by_deposit threshold d info txid vout u existing

abbrev pub later_row : Option WalletAddress → Option WalletAddress → Option WalletAddress
later_row none earlier = earlier
later_row (some a) earlier = some a

-- `address_map.get(address)`: the dictionary keeps the last row of an address.
unfoldable pub address_info : List WalletAddress → Text → Option WalletAddress
address_info [] address = none
address_info (a ∷ rows) address =
    later_row (address_info rows address) (if same_text a.address address then some a else none)

abbrev pub of_address : ℕ → Draw → Text → ℕ → Unspent → Option WalletAddress → Tx Unit₀
of_address threshold d txid vout u none = pure tt
of_address threshold d txid vout u (some info) = reconcile_output threshold d info txid vout u

-- An output with no address, transaction or index, or with no amount, is passed over.
abbrev pub of_parts :
    ℕ → List WalletAddress → Draw → Unspent → Option Text → Option Text → Option ℕ → Tx Unit₀
of_parts threshold rows d u (some (c ∷ cs)) (some txid) (some vout) =
    if u.amount_sat == 0
    then pure tt
    else of_address threshold d txid vout u (address_info rows (c ∷ cs))
of_parts threshold rows d u _ _ _ = pure tt

unfoldable pub reconcile_unspent : ℕ → List WalletAddress → Draw → Unspent → Tx Unit₀
unfolding reconcile_output address_info
reconcile_unspent threshold rows d u = of_parts threshold rows d u u.address u.txid u.vout

unfoldable pub reconcile_unspents : ℕ → List WalletAddress → List (Draw × Unspent) → Tx Unit₀
unfolding reconcile_unspent
reconcile_unspents threshold rows [] = pure tt
reconcile_unspents threshold rows ((d, u) ∷ unspents) =
    reconcile_unspent threshold rows d u >> reconcile_unspents threshold rows unspents

abbrev pub list_and_reconcile :
    ℕ → (List WalletAddress → List (Draw × Unspent)) → List WalletAddress → Tx Unit₀
list_and_reconcile threshold listunspent [] = pure tt
list_and_reconcile threshold listunspent (a ∷ rows) =
    reconcile_unspents threshold (a ∷ rows) (listunspent (a ∷ rows))

-- `listunspent` is the node's answer for the addresses; if the node fails, nothing is done.
unfoldable pub reconcile_deposits : ℕ → (List WalletAddress → List (Draw × Unspent)) → Tx Unit₀
unfolding reconcile_unspents list_imported_wallet_addresses
reconcile_deposits threshold listunspent = do
  rows ← list_imported_wallet_addresses
  list_and_reconcile threshold listunspent rows
