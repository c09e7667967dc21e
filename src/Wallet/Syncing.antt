-- ===== src/Wallet/Syncing.antt =====
-- Refreshing withdrawals and Lightning invoices from the nodes (services/wallet/reconciliation.py). What a
-- node answers is an argument; no answer is an exception, which the services log and pass over.
pub mod Totals
pub mod Refreshed
pub mod Confirmed
mod Tests
use tokenization.Common.{
  ℕ, ◌-◌, ◌≡◌, refl, inl, inr, Bool, true, false, ◌||◌, not, Option, none, some, List, [], ◌∷◌, ltb,
  ◌==◌, if◌then◌else◌, All, Bool-cases,
}
use tokenization.Common.Table.{update_where}
use tokenization.Database.Rows.{Text, TransactionType, TransactionStatus, Transaction}
use tokenization.Database.Model.{Wallet, Db}
use tokenization.Database.Tx.{
  Result, ok, err, Conn, Tx, ◌>>=◌, ◌>>◌, pure, query, modify, commit, Unit₀,
}
use tokenization.Wallet.Ledger.{
  is_wallet, update_wallets, update_transaction_status, update_transaction_status_by_txid,
  list_pending_lightning_receives, list_pending_onchain_withdrawals,
}
use tokenization.Wallet.Lightning.{
  write_lightning, confirmed_sum, update_lightning_balance, recompute_lightning_balance,
}

-- `settle_date` is 0 for an invoice that is not settled, and else a time as the tables keep it.
pub record Invoice : Type 0 where
  pub state : ℕ
  pub settle_date : ℕ

abbrev pub by_invoice : ℕ → ℕ → Option Invoice → Tx Unit₀
by_invoice now transaction_id none = pure tt
by_invoice now transaction_id (some invoice) =
    if invoice.state == 1 || not (invoice.settle_date == 0)
    then update_transaction_status transaction_id TransactionStatus.confirmed
        (some (if invoice.settle_date == 0 then now else invoice.settle_date))
    else if invoice.state == 2
    then update_transaction_status transaction_id TransactionStatus.failed none
    else pure tt

-- A receive with no payment hash is passed over.
abbrev pub sync_receive : ℕ → (Text → Option Invoice) → ℕ → Option Text → Tx Unit₀
sync_receive now lookup_invoice transaction_id (some (c ∷ cs)) =
    by_invoice now transaction_id (lookup_invoice (c ∷ cs))
sync_receive now lookup_invoice transaction_id _ = pure tt

unfoldable pub sync_receives : ℕ → (Text → Option Invoice) → List Transaction → Tx Unit₀
unfolding update_transaction_status
sync_receives now lookup_invoice [] = pure tt
sync_receives now lookup_invoice (row ∷ rows) =
    sync_receive now lookup_invoice row.id row.ln_payment_hash
    >> sync_receives now lookup_invoice rows

unfoldable pub sync_wallet_lightning_state : ℕ → (Text → Option Invoice) → ℕ → Tx ℕ
unfolding sync_receives list_pending_lightning_receives recompute_lightning_balance
sync_wallet_lightning_state now lookup_invoice wallet_id = do
  rows ← list_pending_lightning_receives wallet_id
  sync_receives now lookup_invoice rows
  recompute_lightning_balance now wallet_id

-- `confirmations` is what the node answers for a transaction.
abbrev pub by_confirmations : ℕ → ℕ → ℕ → Text → Option ℕ → Tx Unit₀
by_confirmations threshold now wallet_id txid none = pure tt
by_confirmations threshold now wallet_id txid (some confirmations) =
    if ltb confirmations threshold
    then pure tt
    else update_transaction_status_by_txid wallet_id txid TransactionStatus.confirmed (some now)

abbrev pub reconcile_withdrawal : ℕ → ℕ → (Text → Option ℕ) → ℕ → Option Text → Tx Unit₀
reconcile_withdrawal threshold now gettransaction wallet_id (some (c ∷ cs)) =
    by_confirmations threshold now wallet_id (c ∷ cs) (gettransaction (c ∷ cs))
reconcile_withdrawal threshold now gettransaction wallet_id _ = pure tt

unfoldable pub reconcile_rows : ℕ → ℕ → (Text → Option ℕ) → List Transaction → Tx Unit₀
unfolding update_transaction_status_by_txid
reconcile_rows threshold now gettransaction [] = pure tt
reconcile_rows threshold now gettransaction (row ∷ rows) =
    reconcile_withdrawal threshold now gettransaction row.wallet_id row.txid
    >> reconcile_rows threshold now gettransaction rows

unfoldable pub reconcile_withdrawals : ℕ → ℕ → (Text → Option ℕ) → Tx Unit₀
unfolding reconcile_rows list_pending_onchain_withdrawals
reconcile_withdrawals threshold now gettransaction = do
  rows ← list_pending_onchain_withdrawals
  reconcile_rows threshold now gettransaction rows
