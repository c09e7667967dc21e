-- ===== src/Wallet/Pegout.antt =====
-- Peg-outs to a Bitcoin address (services/wallet/main.py, pegout_to_mainchain). The request is that of a
-- withdrawal; its idempotency key is not read.
pub mod Paid
use tokenization.Common.{Bool, true, false, Option, none, some, if◌then◌else◌}
use tokenization.Database.Rows.{Text, TransactionStatus}
use tokenization.Database.Model.{Wallet}
use tokenization.Database.Tx.{Refusal, runtime_error}
use tokenization.Wallet.Ledger.{
  get_or_create_wallet, reserve_onchain_balance, release_onchain_balance, create_onchain_withdrawal,
}
use tokenization.Wallet.Service.{Receipt, Act, ◌>>=◌, ◌>>◌, pure, throw, refuse, on_conn}
use tokenization.Wallet.Withdrawing.{Backend, Withdrawal, check_two_factor, fresh_wallet}

-- `sent` is what the node answers to `sendtomainchain`: the transaction, unless it raises.
module _ (b : Backend) (q : Withdrawal) where
  abbrev pub pegout_receipt : Text → Receipt
  pegout_receipt txid = record {
    txid = txid;
    amount_sat = q.amount_sat;
    fee_sat = 0;
    status = TransactionStatus.pending;
  }

  abbrev pub after_pegout : Wallet → Option Text → Act Receipt
  after_pegout wallet none = do
    on_conn (release_onchain_balance q.now wallet.id q.amount_sat)
    refuse Refusal.pegout_failed
  after_pegout wallet (some txid) = do
    on_conn (create_onchain_withdrawal q.transaction_id q.now wallet.id q.amount_sat 0 txid)
    (if b.record_audit_event then pure tt else throw runtime_error)
    pure (pegout_receipt txid)

  abbrev pub pegout_if : Wallet → Option Text → Bool → Act Receipt
  pegout_if wallet sent false = refuse Refusal.insufficient_funds
  pegout_if wallet sent true = after_pegout wallet sent

  abbrev pub pegout_from : Wallet → Option Text → Act Receipt
  pegout_from wallet sent = do
    reserved ← on_conn (reserve_onchain_balance q.now wallet.id q.amount_sat)
    pegout_if wallet sent reserved

  unfoldable pub pegout_to_mainchain : Option Text → Act Receipt
  unfolding check_two_factor get_or_create_wallet reserve_onchain_balance release_onchain_balance
      create_onchain_withdrawal
  pegout_to_mainchain sent = do
    check_two_factor b q
    wallet ← on_conn (get_or_create_wallet (fresh_wallet b q))
    pegout_from wallet sent
