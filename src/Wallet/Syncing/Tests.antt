-- ===== src/Wallet/Syncing/Tests.antt =====
-- Refreshing a wallet with one settled receive and one send.
use tokenization.Common.{◌≤◌, ◌==◌, arith, ℕ, List, Option, ◌≡◌, refl, none, some, [], ◌∷◌}
use tokenization.Common.Table.{count_where, select_where, update_where, sum_by}
use tokenization.Database.Rows.{TransactionType, Direction, TransactionStatus, Transaction}
use tokenization.Database.Model.{Db}
use tokenization.Database.Tx.{Conn, ok, ◌>>=◌, query, modify, commit, pure}
use tokenization.Market.Fixture.{buyer_wallet, matched}
use tokenization.Wallet.Ledger.{withdrawal_row, write_status}
use tokenization.Wallet.Syncing.Confirmed.{IsConfirming, reconcile_withdrawals-IsConfirming}
use tokenization.Wallet.Syncing.{reconcile_withdrawals, Invoice, sync_wallet_lightning_state}
use tokenization.Wallet.Syncing.Refreshed.{IsRefreshed, sync_wallet_lightning_state-IsRefreshed}

abbrev receive : Transaction
receive = record {
  id = 81;
  wallet_id = buyer_wallet.id;
  type_of = TransactionType.ln_receive;
  amount_sat = 70;
  direction = Direction.incoming;
  status = TransactionStatus.pending;
  txid = none;
  ln_payment_hash = some (1 ∷ []);
  fee_sat = none;
  created_at = 5;
  confirmed_at = none;
}

abbrev send : Transaction
send = record receive {
  id = 82;
  type_of = TransactionType.ln_send;
  amount_sat = 20;
  direction = Direction.outgoing;
  status = TransactionStatus.confirmed;
}

abbrev paid_books : Db
paid_books = record matched { transactions = receive ∷ send ∷ [] }

abbrev paid_conn : Conn
paid_conn = record { committed = paid_books; current = paid_books }

abbrev settled : List ℕ → Option Invoice
settled hash = some (record { state = 1; settle_date = 0 })

settled_receive : (sync_wallet_lightning_state 90 settled buyer_wallet.id paid_conn).0 ≡ ok 50
unfolding sync_wallet_lightning_state ◌>>=◌ query select_where modify commit pure sum_by
    update_where
settled_receive = refl

paid-keys : (k : ℕ) → count_where (λ t. t.id == k) paid_books.transactions ≤ 1
unfolding count_where
paid-keys k = ground arith

sync_wallet_lightning_state-IsRefreshed_example :
    IsRefreshed settled buyer_wallet.id paid_books.transactions
      (sync_wallet_lightning_state 90 settled buyer_wallet.id paid_conn).0
      (sync_wallet_lightning_state 90 settled buyer_wallet.id paid_conn).1
sync_wallet_lightning_state-IsRefreshed_example =
    sync_wallet_lightning_state-IsRefreshed 90 buyer_wallet.id settled paid_conn paid-keys

abbrev pending_withdrawal : Transaction
pending_withdrawal = withdrawal_row 83 6 buyer_wallet.id 30 1 (2 ∷ [])

abbrev sent_books : Db
sent_books = record matched { transactions = pending_withdrawal ∷ [] }

abbrev sent_conn : Conn
sent_conn = record { committed = sent_books; current = sent_books }

abbrev depth : List ℕ → Option ℕ
depth txid = some 4

reconcile_withdrawals-IsConfirming_example :
    IsConfirming 3 90 depth
      (pending_withdrawal ∷ [])
      (reconcile_withdrawals 3 90 depth sent_conn).0
      (reconcile_withdrawals 3 90 depth sent_conn).1
reconcile_withdrawals-IsConfirming_example = reconcile_withdrawals-IsConfirming 3 90 depth sent_conn

withdrawal_confirmed :
    (reconcile_withdrawals 3 90 depth sent_conn).1.committed.transactions
    ≡ write_status TransactionStatus.confirmed (some 90) pending_withdrawal ∷ []
unfolding reconcile_withdrawals ◌>>=◌ query select_where modify commit pure update_where
withdrawal_confirmed = refl
