-- ===== src/Wallet/History/Tests.antt =====
-- Paging a history of two deposits and a withdrawal, one by one.
use tokenization.Common.{ℕ, suc, ◌≤◌, arith, ◌==◌, none, some, [], ◌∷◌, List, length}
use tokenization.Common.Table.{count_where}
use tokenization.Common.Pages.{walk}
use tokenization.Database.Rows.{Transaction, TransactionType}
use tokenization.Wallet.Ledger.{withdrawal_row}
use tokenization.Wallet.Reconcile.{Draw, deposit_row}
use tokenization.Market.Paging.{answered}
use tokenization.Wallet.History.{IsHistory, build_transaction_page, build_transaction_page-walk}

abbrev draw : ℕ → Draw
draw n = record { now = n; deposit_id = n; transaction_id = n }

abbrev history : List Transaction
history =
    deposit_row (draw 5) 60 (1 ∷ []) 40
    ∷ withdrawal_row 6 6 60 30 1 (2 ∷ [])
    ∷ deposit_row (draw 7) 60 (3 ∷ []) 20
    ∷ []

history-keys : (k : ℕ) → count_where (λ t. t.id == k) history ≤ 1
unfolding count_where
history-keys k = ground arith

build_transaction_page-walk_example : IsHistory history (some TransactionType.deposit) (
    walk
      (suc (length history))
      (λ cursor. answered (build_transaction_page history cursor 1 (some TransactionType.deposit)))
      none)
build_transaction_page-walk_example =
    build_transaction_page-walk history 1 (some TransactionType.deposit) history-keys (omega arith)
