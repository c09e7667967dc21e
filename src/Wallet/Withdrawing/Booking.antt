-- ===== src/Wallet/Withdrawing/Booking.antt =====
-- The books once an amount is reserved, and once its withdrawal is recorded.
use tokenization.Common.{ℕ, ◌+◌, ◌≡◌, arith, true, [], ◌∷◌, ◌++◌}
use tokenization.Common.Table.{sum_by, sum_by-append}
use tokenization.Database.Rows.{Text}
use tokenization.Database.Model.{Db}
use tokenization.Wallet.Ledger.{withdrawal_row}
use tokenization.Wallet.Reservations.{HasKeys, share, reserved_db, is_reserved, onchain-reserved_db}
use tokenization.Wallet.Withdrawing.Settled.{paid_of, total}

module _ (now wallet_id amount_sat fee_sat cost : ℕ) (db : Db) (keys : HasKeys db) where
  abbrev pub taken_off : Db
  taken_off = reserved_db now wallet_id cost db keys

  abbrev pub recorded : ℕ → Text → Db
  recorded transaction_id txid = record taken_off {
    transactions =
        db.transactions ++ withdrawal_row transaction_id now wallet_id amount_sat fee_sat txid ∷ [];
  }

  module _ (found : is_reserved now wallet_id cost db keys ≡ true) where
    pub total-taken_off : (k : ℕ) → total k taken_off + share wallet_id cost k ≡ total k db
    total-taken_off k = omega (arith, onchain-reserved_db now wallet_id cost db keys found k)

    pub total-recorded :
        (transaction_id : ℕ) (txid : Text)
        → cost ≡ amount_sat + fee_sat
        → (k : ℕ) → total k (recorded transaction_id txid) ≡ total k db
    unfolding sum_by
    total-recorded transaction_id txid exact k =
        let more =
          sum_by-append (paid_of k) db.transactions
            (withdrawal_row transaction_id now wallet_id amount_sat fee_sat txid ∷ []) in
        rw more (ground (arith, total-taken_off k, exact))
