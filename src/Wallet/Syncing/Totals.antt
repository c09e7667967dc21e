-- ===== src/Wallet/Syncing/Totals.antt =====
-- What a wallet has received and sent over Lightning.
use tokenization.Common.{
  ℕ, ◌-◌, ◌≡◌, refl, inl, inr, ◌&&◌, List, [], ◌∷◌, ◌==◌, arith, Bool-cases, if◌then◌else◌,
}
use tokenization.Common.Table.{select_where, sum_by}
use tokenization.Database.Rows.{TransactionType, TransactionStatus, Transaction}
use tokenization.Database.Model.{Db}
use tokenization.Wallet.Ledger.{same_type, is_confirmed}
use tokenization.Wallet.Lightning.{confirmed_sum}

-- A confirmed receive counts with its amount, and nothing else does.
abbrev pub received : TransactionType → TransactionStatus → ℕ → ℕ
received TransactionType.ln_receive TransactionStatus.confirmed amount = amount
received _ _ amount = 0

-- A confirmed send counts with its amount, and nothing else does.
abbrev pub sent : TransactionType → TransactionStatus → ℕ → ℕ
sent TransactionType.ln_send TransactionStatus.confirmed amount = amount
sent _ _ amount = 0

-- What the amounts of a wallet's rows are together.
abbrev pub total : (TransactionType → TransactionStatus → ℕ → ℕ) → ℕ → List Transaction → ℕ
total amount_of wallet_id rows =
    sum_by (λ t. if t.wallet_id == wallet_id then amount_of t.type_of t.status t.amount_sat else 0)
      rows

-- What the confirmed receives of a wallet exceed its confirmed sends by, or 0.
abbrev pub lightning_difference : ℕ → Db → ℕ
lightning_difference wallet_id db =
    total received wallet_id db.transactions - total sent wallet_id db.transactions

confirmed_sum-total :
    (kind : TransactionType) (amount_of : TransactionType → TransactionStatus → ℕ → ℕ)
    → ((t : TransactionType) (s : TransactionStatus) (n : ℕ)
        → (if same_type t kind && is_confirmed s then n else 0) ≡ amount_of t s n)
    → (wallet_id : ℕ) (rows : List Transaction)
    → confirmed_sum wallet_id kind rows ≡ total amount_of wallet_id rows
unfolding confirmed_sum sum_by select_where
confirmed_sum-total kind amount_of same wallet_id [] = refl
confirmed_sum-total kind amount_of same wallet_id (x ∷ rows) =
    elim (Bool-cases (x.wallet_id == wallet_id)) [
      | inl e ↦ rw e (
          omega (
            arith,
            same x.type_of x.status x.amount_sat,
            confirmed_sum-total kind amount_of same wallet_id rows,
          ))
      | inr e ↦ rw e (omega (arith, confirmed_sum-total kind amount_of same wallet_id rows))
    ]

received_same :
    (t : TransactionType) (s : TransactionStatus) (n : ℕ)
    → (if same_type t TransactionType.ln_receive && is_confirmed s then n else 0) ≡ received t s n
received_same t s n = ground arith

sent_same :
    (t : TransactionType) (s : TransactionStatus) (n : ℕ)
    → (if same_type t TransactionType.ln_send && is_confirmed s then n else 0) ≡ sent t s n
sent_same t s n = ground arith

pub difference_same :
    (wallet_id : ℕ) (db : Db)
    → confirmed_sum wallet_id TransactionType.ln_receive db.transactions
        - confirmed_sum wallet_id TransactionType.ln_send db.transactions
      ≡ lightning_difference wallet_id db
difference_same wallet_id db =
    rw
      (
        confirmed_sum-total TransactionType.ln_receive received received_same wallet_id
            db.transactions,
        confirmed_sum-total TransactionType.ln_send sent sent_same wallet_id db.transactions,
      )
      refl
