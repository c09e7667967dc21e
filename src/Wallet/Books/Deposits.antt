-- ===== src/Wallet/Books/Deposits.antt =====
-- The books under the writes of the reconciliation.
use tokenization.Common.{
  ℕ, ◌≤◌, ◌≡◌, refl, inl, inr, Bool, true, false, ◌||◌, [], ◌∷◌, ◌++◌, arith, ◌==◌, if◌then◌else◌,
  Bool-cases, is_some,
}
use tokenization.Common.Table.{count_where, count_where_mono, select_where, fetch_one}
use tokenization.Common.Sums.{count_of_fetch_some, count_of_fetch_false}
use tokenization.Database.Rows.{DepositStatus, Text, Deposit}
use tokenization.Database.Model.{Db}
use tokenization.Database.Tx.{
  Result, ok, err, Conn, Tx, continue, ◌>>=◌, ◌>>◌, pure, query, raise_if, modify, commit, rollback,
  Unit₀,
}
use tokenization.Wallet.Ledger.{is_wallet, insert_transaction}
use tokenization.Wallet.Reconcile.{
  Draw, update_deposits, creditable, mark_credited, pay_out, credit_confirmed_deposit, is_output,
  insert_deposit, conflicts, add_deposit, note_confirmations, credit,
}
use tokenization.Database.Tx.{at_rest}
use tokenization.Wallet.Books.{SameBooks, has_deposit_id, IsFiled}
use tokenization.Wallet.Books.Steps.{
  SameBooks_refl, SameBooks_trans, update_deposits-IsFiled, note-SameBooks, add_deposit-SameBooks,
  IsDeposit, credit-IsFiled, credit-SameBooks,
}

-- An operation that returns leaves nothing uncommitted.
abbrev IsAtRest : {A : Type 0} → Result A → Conn → Type 0
IsAtRest (ok a) c = c.current ≡ c.committed
IsAtRest (err e) c = Unit

-- What is committed keeps the keys and the books, whether the operation returned or raised.
pub record Keeps {A : Type 0} (db : Db) (r : Result A) (c : Conn) : Type 0 where
  pub filed : IsFiled c.committed
  pub books : SameBooks db c.committed
  pub rest : IsAtRest r c

abbrev pub RunKeeps : {A : Type 0} → Db → Tx A → Type 0
RunKeeps db m = Keeps db (m (at_rest db)).0 (m (at_rest db)).1

from_rest :
    {B : Type 0} (m : Tx B) (db : Db) (c : Conn)
    → c.current ≡ c.committed
    → SameBooks db c.committed
    → RunKeeps c.committed m
    → Keeps db (m c).0 (m c).1
from_rest m db c clean books k =
    let same : at_rest c.committed ≡ c = cc in
    let k' : Keeps c.committed (m c).0 (m c).1 = rw (← same) k in
    record { filed = k'.filed; books = SameBooks_trans _ _ _ books k'.books; rest = k'.rest }

module _ {A B : Type 0} where
  continue-Keeps :
      (r : Result A) (f : A → Tx B) (db : Db) (c : Conn)
      → Keeps db r c
      → ((a : A) → IsFiled c.committed → SameBooks db c.committed → RunKeeps c.committed (f a))
      → Keeps db (continue r f c).0 (continue r f c).1
  continue-Keeps (ok a) f db c k h = from_rest (f a) db c k.rest k.books (h a k.filed k.books)
  continue-Keeps (err e) f db c k h = record { filed = k.filed; books = k.books; rest = tt }

  pub bind-Keeps :
      (m : Tx A) (f : A → Tx B) (db : Db)
      → RunKeeps db m
      → ((a : A) (db' : Db) → IsFiled db' → SameBooks db db' → RunKeeps db' (f a))
      → RunKeeps db (m >>= f)
  unfolding ◌>>=◌
  bind-Keeps m f db k h =
      let (r, c) = m (at_rest db) in continue-Keeps r f db c k (λ a. h a c.committed)

pub pure-Keeps : {A : Type 0} (a : A) (db : Db) → IsFiled db → RunKeeps db (pure a)
unfolding pure
pure-Keeps a db filed = record { filed = filed; books = SameBooks_refl db; rest = refl }

pub if-Keeps :
    {A : Type 0} (b : Bool) (m n : Tx A) (db : Db)
    → (b ≡ true → RunKeeps db m)
    → (b ≡ false → RunKeeps db n)
    → RunKeeps db (if b then m else n)
if-Keeps true m n db x y = x refl
if-Keeps false m n db x y = y refl

module _ (d : Draw) (i w : ℕ) (txid : Text) (amount n : ℕ) (db : Db) (filed : IsFiled db)
    (known : IsDeposit i w amount db) (own : 1 ≤ count_where (is_wallet w) db.wallets) where
  pay_out-Keeps :
      1 ≤ count_where (creditable i) db.deposits
      → let c' = pay_out d w txid amount (record {
        committed = db;
        current = update_deposits (creditable i) (mark_credited d.now n) db;
      }) in
        Keeps db c'.0 c'.1
  unfolding insert_transaction ◌>>=◌ query modify raise_if commit pure
  pay_out-Keeps open_row =
      elim (Bool-cases (
        is_some (fetch_one (select_where (λ t. t.id == d.transaction_id) db.transactions))
        || amount == 0)) [
          | inl e ↦ rw e (record { filed = filed; books = SameBooks_refl db; rest = tt })
          | inr e ↦ rw e (record {
            filed = credit-IsFiled d i w txid amount n db filed known own open_row;
            books = credit-SameBooks d i w txid amount n db filed known own open_row;
            rest = refl;
          })
        ]

  credit_confirmed_deposit-Keeps : RunKeeps db (credit_confirmed_deposit d i w txid amount n)
  unfolding credit_confirmed_deposit ◌>>=◌ query modify rollback pure
  credit_confirmed_deposit-Keeps =
      elim (Bool-cases (is_some (fetch_one (select_where (creditable i) db.deposits)))) [
        | inl e ↦ rw e (pay_out-Keeps (count_of_fetch_some (creditable i) db.deposits e))
        | inr e ↦ rw e (record { filed = filed; books = SameBooks_refl db; rest = refl })
      ]

  pub credit-Keeps : RunKeeps db (credit d i w txid amount n)
  credit-Keeps =
      bind-Keeps (credit_confirmed_deposit d i w txid amount n) _ db credit_confirmed_deposit-Keeps
        (λ b db' filed' books. pure-Keeps tt db' filed')

pub note_confirmations-Keeps :
    (i n : ℕ) (db : Db) → IsFiled db → RunKeeps db (note_confirmations i n)
unfolding ◌>>=◌ modify commit
note_confirmations-Keeps i n db filed = record {
  filed =
      update_deposits-IsFiled db filed (λ d. d.id == i) (λ d. record d { confirmations = n })
        (λ d. refl) (λ d. refl) (λ d. refl) (λ d. refl);
  books = note-SameBooks db filed i n;
  rest = refl;
}

-- What follows the insertion of a deposit may use that the row's identifier and output are new.
pub add_deposit-then-Keeps :
    (row : Deposit) (k : Tx Unit₀) (db : Db)
    → IsFiled db
    → row.status ≡ DepositStatus.pending
    → 1 ≤ count_where (is_wallet row.wallet_id) db.wallets
    → (count_where (has_deposit_id row.id) db.deposits ≡ 0
        → count_where (is_output row.txid row.vout) db.deposits ≡ 0
        → RunKeeps (record db { deposits = db.deposits ++ row ∷ [] }) k)
    → RunKeeps db (add_deposit row >> k)
unfolding insert_deposit ◌>>=◌ query modify raise_if commit
add_deposit-then-Keeps row k db filed st own next =
    elim (Bool-cases
      (is_some (fetch_one (select_where (conflicts row) db.deposits)) || row.amount_sat == 0)) [
        | inl e ↦ rw e (record { filed = filed; books = SameBooks_refl db; rest = tt })
        | inr e ↦
            let free = count_of_fetch_false (conflicts row) db.deposits (ground arith) in
            let new_id : count_where (has_deposit_id row.id) db.deposits ≡ 0 = omega (
              arith,
              free,
              count_where_mono (has_deposit_id row.id) (conflicts row) db.deposits
                  (λ d h. ground arith),
            ) in
            let new_output : count_where (is_output row.txid row.vout) db.deposits ≡ 0 = omega (
              arith,
              free,
              count_where_mono (is_output row.txid row.vout) (conflicts row) db.deposits
                  (λ d h. ground arith),
            ) in
            rw e (
              from_rest k db (at_rest (record db { deposits = db.deposits ++ row ∷ [] })) refl
                (add_deposit-SameBooks db filed row st) (next new_id new_output))
      ]
