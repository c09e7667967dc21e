-- ===== src/Wallet/Withdrawing/Settled.antt =====
-- What an answer to a withdrawal says of the books, and how steps that leave the books alone go before it.
use tokenization.Common.{ℕ, none, some, ◌+◌, ◌≤◌, ◌≡◌, refl, arith, ◌==◌, if◌then◌else◌, List, ◌&&◌}
use tokenization.Common.Table.{sum_by}
use tokenization.Database.Rows.{Transaction, TransactionType}
use tokenization.Database.Model.{Db}
use tokenization.Database.Tx.{
  Result, ok, err, contract_error, value_error, lookup_error, runtime_error, integrity_error,
}
use tokenization.Wallet.Ledger.{same_type}
use tokenization.Wallet.Books.{onchain}
use tokenization.Database.Tx.{at_rest}
use tokenization.Wallet.Reservations.{HasKeys}
use tokenization.Wallet.Service.{Act, Service, CachedResponse, CacheKey, proceed, ◌>>=◌}

-- A withdrawal's amount and fee.
abbrev fee_of : Transaction → ℕ
fee_of t = elim t.fee_sat [ none ↦ 0 | some fee ↦ fee ]

abbrev pub paid_of : ℕ → Transaction → ℕ
paid_of k t =
    if t.wallet_id == k && same_type t.type_of TransactionType.withdrawal
    then t.amount_sat + fee_of t
    else 0

-- What the wallet has paid out, as the history shows it.
abbrev pub paid : ℕ → Db → ℕ
paid k db = sum_by (paid_of k) db.transactions

abbrev pub total : ℕ → Db → ℕ
total k db = onchain k db + paid k db

-- A withdrawal that is answered takes from each balance what the history shows; one that is refused changes
-- neither; and one that fails in any other way gives nobody anything.
abbrev pub Settles : {A : Type 0} → Db → Result A → Db → Type 0
Settles before (ok a) after = (k : ℕ) → total k after ≡ total k before
Settles before (err (contract_error code)) after =
    (after.transactions ≡ before.transactions) × ((k : ℕ) → onchain k after ≡ onchain k before)
Settles before (err e) after = (k : ℕ) → total k after ≤ total k before

pub record Same (before after : Db) : Type 0 where
  pub history : after.transactions ≡ before.transactions
  pub balances : (k : ℕ) → onchain k after ≡ onchain k before

pub Same-refl : (db : Db) → Same db db
Same-refl db = record { history = refl; balances = λ k. refl }

pub Same-trans : (a b c : Db) → Same a b → Same b c → Same a c
Same-trans a b c x y = record {
  history = cc (x.history, y.history);
  balances = λ k. omega (arith, x.balances k, y.balances k);
}

pub Same-total : (a b : Db) → Same a b → (k : ℕ) → total k b ≡ total k a
Same-total a b h k = rw (h.history, h.balances k) refl

module _ {A : Type 0} where
  pub Settles-Same : (r : Result A) (a b c : Db) → Same a b → Settles b r c → Settles a r c
  Settles-Same (ok x) a b c h s = λ k. omega (arith, s k, Same-total a b h k)
  Settles-Same (err (contract_error code)) a b c h s =
      (cc (s.0, h.history), λ k. omega (arith, s.1 k, h.balances k))
  Settles-Same (err (value_error e)) a b c h s = λ k. omega (arith, s k, Same-total a b h k)
  Settles-Same (err (lookup_error e)) a b c h s = λ k. omega (arith, s k, Same-total a b h k)
  Settles-Same (err runtime_error) a b c h s = λ k. omega (arith, s k, Same-total a b h k)
  Settles-Same (err integrity_error) a b c h s = λ k. omega (arith, s k, Same-total a b h k)

  pub Settles-of : (r : Result A) (a b : Db) → Same a b → Settles a r b
  Settles-of (ok x) a b h = λ k. Same-total a b h k
  Settles-of (err (contract_error code)) a b h = (h.history, h.balances)
  Settles-of (err (value_error e)) a b h = λ k. omega (arith, Same-total a b h k)
  Settles-of (err (lookup_error e)) a b h = λ k. omega (arith, Same-total a b h k)
  Settles-of (err runtime_error) a b h = λ k. omega (arith, Same-total a b h k)
  Settles-of (err integrity_error) a b h = λ k. omega (arith, Same-total a b h k)

abbrev IsAtRest : {A : Type 0} → Result A → Service → Type 0
IsAtRest (ok a) s = s.conn.current ≡ s.conn.committed
IsAtRest (err e) s = Unit

-- A step that leaves the books alone.
pub record Quiet {A : Type 0} (db : Db) (r : Result A) (s : Service) : Type 0 where
  pub keys : HasKeys s.conn.committed
  pub same : Same db s.conn.committed
  pub rest : IsAtRest r s

-- The service with nothing uncommitted.
abbrev pub service : Db → List CachedResponse → List CacheKey → Service
service db cache inflight = record { conn = at_rest db; cache = cache; inflight = inflight }

abbrev pub IsQuiet : {A : Type 0} → Db → Act A → Service → Type 0
IsQuiet db m s = Quiet db (m s).0 (m s).1

abbrev pub Closes : {A : Type 0} → Db → Act A → Service → Type 0
Closes db m s = Settles db (m s).0 (m s).1.conn.committed

at_service :
    (s : Service)
    → s.conn.current ≡ s.conn.committed
    → service s.conn.committed s.cache s.inflight ≡ s
at_service s e = cc

module _ {A B : Type 0} (f : A → Act B) (db : Db) where
  Quiet-proceed :
      (r : Result A) (s : Service)
      → Quiet db r s
      → ((a : A) (db' : Db) (cache : List CachedResponse) (inflight : List CacheKey)
          → HasKeys db'
          → IsQuiet db' (f a) (service db' cache inflight))
      → Quiet db (proceed r f s).0 (proceed r f s).1
  Quiet-proceed (ok a) s q next =
      let h = next a s.conn.committed s.cache s.inflight q.keys in
      let n : IsQuiet s.conn.committed (f a) s = rw (at_service s q.rest) at h in
      record { keys = n.keys; same = Same-trans _ _ _ q.same n.same; rest = n.rest }
  Quiet-proceed (err e) s q next = record { keys = q.keys; same = q.same; rest = tt }

  Closes-proceed :
      (r : Result A) (s : Service)
      → Quiet db r s
      → ((a : A) (db' : Db) (cache : List CachedResponse) (inflight : List CacheKey)
          → HasKeys db'
          → Closes db' (f a) (service db' cache inflight))
      → Settles db (proceed r f s).0 (proceed r f s).1.conn.committed
  Closes-proceed (ok a) s q next =
      let h = next a s.conn.committed s.cache s.inflight q.keys in
      let n : Closes s.conn.committed (f a) s = rw (at_service s q.rest) at h in
      Settles-Same (f a s).0 _ _ _ q.same n
  Closes-proceed (err e) s q next = Settles-of {A = B} (err e) db s.conn.committed q.same

-- An action that leaves the books alone, from wherever it starts.
pub record Calm {A : Type 0} (m : Act A) : Type 0 where
  pub at :
      (db : Db) (cache : List CachedResponse) (inflight : List CacheKey)
      → HasKeys db
      → IsQuiet db m (service db cache inflight)

-- An action whose answer settles.
pub record Closing {A : Type 0} (m : Act A) : Type 0 where
  pub at :
      (db : Db) (cache : List CachedResponse) (inflight : List CacheKey)
      → HasKeys db
      → Closes db m (service db cache inflight)

module _ {A B : Type 0} where
  pub Calm-bind : (m : Act A) (f : A → Act B) → Calm m → ((a : A) → Calm (f a)) → Calm (m >>= f)
  unfolding ◌>>=◌
  Calm-bind m f x next = record {
    at = λ db c i k. Quiet-proceed f db _ _ (x.at db c i k) (λ a. (next a).at);
  }

  pub Closing-bind :
      (m : Act A) (f : A → Act B) → Calm m → ((a : A) → Closing (f a)) → Closing (m >>= f)
  unfolding ◌>>=◌
  Closing-bind m f x next = record {
    at = λ db c i k. Closes-proceed f db _ _ (x.at db c i k) (λ a. (next a).at);
  }

pub Closing-of_Calm : {A : Type 0} (m : Act A) → Calm m → Closing m
Closing-of_Calm m x = record { at = λ db c i k. let y = x.at db c i k in Settles-of _ db _ y.same }
