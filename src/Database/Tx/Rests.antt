-- ===== src/Database/Tx/Rests.antt =====
-- Rules for operations that start and return with nothing uncommitted; one that raises ends the request.
use tokenization.Common.{◌≡◌, refl, Bool, true, false, if◌then◌else◌}
use tokenization.Database.Model.{Db}
use tokenization.Database.Tx.{
  Failure, Result, ok, err, Conn, Tx, continue, ◌>>=◌, pure, raise, query,
}
use tokenization.Database.Tx.Rules.{Returned, Ensures}
use tokenization.Database.Tx.Atomic.{Reads, AllOrNothing, IsAtomic}

abbrev pub Rested : {A : Type 0} → (A → Db → Type 0) → Result A → Conn → Type 0
Rested Q (ok a) c = (c.current ≡ c.committed) × Q a c.current
Rested Q (err e) c = Unit

pub record Rests {A : Type 0} (P : Db → Type 0) (m : Tx A) (Q : A → Db → Type 0) : Type 0 where
  pub at : (c : Conn) → c.current ≡ c.committed → P c.current → Rested Q (m c).0 (m c).1

Rested-of :
    {A : Type 0} (Q : A → Db → Type 0) (r : Result A) (c c' : Conn)
    → AllOrNothing c r c'
    → Returned Q r c'
    → Rested Q r c'
Rested-of Q (ok a) c c' clean q = (clean, q)
Rested-of Q (err e) c c' same q = tt

module _ {A : Type 0} {P : Db → Type 0} {Q : A → Db → Type 0} where
  pub Rests-of : (m : Tx A) → IsAtomic m → Ensures P m Q → Rests P m Q
  Rests-of m atomic h = record {
    at = λ c clean p. Rested-of Q (m c).0 c (m c).1 (atomic.at c clean) (h.at c p);
  }

  pub Rests-pure : (a : A) → ((db : Db) → P db → Q a db) → Rests P (pure a) Q
  unfolding pure
  Rests-pure a h = record { at = λ c clean p. (clean, h c.current p) }

  pub Rests-raise : (e : Failure) → Rests P (raise e) Q
  unfolding raise
  Rests-raise e = record { at = λ c clean p. tt }

  pub Rests-query : (f : Db → A) → ((db : Db) → P db → Q (f db) db) → Rests P (query f) Q
  unfolding query
  Rests-query f h = record { at = λ c clean p. (clean, h c.current p) }

  pub Rests-if :
      (b : Bool) (m n : Tx A)
      → (b ≡ true → Rests P m Q)
      → (b ≡ false → Rests P n Q)
      → Rests P (if b then m else n) Q
  Rests-if true m n hm hn = hm refl
  Rests-if false m n hm hn = hn refl

module _ {A B : Type 0} (R : A → Db → Type 0) (Q : B → Db → Type 0) where
  continue-Rested :
      (r : Result A) (f : A → Tx B) (c : Conn)
      → ((a : A) → Rests (R a) (f a) Q)
      → Rested R r c
      → Rested Q (continue r f c).0 (continue r f c).1
  continue-Rested (ok a) f c h (clean, p) = (h a).at c clean p
  continue-Rested (err e) f c h p = tt

module _ {A B : Type 0} {P : Db → Type 0} {Q : B → Db → Type 0} where
  pub Rests-bind :
      (m : Tx A) (f : A → Tx B) (R : A → Db → Type 0)
      → Rests P m R
      → ((a : A) → Rests (R a) (f a) Q)
      → Rests P (m >>= f) Q
  unfolding ◌>>=◌
  Rests-bind m f R hm hf = record {
    at = λ c clean p. let (r, d) = m c in continue-Rested R Q r f d hf (hm.at c clean p);
  }

Rested-mono :
    {A : Type 0} (Q R : A → Db → Type 0) (r : Result A) (c : Conn)
    → ((a : A) (db : Db) → Q a db → R a db)
    → Rested Q r c
    → Rested R r c
Rested-mono Q R (ok a) c f (clean, q) = (clean, f a c.current q)
Rested-mono Q R (err e) c f q = tt

pub Rests-mono :
    {A : Type 0} {P : Db → Type 0} {Q R : A → Db → Type 0} (m : Tx A)
    → Rests P m Q
    → ((a : A) (db : Db) → Q a db → R a db)
    → Rests P m R
Rests-mono {Q} {R} m h f = record {
  at = λ c clean p. Rested-mono Q R (m c).0 (m c).1 f (h.at c clean p);
}

read-Rested :
    {A : Type 0} (P : Db → Type 0) (r : Result A) (c d : Conn)
    → d ≡ c
    → c.current ≡ c.committed
    → P c.current
    → Rested (λ _. P) r d
read-Rested P (ok a) c d e clean p = rw e (clean, p)
read-Rested P (err x) c d e clean p = tt

pub Rests-Reads : {A : Type 0} {P : Db → Type 0} (m : Tx A) → Reads m → Rests P m (λ _. P)
Rests-Reads {P} m h = record { at = λ c clean p. read-Rested P (m c).0 c (m c).1 (h.at c) clean p }
