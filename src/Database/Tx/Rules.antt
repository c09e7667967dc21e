-- ===== src/Database/Tx/Rules.antt =====
-- Partial correctness of operations: what holds of the open transaction when one returns.
use tokenization.Common.{
  ◌≡◌, refl, ◌⊎◌, inl, inr, Bool, true, false, Option, none, some, if◌then◌else◌,
}
use tokenization.Database.Model.{Db}
use tokenization.Database.Tx.{
  Failure, Result, ok, err, Conn, Tx, continue, ◌>>=◌, pure, raise, query, or_raise, attempt,
  rolled_back, raise_if, modify, commit, Unit₀,
}

pub Result-cases :
    {A : Type 0} (r : Result A) → ((a : A) × (r ≡ ok a)) ⊎ ((e : Failure) × (r ≡ err e))
Result-cases (ok a) = inl (a, refl)
Result-cases (err e) = inr (e, refl)

-- `Q` holds of what the operation returned.
abbrev pub Returned : {A : Type 0} → (A → Db → Type 0) → Result A → Conn → Type 0
Returned Q (ok a) c = Q a c.current
Returned Q (err e) c = Unit

-- From a transaction that meets `P`, the operation raises or establishes `Q`.
pub record Ensures {A : Type 0} (P : Db → Type 0) (m : Tx A) (Q : A → Db → Type 0) : Type 0 where
  pub at : (c : Conn) → P c.current → Returned Q (m c).0 (m c).1

rolled_back-Returned :
    {A : Type 0} (Q : A → Db → Type 0) (r : Result A) (c : Conn)
    → Returned Q r c
    → Returned Q (rolled_back r c).0 (rolled_back r c).1
rolled_back-Returned Q (ok a) c h = h
rolled_back-Returned Q (err e) c h = tt

continue-Returned :
    {A B : Type 0} (R : A → Db → Type 0) (Q : B → Db → Type 0) (r : Result A) (f : A → Tx B)
    (c : Conn)
    → ((a : A) → Ensures (R a) (f a) Q)
    → Returned R r c
    → Returned Q (continue r f c).0 (continue r f c).1
continue-Returned R Q (ok a) f c h p = (h a).at c p
continue-Returned R Q (err e) f c h p = tt

module _ {A : Type 0} {P : Db → Type 0} {Q : A → Db → Type 0} where
  pub Ensures-pure : (a : A) → ((db : Db) → P db → Q a db) → Ensures P (pure a) Q
  unfolding pure
  Ensures-pure a h = record { at = λ c p. h c.current p }

  pub Ensures-raise : (e : Failure) → Ensures P (raise e) Q
  unfolding raise
  Ensures-raise e = record { at = λ c p. tt }

  pub Ensures-query : (f : Db → A) → ((db : Db) → P db → Q (f db) db) → Ensures P (query f) Q
  unfolding query
  Ensures-query f h = record { at = λ c p. h c.current p }

  pub Ensures-or_raise :
      (o : Option A) (e : Failure)
      → ((a : A) → o ≡ some a → (db : Db) → P db → Q a db)
      → Ensures P (or_raise o e) Q
  unfolding or_raise
  Ensures-or_raise none e h = record { at = λ c p. tt }
  Ensures-or_raise (some a) e h = record { at = λ c p. h a refl c.current p }

  pub Ensures-attempt : (m : Tx A) → Ensures P m Q → Ensures P (attempt m) Q
  unfolding attempt
  Ensures-attempt m h = record {
    at = λ c p. let (r, c') = m c in rolled_back-Returned Q r c' (h.at c p);
  }

  pub Ensures-if :
      (b : Bool) (m n : Tx A)
      → (b ≡ true → Ensures P m Q)
      → (b ≡ false → Ensures P n Q)
      → Ensures P (if b then m else n) Q
  Ensures-if true m n hm hn = hm refl
  Ensures-if false m n hm hn = hn refl

module _ {A B : Type 0} {P : Db → Type 0} {Q : B → Db → Type 0} where
  -- The rule for a `do` block: the middle condition is written out.
  pub Ensures-bind :
      (m : Tx A) (f : A → Tx B) (R : A → Db → Type 0)
      → Ensures P m R
      → ((a : A) → Ensures (R a) (f a) Q)
      → Ensures P (m >>= f) Q
  unfolding ◌>>=◌
  Ensures-bind m f R hm hf = record {
    at = λ c p. let (r, c') = m c in continue-Returned R Q r f c' hf (hm.at c p);
  }

module _ {P : Db → Type 0} {Q : Unit₀ → Db → Type 0} where
  pub Ensures-modify : (f : Db → Db) → ((db : Db) → P db → Q tt (f db)) → Ensures P (modify f) Q
  unfolding modify
  Ensures-modify f h = record { at = λ c p. h c.current p }

  pub Ensures-commit : ((db : Db) → P db → Q tt db) → Ensures P commit Q
  unfolding commit
  Ensures-commit h = record { at = λ c p. h c.current p }

  pub Ensures-raise_if :
      (b : Bool) (e : Failure)
      → (b ≡ false → (db : Db) → P db → Q tt db)
      → Ensures P (raise_if b e) Q
  unfolding raise_if
  Ensures-raise_if true e h = record { at = λ c p. tt }
  Ensures-raise_if false e h = record { at = λ c p. h refl c.current p }
