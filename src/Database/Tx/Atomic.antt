-- ===== src/Database/Tx/Atomic.antt =====
-- Rules for atomicity: an operation that raises leaves nothing behind, and one that returns leaves
-- nothing uncommitted.
use tokenization.Common.{◌≡◌, ◌∙◌, refl}
use tokenization.Database.Model.{Db}
use tokenization.Database.Tx.{
  Result, ok, err, Conn, Tx, continue, ◌>>=◌, pure, attempt, rolled_back, modify, commit, Unit₀,
}
use tokenization.Database.Tx.Moves.{Moves, IsPreorder, move_rules}

-- Nothing is committed on the way.
abbrev pub SameCommitted : Conn → Conn → Type 0
SameCommitted c d = d.committed ≡ c.committed

instance abbrev pub same_committed : IsPreorder SameCommitted
same_committed = record { stay = λ c. refl; join = λ c d e p q. q ∙ p }

abbrev pub Pending : {A : Type 0} → Tx A → Type 0
Pending m = Moves SameCommitted m

-- Nothing changes at all.
abbrev pub Same : Conn → Conn → Type 0
Same c d = d ≡ c

instance abbrev pub same_conn : IsPreorder Same
same_conn = record { stay = λ c. refl; join = λ c d e p q. q ∙ p }

abbrev pub Reads : {A : Type 0} → Tx A → Type 0
Reads m = Moves Same m

-- Committed if it returned, and not if it raised.
abbrev Ends : {A : Type 0} → Conn → Result A → Conn → Type 0
Ends c (ok a) c' = c'.current ≡ c'.committed
Ends c (err e) c' = c'.committed ≡ c.committed

pub record CommitsLast {A : Type 0} (m : Tx A) : Type 0 where
  pub at : (c : Conn) → Ends c (m c).0 (m c).1

-- The outcome of an atomic operation that began with nothing uncommitted.
abbrev pub AllOrNothing : {A : Type 0} → Conn → Result A → Conn → Type 0
AllOrNothing c (ok a) c' = c'.current ≡ c'.committed
AllOrNothing c (err e) c' = c' ≡ c

pub record IsAtomic {A : Type 0} (m : Tx A) : Type 0 where
  pub at : (c : Conn) → c.current ≡ c.committed → AllOrNothing c (m c).0 (m c).1

module _ {A : Type 0} where
  pub CommitsLast-commit : (a : A) → CommitsLast (commit >>= λ _. pure a)
  unfolding commit pure ◌>>=◌
  CommitsLast-commit a = record { at = λ c. refl }

  rolled_back-AllOrNothing :
      (r : Result A) (c c' : Conn)
      → c.current ≡ c.committed
      → Ends c r c'
      → AllOrNothing c (rolled_back r c').0 (rolled_back r c').1
  rolled_back-AllOrNothing (ok a) c c' clean h = h
  rolled_back-AllOrNothing (err e) c c' clean h = cc

  pub IsAtomic-attempt : (m : Tx A) → CommitsLast m → IsAtomic (attempt m)
  unfolding attempt
  IsAtomic-attempt m h = record {
    at = λ c clean. let (r, c') = m c in rolled_back-AllOrNothing r c c' clean (h.at c);
  }

Ends-from :
    {B : Type 0} (c c' : Conn) (r : Result B) (d : Conn)
    → c'.committed ≡ c.committed
    → Ends c' r d
    → Ends c r d
Ends-from c c' (ok b) d e h = h
Ends-from c c' (err x) d e h = cc

module _ {A B : Type 0} where
  continue-Ends :
      (r : Result A) (f : A → Tx B) (c c' : Conn)
      → c'.committed ≡ c.committed
      → ((a : A) → CommitsLast (f a))
      → Ends c (continue r f c').0 (continue r f c').1
  continue-Ends (ok a) f c c' e h = let (r, d) = f a c' in Ends-from c c' r d e ((h a).at c')
  continue-Ends (err x) f c c' e h = e

  pub CommitsLast-bind :
      (m : Tx A) (f : A → Tx B) → Pending m → ((a : A) → CommitsLast (f a)) → CommitsLast (m >>= f)
  unfolding ◌>>=◌
  CommitsLast-bind m f hm hf = record {
    at = λ c. let (r, c') = m c in continue-Ends r f c c' (hm.at c) hf;
  }

  continue-AllOrNothing :
      (r : Result A) (f : A → Tx B) (c c' : Conn)
      → c.current ≡ c.committed
      → c' ≡ c
      → ((a : A) → IsAtomic (f a))
      → AllOrNothing c (continue r f c').0 (continue r f c').1
  continue-AllOrNothing (ok a) f c c' clean e h = rw e ((h a).at c clean)
  continue-AllOrNothing (err x) f c c' clean e h = e

  pub IsAtomic-bind :
      (m : Tx A) (f : A → Tx B) → Reads m → ((a : A) → IsAtomic (f a)) → IsAtomic (m >>= f)
  unfolding ◌>>=◌
  IsAtomic-bind m f hm hf = record {
    at = λ c clean. let (r, c') = m c in continue-AllOrNothing r f c c' clean (hm.at c) hf;
  }

pub Pending-modify : (f : Db → Db) → Pending (modify f)
unfolding modify
Pending-modify f = record { at = λ c. refl }

pub ruleset pending_rules = (move_rules, same_committed, Pending-modify)

pub ruleset read_rules = (move_rules, same_conn)

pub ruleset atomic_rules = (CommitsLast-commit, CommitsLast-bind, IsAtomic-attempt, IsAtomic-bind)

continue-pure-AllOrNothing :
    {A : Type 0} (r : Result A) (c c' : Conn)
    → AllOrNothing c r c'
    → AllOrNothing c
        (continue r (λ _. pure {A = Unit₀} tt) c').0
        (continue r (λ _. pure {A = Unit₀} tt) c').1
unfolding pure
continue-pure-AllOrNothing (ok a) c c' h = h
continue-pure-AllOrNothing (err e) c c' h = h

pub IsAtomic-then : {A : Type 0} (m : Tx A) → IsAtomic m → IsAtomic (m >>= λ _. pure {A = Unit₀} tt)
unfolding ◌>>=◌
IsAtomic-then m h = record {
  at = λ c clean. let (r, c') = m c in continue-pure-AllOrNothing r c c' (h.at c clean);
}
