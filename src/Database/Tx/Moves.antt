-- ===== src/Database/Tx/Moves.antt =====
-- How an operation moves a connection, whatever it returns or raises: rules for a relation that every step may
-- take and that steps compose.
use tokenization.Common.{Bool, true, false, Option, none, some, if◌then◌else◌}
use tokenization.Database.Model.{Db}
use tokenization.Database.Tx.{
  Failure, Result, ok, err, Conn, Tx, continue, ◌>>=◌, pure, raise, query, or_raise, raise_if,
  catch,
}

pub record Moves {A : Type 0} (R : Conn → Conn → Type 0) (m : Tx A) : Type 0 where
  pub at : (c : Conn) → R c (m c).1

pub record IsPreorder (R : Conn → Conn → Type 0) : Type 0 where
  pub stay : (c : Conn) → R c c
  pub join : (c d e : Conn) → R c d → R d e → R c e

module _ {R : Conn → Conn → Type 0} ⦃o : IsPreorder R⦄ where
  module _ {A : Type 0} where
    pub Moves-pure : (a : A) → Moves R (pure a)
    unfolding pure
    Moves-pure a = record { at = λ c. o.stay c }

    pub Moves-raise : (e : Failure) → Moves R (raise {A = A} e)
    unfolding raise
    Moves-raise e = record { at = λ c. o.stay c }

    pub Moves-query : (f : Db → A) → Moves R (query f)
    unfolding query
    Moves-query f = record { at = λ c. o.stay c }

    pub Moves-or_raise : (a : Option A) (e : Failure) → Moves R (or_raise a e)
    unfolding or_raise
    Moves-or_raise none e = record { at = λ c. o.stay c }
    Moves-or_raise (some a) e = record { at = λ c. o.stay c }

    pub Moves-catch : (m : Tx A) → Moves R m → Moves R (catch m)
    unfolding catch
    Moves-catch m h = record { at = h.at }

  pub Moves-raise_if : (b : Bool) (e : Failure) → Moves R (raise_if b e)
  unfolding raise_if
  Moves-raise_if b e = record { at = λ c. o.stay c }

  module _ {A B : Type 0} where
    continue-Moves :
        (r : Result A) (f : A → Tx B) (c d : Conn)
        → R c d
        → ((a : A) → Moves R (f a))
        → R c (continue r f d).1
    continue-Moves (ok a) f c d s h = o.join c d (f a d).1 s ((h a).at d)
    continue-Moves (err e) f c d s h = s

    pub Moves-bind :
        (m : Tx A) (f : A → Tx B) → Moves R m → ((a : A) → Moves R (f a)) → Moves R (m >>= f)
    unfolding ◌>>=◌
    Moves-bind m f hm hf = record {
      at = λ c. let (r, d) = m c in continue-Moves r f c d (hm.at c) hf;
    }

pub Moves-if :
    {A : Type 0} {R : Conn → Conn → Type 0} (b : Bool) (m n : Tx A)
    → Moves R m
    → Moves R n
    → Moves R (if b then m else n)
Moves-if true m n hm hn = hm
Moves-if false m n hm hn = hn

pub ruleset move_rules = (
  Moves-pure, Moves-raise, Moves-query, Moves-or_raise, Moves-if, Moves-catch, Moves-raise_if,
  Moves-bind,
)
