-- ===== src/Database/Tx/Returns.antt =====
-- What an operation that returned has gone through, part by part.
use tokenization.Common.{◌≡◌, refl}
use tokenization.Database.Tx.{Result, ok, err, Tx, Conn, continue, ◌>>=◌}

-- A part that returned, and what is left.
pub record Returns {A B : Type 0} (m : Tx A) (f : A → Tx B) (c : Conn) (b : B) : Type 0 where
  pub value : A
  pub got : (m c).0 ≡ ok value
  pub rest : (f value (m c).1).0 ≡ ok b
  pub whole : (m >>= f) c ≡ f value (m c).1

pub bind-Returns :
    {A B : Type 0} (m : Tx A) (f : A → Tx B) (c : Conn) (b : B)
    → ((m >>= f) c).0 ≡ ok b
    → Returns m f c b
unfolding ◌>>=◌
bind-Returns {A} {B} m f c b e = by_result (m c).0 refl e
  where
    by_result : (r : Result A) → (m c).0 ≡ r → (continue r f (m c).1).0 ≡ ok b → Returns m f c b
    by_result (ok a) got e = record { value = a; got = got; rest = e; whole = rw got refl }
    by_result (err x) got e = absurd (cc)
