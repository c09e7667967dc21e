-- ===== src/Database/Tx/Maintains.antt =====
-- What every operation keeps, in the committed state and in the open transaction, whether it returns or raises.
use tokenization.Database.Model.{Db}
use tokenization.Database.Tx.{Conn, Tx, commit, rollback, connected}
use tokenization.Database.Tx.Moves.{Moves, IsPreorder, move_rules}

abbrev pub Holds : (Db → Type 0) → Conn → Type 0
Holds P c = P c.committed × P c.current

pub record Keeping (P : Db → Type 0) (c d : Conn) : Type 0 where
  pub keeps : Holds P c → Holds P d

instance abbrev pub keeping : {P : Db → Type 0} → IsPreorder (Keeping P)
keeping = record {
  stay = λ c. record { keeps = λ h. h };
  join = λ c d e p q. record { keeps = λ h. q.keeps (p.keeps h) };
}

abbrev pub Maintains : {A : Type 0} → (Db → Type 0) → Tx A → Type 0
Maintains P m = Moves (Keeping P) m

module _ {P : Db → Type 0} where
  pub maintains :
      {A : Type 0} (m : Tx A) → ((c : Conn) → Holds P c → Holds P (m c).1) → Maintains P m
  maintains m h = record { at = λ c. record { keeps = h c } }

  pub Maintains-connected : {A : Type 0} (m : Tx A) → Maintains P m → Maintains P (connected m)
  unfolding connected
  Maintains-connected m h = maintains _ (λ c k.
      let kept =
        ((h.at (record { committed = c.committed; current = c.committed })).keeps (k.0, k.0)).0 in
      (kept, kept))

  pub Maintains-commit : Maintains P commit
  unfolding commit
  Maintains-commit = maintains _ (λ c h. (h.1, h.1))

  pub Maintains-rollback : Maintains P rollback
  unfolding rollback
  Maintains-rollback = maintains _ (λ c h. (h.0, h.0))

pub ruleset maintain_rules =
    (move_rules, keeping, Maintains-connected, Maintains-commit, Maintains-rollback)
