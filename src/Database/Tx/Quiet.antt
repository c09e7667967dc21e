-- ===== src/Database/Tx/Quiet.antt =====
-- Operations that leave a connection with nothing uncommitted as it is.
use tokenization.Common.{◌≡◌, ◌∙◌, refl}
use tokenization.Database.Tx.{Conn, Tx, commit, rollback, connected}
use tokenization.Database.Tx.Moves.{Moves, IsPreorder, move_rules}

abbrev pub Quietly : Conn → Conn → Type 0
Quietly c d = c.current ≡ c.committed → d ≡ c

instance abbrev pub quietly : IsPreorder Quietly
quietly = record {
  stay = λ c clean. refl;
  join = λ c d e p q clean. q (rw (p clean) clean) ∙ p clean;
}

abbrev pub Quiet : {A : Type 0} → Tx A → Type 0
Quiet m = Moves Quietly m

pub Quiet-connected : {A : Type 0} (m : Tx A) → Quiet m → Quiet (connected m)
unfolding connected
Quiet-connected m h = record {
  at = λ c clean.
      let kept = h.at (record { committed = c.committed; current = c.committed }) refl in
      rw (kept, clean) refl;
}

pub Quiet-commit : Quiet commit
unfolding commit
Quiet-commit = record { at = λ c clean. rw clean refl }

pub Quiet-rollback : Quiet rollback
unfolding rollback
Quiet-rollback = record { at = λ c clean. rw clean refl }

pub ruleset quiet_rules = (move_rules, quietly, Quiet-connected, Quiet-commit, Quiet-rollback)
