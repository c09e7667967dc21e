-- ===== src/Auth/Sessions/Spent.antt =====
-- A refresh token that has been used, or whose session was revoked.
use tokenization.Common.{
  ℕ, ◌+◌, ◌≤◌, ◌≡◌, refl, inl, inr, arith, Bool, true, false, not, ◌&&◌, ◌==◌, Option, none, some,
  List, [], ◌∷◌, ◌++◌, is_some, Bool-cases,
}
use tokenization.Common.Table.{
  select_where, update_where, fetch_one, count_where, count_where-append, count_where-update_where,
}
use tokenization.Common.Sums.{count_of_fetch_false}
use tokenization.Database.Rows.{Text}
use tokenization.Database.Users.{RefreshSession}
use tokenization.Database.Model.{Db}
use tokenization.Database.Tx.{◌>>=◌, pure, query, raise_if, modify}
use tokenization.Database.Tx.Maintains.{Maintains, maintains, maintain_rules}
use tokenization.Auth.Sessions.{
  NewSession, Claims, has_jti, is_live, rotated, revoked, session_row, insert_session,
  update_sessions, get_user_by_id, get_user_by_email, create_refresh_session,
  rotate_refresh_session, replace_if, commit_if, revoke_refresh_session, claimed, rotate_for,
  refresh, logout, login,
}

abbrev pub is_usable : ℕ → RefreshSession → Bool
is_usable token_jti s = has_jti token_jti s && not (is_some s.revoked_at)

-- There is a session for the token, and none that is not revoked.
pub record Spent (token_jti : ℕ) (db : Db) : Type 0 where
  pub known : 1 ≤ count_where (has_jti token_jti) db.sessions
  pub closed : count_where (is_usable token_jti) db.sessions ≡ 0

module _ {A : Type 0} (p q : A → Bool) (g : A → A) where
  -- Rows that lose a property when they are updated.
  pub count_where-update_loss :
      (xs : List A)
      → ((x : A) → p x ≡ true → (q x ≡ true) × (q (g x) ≡ false))
      → count_where q (update_where p g xs) + count_where p xs ≡ count_where q xs
  unfolding count_where update_where
  count_where-update_loss [] h = refl
  count_where-update_loss (x ∷ xs) h = elim (Bool-cases (p x)) [
    | inl e ↦
        let (before, now) = h x e in
        rw (e, before, now) (omega (arith, count_where-update_loss xs h))
    | inr e ↦ rw e (omega (arith, count_where-update_loss xs h))
  ]

  -- An update that makes no row of a kind.
  pub count_where-update_fewer :
      (xs : List A)
      → ((x : A) → p x ≡ true → q (g x) ≡ false)
      → count_where q (update_where p g xs) ≤ count_where q xs
  unfolding count_where update_where
  count_where-update_fewer [] h = omega arith
  count_where-update_fewer (x ∷ xs) h = elim (Bool-cases (p x)) [
    | inl e ↦ rw (e, h x e) (omega (arith, count_where-update_fewer xs h))
    | inr e ↦ rw e (omega (arith, count_where-update_fewer xs h))
  ]

module _ (j : ℕ) where
  pub insert-Spent :
      (user_id : ℕ) (n : NewSession) (db : Db)
      → count_where (has_jti n.token_jti) db.sessions ≡ 0
      → Spent j db
      → Spent j (record db { sessions = db.sessions ++ session_row user_id n ∷ [] })
  unfolding count_where
  insert-Spent user_id n db free s = elim (Bool-cases (n.token_jti == j)) [
    | inl e ↦
        let same : n.token_jti ≡ j = ground arith in
        absurd (omega (arith, s.known, rw same at free))
    | inr e ↦ record {
      known =
          omega (
            arith,
            s.known,
            count_where-append (has_jti j) db.sessions (session_row user_id n ∷ []),
          );
      closed =
          rw (count_where-append (is_usable j) db.sessions (session_row user_id n ∷ []), e)
            (omega (arith, s.closed));
    }
  ]

  pub update-Spent :
      (p : RefreshSession → Bool) (g : RefreshSession → RefreshSession) (db : Db)
      → ((x : RefreshSession) → (g x).token_jti ≡ x.token_jti)
      → ((x : RefreshSession) → is_some (g x).revoked_at ≡ true)
      → Spent j db
      → Spent j (record db { sessions = update_where p g db.sessions })
  update-Spent p g db same closes s = record {
    known =
        rw (count_where-update_where (has_jti j) p g db.sessions (λ x. rw (same x) refl)) s.known;
    closed = omega (
      arith,
      s.closed,
      count_where-update_fewer p (is_usable j) g db.sessions (λ x e. rw (closes x) (ground arith)),
    );
  }

  insert_session-Maintains :
      (user_id : ℕ) (n : NewSession) → Maintains (Spent j) (insert_session user_id n)
  unfolding insert_session ◌>>=◌ query raise_if modify
  insert_session-Maintains user_id n = maintains _ (λ c h.
      elim (Bool-cases
        (is_some (fetch_one (select_where (has_jti n.token_jti) c.current.sessions)))) [
          | inl taken ↦ rw taken h
          | inr free ↦ rw free (
            h.0,
            insert-Spent user_id n c.current (count_of_fetch_false _ c.current.sessions free) h.1,
          )
        ])

  update_sessions-Maintains :
      (p : RefreshSession → Bool) (g : RefreshSession → RefreshSession)
      → ((x : RefreshSession) → (g x).token_jti ≡ x.token_jti)
      → ((x : RefreshSession) → is_some (g x).revoked_at ≡ true)
      → Maintains (Spent j) (update_sessions p g)
  unfolding update_sessions ◌>>=◌ query modify pure
  update_sessions-Maintains p g same closes =
      maintains _ (λ c h. (h.0, update-Spent p g c.current same closes h.1))

  replace_if-Maintains :
      (user_id : ℕ) (n : NewSession) (b : Bool) → Maintains (Spent j) (replace_if user_id n b)
  unfolding replace_if
  replace_if-Maintains user_id n false = search maintain_rules
  replace_if-Maintains user_id n true = search (maintain_rules, insert_session-Maintains)

  commit_if-Maintains : (b : Bool) → Maintains (Spent j) (commit_if b)
  commit_if-Maintains false = search maintain_rules
  commit_if-Maintains true = search maintain_rules

  rotate-Maintains :
      (user_id token_jti : ℕ) (n : NewSession)
      → Maintains (Spent j) (rotate_refresh_session user_id token_jti n)
  unfolding rotate_refresh_session
  rotate-Maintains user_id token_jti n =
      let updates =
        update_sessions-Maintains (is_live user_id token_jti n.now) (rotated n.now n.token_jti)
          (λ x. refl) (λ x. refl) in
      search (maintain_rules, updates, replace_if-Maintains)

  revoke-Maintains :
      (now user_id token_jti : ℕ)
      → Maintains (Spent j) (revoke_refresh_session now user_id token_jti)
  unfolding revoke_refresh_session
  revoke-Maintains now user_id token_jti =
      let updates =
        update_sessions-Maintains (is_live user_id token_jti now) (revoked now) (λ x. refl)
          (λ x. refl) in
      search (maintain_rules, updates, commit_if-Maintains)

  claimed-Maintains : (claims : Option Claims) → Maintains (Spent j) (claimed claims)
  unfolding claimed
  claimed-Maintains none = search maintain_rules
  claimed-Maintains (some c) = search maintain_rules

  pub refresh-Maintains :
      (claims : Option Claims) (n : NewSession) → Maintains (Spent j) (refresh claims n)
  unfolding refresh rotate_for get_user_by_id
  refresh-Maintains claims n = search (maintain_rules, claimed-Maintains, rotate-Maintains) depth 40

  pub logout-Maintains :
      (claims : Option Claims) (now : ℕ) → Maintains (Spent j) (logout claims now)
  unfolding logout
  logout-Maintains claims now =
      search (maintain_rules, claimed-Maintains, revoke-Maintains) depth 40

  pub login-Maintains :
      (checkpw : Text → Text → Bool) (dummy_hash email password : Text) (n : NewSession)
      → Maintains (Spent j) (login checkpw dummy_hash email password n)
  unfolding login get_user_by_email create_refresh_session
  login-Maintains checkpw dummy_hash email password n =
      search (maintain_rules, insert_session-Maintains) depth 40
