-- ===== src/Auth/Sessions/SingleUse.antt =====
-- A refresh token is used once.
use tokenization.Common.{
  ℕ, ◌≤◌, ◌≡◌, refl, inl, inr, arith, Bool, true, false, Option, some, List, [], ◌∷◌, is_some, map,
  Bool-cases, Option-cases,
}
use tokenization.Common.Table.{
  select_where, update_where, fetch_one, count_where, count_where_mono, count_where-update_where,
}
use tokenization.Common.Sums.{count_of_fetch_false, count_of_fetch_map}
use tokenization.Database.Rows.{Text}
use tokenization.Database.Users.{RefreshSession}
use tokenization.Database.Model.{Db}
use tokenization.Database.Tx.{
  ok, err, ◌>>=◌, pure, raise, query, raise_if, or_raise, modify, commit, rollback, connected,
  at_rest, contract_error, Refusal,
}
use tokenization.Auth.Sessions.{
  NewSession, Claims, has_jti, is_live, is_user, rotated, revoked, insert_session, update_sessions,
  get_user_by_id, rotate_refresh_session, replace_if, revoke_refresh_session, claimed, rotate_for,
  refresh, logout, login,
}
use tokenization.Auth.Sessions.Spent.{
  Spent, is_usable, count_where-update_loss, insert-Spent, refresh-Maintains, logout-Maintains,
  login-Maintains,
}

-- What a client can ask of the sessions.
pub data Request : Type 0 where
  refreshes : Option Claims → NewSession → Request
  logs_out : Option Claims → (now : ℕ) → Request
  logs_in : (checkpw : Text → Text → Bool) (dummy_hash email password : Text) → NewSession → Request

-- The database after the requests, each on connections of its own.
abbrev pub serve : List Request → Db → Db
serve [] db = db
serve (Request.refreshes c n ∷ rest) db = serve rest (refresh c n (at_rest db)).1.committed
serve (Request.logs_out c now ∷ rest) db = serve rest (logout c now (at_rest db)).1.committed
serve (Request.logs_in f d e p n ∷ rest) db = serve rest (login f d e p n (at_rest db)).1.committed

serve-Spent : (j : ℕ) (requests : List Request) (db : Db) → Spent j db → Spent j (serve requests db)
serve-Spent j [] db s = s
serve-Spent j (Request.refreshes c n ∷ rest) db s =
    serve-Spent j rest _ (((refresh-Maintains j c n).at (at_rest db)).keeps (s, s)).0
serve-Spent j (Request.logs_out c now ∷ rest) db s =
    serve-Spent j rest _ (((logout-Maintains j c now).at (at_rest db)).keeps (s, s)).0
serve-Spent j (Request.logs_in f d e p n ∷ rest) db s =
    serve-Spent j rest _ (((login-Maintains j f d e p n).at (at_rest db)).keeps (s, s)).0

abbrev pub claims_of : ℕ → ℕ → Option Claims
claims_of user_id token_jti = some (record { sub = some user_id; jti = some token_jti })

-- A spent token selects no session.
none_live :
    (j user_id now : ℕ) (g : RefreshSession → RefreshSession) (db : Db)
    → Spent j db
    → is_some (fetch_one (map g (select_where (is_live user_id j now) db.sessions))) ≡ false
none_live j user_id now g db s =
    elim (Bool-cases
      (is_some (fetch_one (map g (select_where (is_live user_id j now) db.sessions))))) [
        | inr nothing ↦ nothing
        | inl found ↦ absurd (
            omega (
              arith,
              s.closed,
              count_of_fetch_map (is_live user_id j now) g db.sessions found,
              count_where_mono (is_live user_id j now) (is_usable j) db.sessions
                  (λ x e. ground arith),
            ))
      ]

refresh_refused :
    (j user_id : ℕ) (n : NewSession) (db : Db)
    → Spent j db
    → refresh (claims_of user_id j) n (at_rest db)
      ≡ (err (contract_error Refusal.invalid_refresh_token), at_rest db)
unfolding refresh claimed rotate_for get_user_by_id rotate_refresh_session update_sessions
    replace_if connected ◌>>=◌ query or_raise raise_if raise modify rollback pure
refresh_refused j user_id n db s =
    let dead = none_live j user_id n.now (rotated n.now n.token_jti) db s in
    elim (Option-cases (fetch_one (select_where (is_user user_id) db.users))) [
      | inl nobody ↦ rw nobody refl
      | inr (u, found) ↦ elim (Bool-cases (is_some u.deleted_at)) [
        | inl gone ↦ rw (found, gone) refl
        | inr there ↦ rw (found, there, dead) refl
      ]
    ]

logout_refused :
    (j user_id now : ℕ) (db : Db)
    → Spent j db
    → logout (claims_of user_id j) now (at_rest db)
      ≡ (err (contract_error Refusal.invalid_refresh_token), at_rest db)
unfolding logout claimed revoke_refresh_session update_sessions connected ◌>>=◌ query or_raise
    raise_if raise modify rollback pure
logout_refused j user_id now db s = rw (none_live j user_id now (revoked now) db s) refl

-- A rotation that finds a session spends its token.
module _ (j user_id : ℕ) (n : NewSession) (db : Db)
    (one : count_where (has_jti j) db.sessions ≤ 1) where
  abbrev closed_db : Db
  closed_db = record db {
    sessions = update_where (is_live user_id j n.now) (rotated n.now n.token_jti) db.sessions;
  }

  closed-Spent :
      is_some (
          fetch_one
            (map (rotated n.now n.token_jti) (select_where (is_live user_id j n.now) db.sessions)))
        ≡ true
      → Spent j closed_db
  closed-Spent found =
      let live =
        count_of_fetch_map (is_live user_id j n.now) (rotated n.now n.token_jti) db.sessions
          found in
      let within =
        count_where_mono (is_live user_id j n.now) (has_jti j) db.sessions (λ x e. ground arith) in
      record {
        known =
            rw
              (count_where-update_where (has_jti j) (is_live user_id j n.now)
                (rotated n.now n.token_jti) db.sessions (λ x. refl))
              (omega (arith, live, within));
        closed = omega (
          arith,
          one,
          live,
          count_where-update_loss (is_live user_id j n.now) (is_usable j)
              (rotated n.now n.token_jti) db.sessions (λ x e. (ground arith, ground arith)),
          count_where_mono (is_usable j) (has_jti j) db.sessions (λ x e. ground arith),
        );
      }

  refreshed-Spent :
      (refresh (claims_of user_id j) n (at_rest db)).0 ≡ ok tt
      → Spent j (refresh (claims_of user_id j) n (at_rest db)).1.committed
  unfolding refresh claimed rotate_for get_user_by_id rotate_refresh_session update_sessions
      replace_if insert_session connected ◌>>=◌ query or_raise raise_if raise modify rollback commit
      pure
  refreshed-Spent answered =
      elim (Option-cases (fetch_one (select_where (is_user user_id) db.users))) [
        | inl nobody ↦ absurd (cc (rw nobody at answered))
        | inr (u, found) ↦ elim (Bool-cases (is_some u.deleted_at)) [
          | inl gone ↦ absurd (cc (rw (found, gone) at answered))
          | inr there ↦
              elim (Bool-cases (
                is_some (
                  fetch_one (
                    map (rotated n.now n.token_jti)
                      (select_where (is_live user_id j n.now) db.sessions))))) [
                        | inr dead ↦ absurd (cc (rw (found, there, dead) at answered))
                        | inl live ↦
                            elim (Bool-cases (
                              is_some (
                                fetch_one
                                  (select_where (has_jti n.token_jti) closed_db.sessions)))) [
                                    | inl taken ↦
                                        absurd (cc (rw (found, there, live, taken) at answered))
                                    | inr free ↦
                                        rw (found, there, live, free)
                                          (insert-Spent j user_id n closed_db
                                            (count_of_fetch_false _ closed_db.sessions free)
                                            (closed-Spent live))
                                  ]
                      ]
        ]
      ]

-- If no two sessions are for one token, a refresh token that was exchanged successfully is never accepted
-- again: whatever requests follow, in whatever order and for whatever users, exchanging it or logging out
-- with it is refused as an invalid token and changes nothing.
pub refresh-once :
    (j user_id v : ℕ) (n later : NewSession) (db : Db) (requests : List Request)
    → count_where (has_jti j) db.sessions ≤ 1
    → (refresh (claims_of user_id j) n (at_rest db)).0 ≡ ok tt
    → let after = serve requests (refresh (claims_of user_id j) n (at_rest db)).1.committed in
      (refresh (claims_of v j) later (at_rest after)
        ≡ (err (contract_error Refusal.invalid_refresh_token), at_rest after))
      × (logout (claims_of v j) later.now (at_rest after)
          ≡ (err (contract_error Refusal.invalid_refresh_token), at_rest after))
refresh-once j user_id v n later db requests one answered =
    let spent = serve-Spent j requests _ (refreshed-Spent j user_id n db one answered) in
    (refresh_refused j v later _ spent, logout_refused j v later.now _ spent)
