-- ===== src/Auth/Sessions.antt =====
-- Sessions of refresh tokens: services/auth/db.py, and the handlers refresh, logout and login of
-- services/auth/main.py. Decoding a token and comparing a password are library functions: what they
-- answer is an argument.
pub mod Spent
pub mod SingleUse
use tokenization.Common.{
  ℕ, Bool, true, false, not, ◌&&◌, ◌==◌, Option, none, some, [], ◌∷◌, ◌++◌, ltb, is_some, map,
}
use tokenization.Common.Table.{select_where, update_where, fetch_one}
use tokenization.Database.Rows.{Text, same_text}
use tokenization.Database.Users.{User, RefreshSession}
use tokenization.Database.Tx.{
  Tx, ◌>>=◌, ◌>>◌, pure, raise, query, raise_if, or_raise, modify, commit, rollback, connected,
  integrity_error, contract_error, Refusal, Unit₀,
}

abbrev pub is_user : ℕ → User → Bool
is_user user_id u = u.id == user_id

unfoldable pub get_user_by_id : ℕ → Tx (Option User)
get_user_by_id user_id = query (λ db. fetch_one (select_where (is_user user_id) db.users))

abbrev pub has_email : Text → Option Text → Bool
has_email email none = false
has_email email (some e) = same_text e email

unfoldable pub get_user_by_email : Text → Tx (Option User)
get_user_by_email email =
    query (λ db. fetch_one (select_where (λ u. has_email email u.email) db.users))

-- The token that a session is for.
abbrev pub has_jti : ℕ → RefreshSession → Bool
has_jti token_jti s = s.token_jti == token_jti

-- The identifiers, the time and the expiry that a new session draws.
pub record NewSession : Type 0 where
  pub session_id : ℕ
  pub now : ℕ
  pub token_jti : ℕ
  pub expires_at : ℕ

abbrev pub session_row : ℕ → NewSession → RefreshSession
session_row user_id n = record {
  id = n.session_id;
  user_id = user_id;
  token_jti = n.token_jti;
  replaced_by_jti = none;
  expires_at = n.expires_at;
  revoked_at = none;
  created_at = n.now;
  updated_at = n.now;
}

-- INSERT, with the unique key of the table.
unfoldable pub insert_session : ℕ → NewSession → Tx Unit₀
insert_session user_id n = do
  taken ← query (λ db. fetch_one (select_where (has_jti n.token_jti) db.sessions))
  raise_if (is_some taken) integrity_error
  modify (λ db. record db { sessions = db.sessions ++ session_row user_id n ∷ [] })

unfoldable pub create_refresh_session : ℕ → NewSession → Tx Unit₀
unfolding insert_session
create_refresh_session user_id n = do insert_session user_id n; commit

-- The session is the user's, for this token, not revoked and not expired.
abbrev pub is_live : ℕ → ℕ → ℕ → RefreshSession → Bool
is_live user_id token_jti now s =
    s.user_id == user_id
    && has_jti token_jti s
    && not (is_some s.revoked_at)
    && ltb now s.expires_at

abbrev pub rotated : ℕ → ℕ → RefreshSession → RefreshSession
rotated now replacement_jti s = record s {
  revoked_at = some now;
  replaced_by_jti = some replacement_jti;
  updated_at = now;
}

abbrev pub revoked : ℕ → RefreshSession → RefreshSession
revoked now s = record s { revoked_at = some now; updated_at = now }

-- UPDATE .. RETURNING: was there a row?
unfoldable pub update_sessions :
    (RefreshSession → Bool) → (RefreshSession → RefreshSession) → Tx Bool
update_sessions p g = do
  row ← query (λ db. fetch_one (map g (select_where p db.sessions)))
  modify (λ db. record db { sessions = update_where p g db.sessions })
  pure (is_some row)

unfoldable pub replace_if : ℕ → NewSession → Bool → Tx Bool
unfolding insert_session
replace_if user_id n false = do rollback; pure false
replace_if user_id n true = do insert_session user_id n; commit; pure true

unfoldable pub rotate_refresh_session : ℕ → ℕ → NewSession → Tx Bool
unfolding update_sessions replace_if
rotate_refresh_session user_id current_token_jti n = do
  found ← update_sessions (is_live user_id current_token_jti n.now) (rotated n.now n.token_jti)
  replace_if user_id n found

abbrev pub commit_if : Bool → Tx Bool
commit_if false = do rollback; pure false
commit_if true = do commit; pure true

unfoldable pub revoke_refresh_session : ℕ → ℕ → ℕ → Tx Bool
unfolding update_sessions
revoke_refresh_session now user_id token_jti = do
  found ← update_sessions (is_live user_id token_jti now) (revoked now)
  commit_if found

-- The claims of a token that decodes; each can be missing, or no identifier.
pub record Claims : Type 0 where
  pub sub : Option ℕ
  pub jti : Option ℕ

abbrev pub invalid : {A : Type 0} → Tx A
invalid = raise (contract_error Refusal.invalid_refresh_token)

unfoldable pub claimed : Option Claims → Tx (ℕ × ℕ)
claimed none = invalid
claimed (some c) = do
  user_id ← or_raise c.sub (contract_error Refusal.invalid_refresh_token)
  token_jti ← or_raise c.jti (contract_error Refusal.invalid_refresh_token)
  pure (user_id, token_jti)

-- The statements of `refresh` on its connection.
unfoldable pub rotate_for : ℕ → ℕ → NewSession → Tx Bool
unfolding get_user_by_id rotate_refresh_session
rotate_for user_id token_jti n = do
  found ← get_user_by_id user_id
  row ← or_raise found (contract_error Refusal.invalid_refresh_token)
  raise_if (is_some row.deleted_at) (contract_error Refusal.invalid_refresh_token)
  rotate_refresh_session user_id token_jti n

unfoldable pub refresh : Option Claims → NewSession → Tx Unit₀
unfolding claimed rotate_for
refresh claims n = do
  (user_id, token_jti) ← claimed claims
  rotated ← connected (rotate_for user_id token_jti n)
  raise_if (not rotated) (contract_error Refusal.invalid_refresh_token)

unfoldable pub logout : Option Claims → ℕ → Tx Unit₀
unfolding claimed revoke_refresh_session
logout claims now = do
  (user_id, token_jti) ← claimed claims
  revoked ← connected (revoke_refresh_session now user_id token_jti)
  raise_if (not revoked) (contract_error Refusal.invalid_refresh_token)

-- `(row.password_hash or _DUMMY_HASH) if row is not None else _DUMMY_HASH`
abbrev pub stored_hash : Text → Option User → Text
stored_hash dummy none = dummy
stored_hash dummy (some u) = elim u.password_hash [
  | none ↦ dummy
  | some [] ↦ dummy
  | some (c ∷ cs) ↦ c ∷ cs
]

-- `checkpw password hash` is false too if the hash is malformed.
unfoldable pub login : (Text → Text → Bool) → Text → Text → Text → NewSession → Tx User
unfolding get_user_by_email create_refresh_session
login checkpw dummy_hash email password n = do
  row ← connected (get_user_by_email email)
  raise_if (not (checkpw password (stored_hash dummy_hash row)))
      (contract_error Refusal.invalid_credentials)
  user ← or_raise row (contract_error Refusal.invalid_credentials)
  connected (create_refresh_session user.id n)
  pure user
