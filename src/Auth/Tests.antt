-- ===== src/Auth/Tests.antt =====
-- The auth service at one user with one session.
use tokenization.Common.{ℕ, ◌+◌, ◌≤◌, ◌≡◌, refl, arith, List, [], ◌∷◌, none, some}
use tokenization.Common.Table.{count_where, sum_by, select_where, update_where}
use tokenization.Database.Rows.{Text}
use tokenization.Database.Users.{Role, User}
use tokenization.Database.Model.{Db, KycStatus}
use tokenization.Database.Tx.{
  err, ok, at_rest, ◌>>=◌, query, or_raise, raise_if, modify, commit, pure, connected,
  contract_error, Refusal,
}
use tokenization.Market.Fixture.{matched}
use tokenization.Auth.Sessions.{
  NewSession, has_jti, session_row, refresh, logout, claimed, rotate_for, get_user_by_id,
  rotate_refresh_session, update_sessions, replace_if, insert_session,
}
use tokenization.Auth.Accounts.{register, Draws, Registration}
use tokenization.Auth.Accounts.Registered.{Registers, register-Registers}
use tokenization.Auth.Referrals.{Payment, create_referral_signup_reward}
use tokenization.Auth.Referrals.Paid
use tokenization.Auth.Referrals.Paid.{IsPaid, serve-IsPaid}
use tokenization.Auth.Referrals.Again.{Rewards, create_referral_signup_reward-again}
use tokenization.Auth.Sessions.SingleUse.{Request, serve, claims_of, refresh-once}

abbrev seller : User
seller = record {
  id = 20;
  email = some (1 ∷ []);
  password_hash = some (2 ∷ []);
  display_name = 3 ∷ [];
  role = Role.seller;
  totp_secret = none;
  referrer_id = some 10;
  referral_code = 4 ∷ [];
  created_at = 1;
  updated_at = 1;
  deleted_at = none;
}

abbrev draws : ℕ → ℕ → NewSession
draws jti now = record { session_id = jti; now = now; token_jti = jti; expires_at = now + 100 }

abbrev signed_in : Db
signed_in = record matched { users = seller ∷ []; sessions = session_row 20 (draws 5 1) ∷ [] }

one_session : count_where (has_jti 5) signed_in.sessions ≤ 1
unfolding count_where
one_session = omega arith

first_refresh : (refresh (claims_of 20 5) (draws 6 9) (at_rest signed_in)).0 ≡ ok tt
unfolding refresh claimed rotate_for get_user_by_id rotate_refresh_session update_sessions
    replace_if insert_session connected ◌>>=◌ query or_raise raise_if modify commit pure
    select_where update_where
first_refresh = refl

abbrev later_db : Db
later_db =
    serve (Request.logs_out (claims_of 20 6) 11 ∷ [])
      (refresh (claims_of 20 5) (draws 6 9) (at_rest signed_in)).1.committed

refresh-once_example :
    (refresh (claims_of 20 5) (draws 7 12) (at_rest later_db)
      ≡ (err (contract_error Refusal.invalid_refresh_token), at_rest later_db))
    × (logout (claims_of 20 5) 12 (at_rest later_db)
        ≡ (err (contract_error Refusal.invalid_refresh_token), at_rest later_db))
refresh-once_example =
    refresh-once 5 20 20 (draws 6 9) (draws 7 12) signed_in
      (Request.logs_out (claims_of 20 6) 11 ∷ []) one_session first_refresh

abbrev payment : ℕ → Payment
payment n = record { reward_id = n; entry_id = n; now = n }

signed_in-IsPaid : IsPaid signed_in
unfolding count_where sum_by
signed_in-IsPaid = record { once = λ k. omega arith; booked = refl }

abbrev twice : List Paid.Request
twice =
    Paid.Request.submits 3 20
    ∷ Paid.Request.reviews (payment 4) 20 KycStatus.verified 1
    ∷ Paid.Request.reviews (payment 5) 20 KycStatus.pending 1
    ∷ Paid.Request.reviews (payment 6) 20 KycStatus.verified 1
    ∷ []

serve-IsPaid_example : IsPaid (Paid.serve twice signed_in)
serve-IsPaid_example = serve-IsPaid twice signed_in signed_in-IsPaid

create_referral_signup_reward-again_example :
    let out = create_referral_signup_reward (payment 4) 20 50000 (at_rest signed_in) in
    Rewards (payment 4) 20 50000 (at_rest signed_in) out
    × (create_referral_signup_reward (payment 5) 20 60000 out.1 ≡ out)
create_referral_signup_reward-again_example =
    create_referral_signup_reward-again (payment 4) (payment 5) 20 50000 60000 (at_rest signed_in)

-- The accounts before anybody has signed up.
abbrev nobody : Db
nobody = record matched { users = []; identities = [] }

abbrev drawn : ℕ → Draws
drawn n = record { user_id = n; now = n; codes = (b'A' ∷ n ∷ []) ∷ []; session = draws n n }

abbrev mail : Text → Registration
mail email = record {
  email = email;
  password_hash = 2 ∷ [];
  display_name = 3 ∷ [];
  referrer_code = [];
}

register-Registers_example :
    Registers (drawn 1) (mail (7 ∷ [])) nobody (register (drawn 1) (mail (7 ∷ [])) (at_rest nobody))
register-Registers_example = register-Registers (drawn 1) (mail (7 ∷ [])) nobody
