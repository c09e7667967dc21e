-- ===== src/Auth/Accounts.antt =====
-- Accounts: create_user, create_nostr_user and create_nostr_identity of services/auth/db.py,
-- get_user_by_referral_code of services/common/incentives.py, and the handlers register and nostr_login of
-- services/auth/main.py. Hashing a password and checking a signed event are library functions: what they
-- answer is an argument.
pub mod Registered
use tokenization.Common.{
  ℕ, ◌-◌, Bool, true, false, not, ◌&&◌, ◌||◌, ◌==◌, Option, none, some, List, [], ◌∷◌, ◌++◌, leb,
  take, is_some, if◌then◌else◌,
}
use tokenization.Common.Table.{select_where, fetch_one}
use tokenization.Common.Text.{strip}
use tokenization.Database.Rows.{Text, same_text}
use tokenization.Database.Users.{User, Role}
use tokenization.Database.Model.{Db, NostrIdentity}
use tokenization.Database.Tx.{
  Result, ok, err, Failure, value_error, lookup_error, runtime_error, integrity_error,
  contract_error, Refusal, Tx, ◌>>=◌, ◌>>◌, pure, raise, query, raise_if, or_raise, modify, commit,
  catch, connected, Unit₀,
}
use tokenization.Auth.Sessions.{
  is_user, has_email, get_user_by_id, get_user_by_email, NewSession, create_refresh_session,
}
use tokenization.Auth.Referrals.{generate_referral_code}

-- `str.upper` as far as a code of hexadecimal digits can come out of it: on ASCII, and the ligature of two f.
unfoldable pub upper : Text → Text
upper [] = []
upper (c ∷ cs) =
    let rest = upper cs in
    if leb b'a' c && leb c b'z'
    then (c - 32) ∷ rest
    else if c == 0xFB00
    then b'F' ∷ b'F' ∷ rest
    else c ∷ rest

abbrev pub has_code : Text → User → Bool
has_code referral_code u = same_text u.referral_code referral_code

unfoldable pub get_user_by_referral_code : Text → Tx (Option User)
unfolding upper
get_user_by_referral_code referral_code =
    query (λ db. fetch_one (select_where (has_code (upper (strip referral_code))) db.users))

-- What a new account is made of.
pub record NewUser : Type 0 where
  pub id : ℕ
  pub now : ℕ
  pub email : Option Text
  pub password_hash : Option Text
  pub display_name : Text
  pub referral_code : Text
  pub referrer_id : Option ℕ

abbrev pub user_row : NewUser → User
user_row n = record {
  id = n.id;
  email = n.email;
  password_hash = n.password_hash;
  display_name = n.display_name;
  role = Role.user;
  totp_secret = none;
  referrer_id = n.referrer_id;
  referral_code = n.referral_code;
  created_at = n.now;
  updated_at = n.now;
  deleted_at = none;
}

abbrev pub email_taken : Option Text → List User → Bool
email_taken none users = false
email_taken (some email) users =
    is_some (fetch_one (select_where (λ u. has_email email u.email) users))

abbrev pub referrer_missing : Option ℕ → List User → Bool
referrer_missing none users = false
referrer_missing (some referrer_id) users =
    not (is_some (fetch_one (select_where (is_user referrer_id) users)))

-- The keys of the table: unique identifier, email and referral code, and a referrer that exists. The account
-- is no referrer of itself, since its identifier is new.
abbrev pub clashes : NewUser → List User → Bool
clashes n users =
    is_some (fetch_one (select_where (is_user n.id) users))
    || email_taken n.email users
    || is_some (fetch_one (select_where (has_code n.referral_code) users))
    || referrer_missing n.referrer_id users

unfoldable pub insert_user : NewUser → Tx Unit₀
insert_user n = do
  clash ← query (λ db. clashes n db.users)
  raise_if clash integrity_error
  modify (λ db. record db { users = db.users ++ user_row n ∷ [] })

unfoldable pub create_user : NewUser → Tx User
unfolding insert_user
create_user n = do insert_user n; commit; pure (user_row n)

abbrev pub same_email : Text → Option Text → Bool
same_email email other = has_email email other

-- `if body.referrer_code`
unfoldable pub find_referrer : Text → Text → Tx (Option ℕ)
unfolding get_user_by_referral_code
find_referrer email [] = pure none
find_referrer email (c ∷ cs) = do
  found ← get_user_by_referral_code (c ∷ cs)
  referrer_row ← or_raise found (contract_error Refusal.referrer_not_found)
  raise_if (same_email email referrer_row.email) (contract_error Refusal.self_referral_not_allowed)
  pure (some referrer_row.id)

-- `except IntegrityError`
abbrev pub or_email_taken : Result User → Tx User
or_email_taken (ok row) = pure row
or_email_taken (err integrity_error) = raise (contract_error Refusal.email_taken)
or_email_taken (err runtime_error) = raise runtime_error
or_email_taken (err (value_error e)) = raise (value_error e)
or_email_taken (err (lookup_error e)) = raise (lookup_error e)
or_email_taken (err (contract_error e)) = raise (contract_error e)

-- `RegisterRequest`, with the hash of its password; an empty referrer code is none.
pub record Registration : Type 0 where
  pub email : Text
  pub password_hash : Text
  pub display_name : Text
  pub referrer_code : Text

-- What a registration draws.
pub record Draws : Type 0 where
  pub user_id : ℕ
  pub now : ℕ
  pub codes : List Text
  pub session : NewSession

unfoldable pub create_account : Draws → Registration → Option ℕ → Tx User
unfolding create_user
create_account d body referrer_id = do
  referral_code ← generate_referral_code d.codes
  create_user (record {
    id = d.user_id;
    now = d.now;
    email = some body.email;
    password_hash = some body.password_hash;
    display_name = body.display_name;
    referral_code = referral_code;
    referrer_id = referrer_id;
  })

unfoldable pub register : Draws → Registration → Tx User
unfolding find_referrer create_account get_user_by_email create_refresh_session
register d body = connected (do
  existing ← get_user_by_email body.email
  raise_if (is_some existing) (contract_error Refusal.email_taken)
  referrer_id ← find_referrer body.email body.referrer_code
  outcome ← catch (create_account d body referrer_id)
  row ← or_email_taken outcome
  create_refresh_session row.id d.session
  pure row)

abbrev pub has_pubkey : Text → NostrIdentity → Bool
has_pubkey pubkey i = same_text i.pubkey pubkey

unfoldable pub get_nostr_identity_by_pubkey : Text → Tx (Option NostrIdentity)
get_nostr_identity_by_pubkey pubkey =
    query (λ db. fetch_one (select_where (has_pubkey pubkey) db.identities))

unfoldable pub create_nostr_identity : ℕ → ℕ → ℕ → Text → Tx Unit₀
create_nostr_identity identity_id now user_id pubkey = do
  taken ← query (λ db. fetch_one (select_where (has_pubkey pubkey) db.identities))
  raise_if (is_some taken) integrity_error
  modify (λ db. record db {
    identities =
        db.identities
        ++ record { id = identity_id; user_id = user_id; pubkey = pubkey; created_at = now } ∷ [];
  })
  commit

-- `f"nostr:{pubkey[:8]}"`
abbrev pub nostr_name : Text → Text
nostr_name pubkey = b'n' ∷ b'o' ∷ b's' ∷ b't' ∷ b'r' ∷ b':' ∷ take 8 pubkey

unfoldable pub nostr_user : ℕ → Draws → Text → Option NostrIdentity → Tx User
unfolding create_user get_user_by_id create_nostr_identity
nostr_user identity_id d pubkey (some identity) = do
  found ← get_user_by_id identity.user_id
  or_raise found (contract_error Refusal.invalid_credentials)
nostr_user identity_id d pubkey none = do
  referral_code ← generate_referral_code d.codes
  row ← create_user (record {
    id = d.user_id;
    now = d.now;
    email = none;
    password_hash = none;
    display_name = nostr_name pubkey;
    referral_code = referral_code;
    referrer_id = none;
  })
  create_nostr_identity identity_id d.now row.id pubkey
  pure row

-- `valid` is what the check of the signed event says.
unfoldable pub nostr_login : Bool → ℕ → Draws → Text → Tx User
unfolding get_nostr_identity_by_pubkey nostr_user create_refresh_session
nostr_login valid identity_id d pubkey = do
  raise_if (not valid) (contract_error Refusal.invalid_credentials)
  connected (do
    identity_row ← get_nostr_identity_by_pubkey pubkey
    user ← nostr_user identity_id d pubkey identity_row
    create_refresh_session user.id d.session
    pure user)
