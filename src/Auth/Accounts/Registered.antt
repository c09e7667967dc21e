-- ===== src/Auth/Accounts/Registered.antt =====
-- What a registration that is answered has stored.
use tokenization.Common.{
  ℕ, ◌≡◌, ◌≢◌, refl, ◌⊎◌, inl, inr, true, false, Option, none, some, List, [], ◌∷◌, ◌++◌, arith,
  Member, Bool-cases, Option-cases, is_some, ◌∙◌, ap,
}
use tokenization.Common.Table.{select_where, fetch_one, fetch_one-select_where, count_pos}
use tokenization.Common.Sums.{count_of_fetch_false}
use tokenization.Common.Text.{strip}
use tokenization.Database.Rows.{Text, same_text, same_text_eq, same_text_refl}
use tokenization.Database.Users.{User}
use tokenization.Database.Model.{Db}
use tokenization.Database.Tx.{
  Refusal, Result, ok, err, Tx, Conn, at_rest, ◌>>=◌, ◌>>◌, pure, query, raise_if, or_raise, modify,
  commit, catch, connected, integrity_error, runtime_error, value_error, lookup_error,
  contract_error, raise,
}
use tokenization.Database.Tx.Returns.{bind-Returns}
use tokenization.Auth.Sessions.{
  has_email, get_user_by_email, create_refresh_session, insert_session, NewSession, has_jti,
}
use tokenization.Auth.Referrals.{generate_referral_code, unused_code}
use tokenization.Auth.Accounts.{
  upper, has_code, get_user_by_referral_code, find_referrer, same_email, or_email_taken,
  Registration, Draws, create_account, create_user, NewUser, user_row, insert_user, clashes,
  register,
}

-- The referrer of an account: none without a code, and else the user of the code, who has another email.
pub data IsReferred (body : Registration) (users : List User) : Option ℕ → Type 0 where
  no_code : body.referrer_code ≡ [] → IsReferred body users none
  by_code :
      (u : User)
      → Member u users
      → u.referral_code ≡ upper (strip body.referrer_code)
      → u.email ≢ some body.email
      → IsReferred body users (some u.id)

-- Nobody had the email, and the users are those from before and the new one.
pub record IsRegistered (d : Draws) (body : Registration) (db : Db) (row : User) (after : Db)
    : Type 0 where
  pub fresh : (u : User) → Member u db.users → u.email ≢ some body.email
  pub named : row.email ≡ some body.email
  pub hashed : row.password_hash ≡ some body.password_hash
  pub id_is : row.id ≡ d.user_id
  pub referred : IsReferred body db.users row.referrer_id
  pub users : after.users ≡ db.users ++ row ∷ []

find_referrer-IsReferred :
    (body : Registration) (code : Text) (c : Conn) (o : Option ℕ)
    → body.referrer_code ≡ code
    → (find_referrer body.email code c).0 ≡ ok o
    → IsReferred body c.current.users o × ((find_referrer body.email code c).1 ≡ c)
unfolding find_referrer get_user_by_referral_code ◌>>=◌ query or_raise raise_if pure
find_referrer-IsReferred body [] c o named e =
    let is_none : none ≡ o = cc in (rw (← is_none) (no_code named), refl)
find_referrer-IsReferred body (x ∷ xs) c o named e =
    elim (Option-cases
      (fetch_one (select_where (has_code (upper (strip (x ∷ xs)))) c.current.users))) [
        | inl lost ↦ absurd (cc (rw lost at e))
        | inr (u, found) ↦ elim (Bool-cases (same_email body.email u.email)) [
          | inl own ↦ absurd (cc (rw (found, own) at e))
          | inr other ↦
              let (hit, m) = fetch_one-select_where _ c.current.users u found in
              let same : ok (some u.id) ≡ ok o = rw (found, other) at e in
              let is_some_id : some u.id ≡ o = cc in
              (
                rw (← is_some_id) (
                    by_code u m (rw named (same_text_eq u.referral_code _ hit))
                      (not_own body u other)),
                rw (found, other) refl,
              )
        ]
      ]
  where
    not_own :
        (body : Registration) (u : User)
        → same_email body.email u.email ≡ false
        → u.email ≢ some body.email
    not_own body u other same =
        let own : same_text body.email body.email ≡ false = rw same at other in
        cc (same_text_refl body.email)

-- The account that `create_account` has stored and committed.
record IsCreated (d : Draws) (body : Registration) (o : Option ℕ) (c : Conn) (row : User)
    (c' : Conn) : Type 0 where
  pub named : row.email ≡ some body.email
  pub hashed : row.password_hash ≡ some body.password_hash
  pub id_is : row.id ≡ d.user_id
  pub referrer_is : row.referrer_id ≡ o
  pub users : c'.current.users ≡ c.current.users ++ row ∷ []

create_account-IsCreated :
    (d : Draws) (body : Registration) (o : Option ℕ) (c : Conn) (row : User)
    → (create_account d body o c).0 ≡ ok row
    → IsCreated d body o c row (create_account d body o c).1
unfolding create_account generate_referral_code create_user insert_user ◌>>=◌ query or_raise
    raise_if modify commit pure
create_account-IsCreated d body o c row e =
    elim (Option-cases (unused_code d.codes c.current.users)) [
      | inl out_of_codes ↦ absurd (cc (rw out_of_codes at e))
      | inr (code, drawn) ↦
          let n : NewUser = record {
            id = d.user_id;
            now = d.now;
            email = some body.email;
            password_hash = some body.password_hash;
            display_name = body.display_name;
            referral_code = code;
            referrer_id = o;
          } in
          elim (Bool-cases (clashes n c.current.users)) [
            | inl clash ↦ absurd (cc (rw (drawn, clash) at e))
            | inr free ↦
                let same : ok (user_row n) ≡ ok row = rw (drawn, free) at e in
                let is_row : user_row n ≡ row = cc in
                rw (drawn, free)
                  (rw (← is_row) (record {
                    named = refl;
                    hashed = refl;
                    id_is = refl;
                    referrer_is = refl;
                    users = refl;
                  }))
          ]
    ]

or_email_taken-ok :
    (outcome : Result User) (c : Conn) (row : User)
    → (or_email_taken outcome c).0 ≡ ok row
    → (outcome ≡ ok row) × ((or_email_taken outcome c).1 ≡ c)
unfolding pure raise
or_email_taken-ok (ok r) c row e = (e, refl)
or_email_taken-ok (err integrity_error) c row e = absurd (cc)
or_email_taken-ok (err runtime_error) c row e = absurd (cc)
or_email_taken-ok (err (value_error x)) c row e = absurd (cc)
or_email_taken-ok (err (lookup_error x)) c row e = absurd (cc)
or_email_taken-ok (err (contract_error x)) c row e = absurd (cc)

create_refresh_session-users :
    (user_id : ℕ) (n : NewSession) (c : Conn)
    → (create_refresh_session user_id n c).0 ≡ ok tt
    → (create_refresh_session user_id n c).1.committed.users ≡ c.current.users
unfolding create_refresh_session insert_session ◌>>=◌ query raise_if modify commit
create_refresh_session-users user_id n c e =
    elim (Bool-cases
      (is_some (fetch_one (select_where (has_jti n.token_jti) c.current.sessions)))) [
        | inl taken ↦ absurd (cc (rw taken at e))
        | inr free ↦ rw free refl
      ]

module _ (d : Draws) (body : Registration) (db : Db) where
  abbrev IsFresh : Type 0
  IsFresh = (u : User) → Member u db.users → u.email ≢ some body.email

  none_has :
      is_some (fetch_one (select_where (λ u. has_email body.email u.email) db.users)) ≡ false
      → IsFresh
  none_has free u m named =
      let z = count_of_fetch_false (λ x. has_email body.email x.email) db.users free in
      let hit : has_email body.email u.email ≡ true = rw named (same_text_refl body.email) in
      absurd (omega (arith, z, count_pos (λ x. has_email body.email x.email) db.users u hit m))

  -- What follows the creation of the account.
  abbrev afterwards : Result User → Tx User
  afterwards outcome =
      or_email_taken outcome >>= λ row. create_refresh_session row.id d.session >> pure row

  record IsKept (outcome : Result User) (c : Conn) (row : User) : Type 0 where
    pub answered : outcome ≡ ok row
    pub users : (afterwards outcome c).1.committed.users ≡ c.current.users

  afterwards-IsKept :
      (outcome : Result User) (c : Conn) (row : User)
      → (afterwards outcome c).0 ≡ ok row
      → IsKept outcome c row
  unfolding pure
  afterwards-IsKept outcome c row e =
      let passed = bind-Returns (or_email_taken outcome) _ c row e in
      let (is_ok, still) = or_email_taken-ok outcome c passed.value passed.got in
      let session =
        bind-Returns (create_refresh_session passed.value.id d.session) _ _ row passed.rest in
      let same : passed.value ≡ row = cc (session.rest) in
      let users =
        create_refresh_session-users passed.value.id d.session (or_email_taken outcome c).1
          session.got in
      record {
        answered = is_ok ∙ ap ok same;
        users =
            ap (λ out. out.1.committed.users) (passed.whole ∙ session.whole)
            ∙ users
            ∙ ap (λ x. x.current.users) still;
      }

  -- The parts of the handler after the check of the email, each of which has returned.
  register-IsRegistered :
      (row : User)
      → IsFresh
      → (register d body (at_rest db)).0 ≡ ok row
      → IsRegistered d body db row (register d body (at_rest db)).1.committed
  unfolding register connected get_user_by_email query raise_if catch pure
  register-IsRegistered row fresh e =
      let looked = bind-Returns _ _ (at_rest db) row e in
      let checked = bind-Returns _ _ (at_rest db) row looked.rest in
      let referrer = bind-Returns _ _ (at_rest db) row checked.rest in
      let (referred, still) =
        find_referrer-IsReferred body body.referrer_code (at_rest db) referrer.value refl
          referrer.got in
      let create = create_account d body referrer.value in
      let e' : ((catch create >>= afterwards) (at_rest db)).0 ≡ ok row =
        rw still at referrer.rest in
      let created = bind-Returns (catch create) afterwards (at_rest db) row e' in
      let kept = afterwards-IsKept created.value (create (at_rest db)).1 row created.rest in
      let outcome : (create (at_rest db)).0 ≡ created.value = cc (created.got) in
      let account =
        create_account-IsCreated d body referrer.value (at_rest db) row (outcome ∙ kept.answered) in
      let last = created.whole in
      let w : (find_referrer body.email body.referrer_code >>= λ r.
      catch (create_account d body r) >>= afterwards)
            (at_rest db)
          ≡ (catch create >>= afterwards) (at_rest db) =
        rw still at referrer.whole in
      record {
        fresh = fresh;
        named = account.named;
        hashed = account.hashed;
        id_is = account.id_is;
        referred = rw account.referrer_is referred;
        users =
            ap (λ out. out.1.committed.users) (looked.whole ∙ checked.whole ∙ w ∙ last)
            ∙ kept.users
            ∙ account.users;
      }

-- The answer to a registration: the account, or a refusal; if somebody has the email, then for that.
abbrev pub Registers : Draws → Registration → Db → Result User × Conn → Type 0
Registers d body db (ok row, c) = IsRegistered d body db row c.committed
Registers d body db (err e, c) =
    ((u : User) → Member u db.users → u.email ≢ some body.email)
    ⊎ (e ≡ contract_error Refusal.email_taken) × (c ≡ at_rest db)

by_outcome :
    (d : Draws) (body : Registration) (db : Db) (out : Result User × Conn)
    → IsFresh d body db
    → register d body (at_rest db) ≡ out
    → Registers d body db out
by_outcome d body db (ok row, c) fresh e =
    let stored = register-IsRegistered d body db row fresh (ap (λ o. o.0) e) in rw e at stored
by_outcome d body db (err x, c) fresh e = inl fresh

-- A registration on a database with nothing uncommitted. If a user has the email, it is refused for that, whatever
-- its referral code is, and nothing changes. If it is answered, nobody had the email; the users are those from
-- before and the new one, with that email, the identifier that was drawn and the hash of the password; and its
-- referrer is nobody if it came without a code, and else a user of that code, in upper case and without spaces
-- around it, who has another email.
pub register-Registers :
    (d : Draws) (body : Registration) (db : Db) → Registers d body db (register d body (at_rest db))
unfolding register connected get_user_by_email ◌>>=◌ query raise_if
register-Registers d body db =
    elim (Bool-cases
      (is_some (fetch_one (select_where (λ u. has_email body.email u.email) db.users)))) [
        | inl taken ↦ rw taken (inr (refl, refl))
        | inr free ↦ by_outcome d body db _ (none_has d body db free) refl
      ]
