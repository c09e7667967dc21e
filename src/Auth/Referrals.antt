-- ===== src/Auth/Referrals.antt =====
-- Referral rewards (services/common/incentives.py), and the verification of identities that pays them
-- (services/auth/kyc_db.py, and submit_kyc and update_kyc_admin of services/auth/main.py). The free text of a
-- verification is left out.
pub mod Paid
pub mod Again
use tokenization.Common.{
  ℕ, Bool, true, false, not, ◌&&◌, ◌==◌, Option, none, some, List, [], ◌∷◌, ◌++◌, is_some, map,
  if◌then◌else◌,
}
use tokenization.Common.Int.{pos, ◌-ℤ◌}
use tokenization.Common.Table.{select_where, update_where, fetch_one}
use tokenization.Database.Rows.{Text, same_text}
use tokenization.Database.Users.{User, ReferralReward}
use tokenization.Database.Model.{TreasuryEntry, EntryType, KycRecord, KycStatus}
use tokenization.Database.Tx.{
  Tx, ◌>>=◌, ◌>>◌, pure, query, raise_if, or_raise, modify, commit, rollback, connected,
  integrity_error, runtime_error, contract_error, Refusal,
}
use tokenization.Market.Placing.{get_kyc_status}
use tokenization.Market.Treasury.{get_latest_treasury_entry, balance_after}
use tokenization.Auth.Sessions.{is_user}

-- `REFERRAL_SIGNUP_BONUS_SAT`
abbrev pub referral_signup_bonus_sat : ℕ
referral_signup_bonus_sat = 50_000

-- The first of the candidates that no user has; the source draws ten.
abbrev pub unused_code : List Text → List User → Option Text
unused_code [] users = none
unused_code (c ∷ cs) users =
    let later = unused_code cs users in
    if is_some (fetch_one (select_where (λ u. same_text u.referral_code c) users))
    then later
    else some c

unfoldable pub generate_referral_code : List Text → Tx Text
generate_referral_code candidates = do
  code ← query (λ db. unused_code candidates db.users)
  or_raise code runtime_error

abbrev pub is_reward_for : ℕ → ReferralReward → Bool
is_reward_for user_id r = r.referred_user_id == user_id

unfoldable pub get_referral_reward_by_referred_user : ℕ → Tx (Option ReferralReward)
get_referral_reward_by_referred_user user_id =
    query (λ db. fetch_one (select_where (is_reward_for user_id) db.rewards))

-- What a payment draws.
pub record Payment : Type 0 where
  pub reward_id : ℕ
  pub entry_id : ℕ
  pub now : ℕ

abbrev pub reward_row : Payment → ℕ → ℕ → ℕ → ReferralReward
reward_row p referrer_id user_id amount_sat = record {
  id = p.reward_id;
  referrer_id = referrer_id;
  referred_user_id = user_id;
  amount_sat = amount_sat;
  credited_at = p.now;
  created_at = p.now;
}

abbrev pub reward_entry : Payment → ℕ → Option TreasuryEntry → TreasuryEntry
reward_entry p amount_sat latest = record {
  id = p.entry_id;
  source_trade_id = none;
  source_referral_reward_id = some p.reward_id;
  entry_type = EntryType.referral_reward;
  amount_sat = amount_sat;
  balance_after_sat = balance_after latest -ℤ pos amount_sat;
  created_at = p.now;
}

-- The two inserts, in the open transaction; a second reward for the user breaks a unique key.
unfoldable pub pay_reward : Payment → ℕ → ℕ → ℕ → Tx ReferralReward
unfolding get_latest_treasury_entry
pay_reward p referrer_id user_id amount_sat = do
  taken ← query (λ db. fetch_one (select_where (is_reward_for user_id) db.rewards))
  raise_if (is_some taken) integrity_error
  modify
      (λ db. record db { rewards = db.rewards ++ reward_row p referrer_id user_id amount_sat ∷ [] })
  latest ← get_latest_treasury_entry
  modify (λ db. record db { treasury = db.treasury ++ reward_entry p amount_sat latest ∷ [] })
  pure (reward_row p referrer_id user_id amount_sat)

unfoldable pub unless_rewarded :
    Payment → ℕ → ℕ → ℕ → Option ReferralReward → Tx (Option ReferralReward)
unfolding pay_reward
unless_rewarded p referrer_id user_id amount_sat (some existing) = pure (some existing)
unless_rewarded p referrer_id user_id amount_sat none = do
  reward ← pay_reward p referrer_id user_id amount_sat
  pure (some reward)

abbrev pub referrer_of : Option User → Option ℕ
referrer_of none = none
referrer_of (some u) = u.referrer_id

unfoldable pub reward_referrer : Payment → ℕ → ℕ → Option ℕ → Tx (Option ReferralReward)
unfolding unless_rewarded get_referral_reward_by_referred_user
reward_referrer p user_id amount_sat none = pure none
reward_referrer p user_id amount_sat (some referrer_id) = do
  existing ← get_referral_reward_by_referred_user user_id
  unless_rewarded p referrer_id user_id amount_sat existing

unfoldable pub create_referral_signup_reward : Payment → ℕ → ℕ → Tx (Option ReferralReward)
unfolding reward_referrer
create_referral_signup_reward p user_id amount_sat = do
  referrer_id ← query (λ db. referrer_of (fetch_one (select_where (is_user user_id) db.users)))
  reward_referrer p user_id amount_sat referrer_id

abbrev pub new_kyc : ℕ → ℕ → KycRecord
new_kyc now user_id = record {
  user_id = user_id;
  status = KycStatus.pending;
  reviewed_by = none;
  reviewed_at = none;
  created_at = now;
  updated_at = now;
}

abbrev pub is_kyc_of : ℕ → KycRecord → Bool
is_kyc_of user_id k = k.user_id == user_id

-- INSERT, with the unique key on the user.
unfoldable pub create_kyc_record : ℕ → ℕ → Tx KycRecord
create_kyc_record now user_id = do
  taken ← query (λ db. fetch_one (select_where (is_kyc_of user_id) db.kyc))
  raise_if (is_some taken) integrity_error
  modify (λ db. record db { kyc = db.kyc ++ new_kyc now user_id ∷ [] })
  commit
  pure (new_kyc now user_id)

unfoldable pub or_submit : ℕ → ℕ → Option KycRecord → Tx KycRecord
unfolding create_kyc_record
or_submit now user_id (some existing) = pure existing
or_submit now user_id none = create_kyc_record now user_id

unfoldable pub submit_kyc : ℕ → ℕ → Tx KycRecord
unfolding or_submit get_kyc_status
submit_kyc now user_id =
    connected (do existing ← get_kyc_status user_id; or_submit now user_id existing)

abbrev pub reviewed : ℕ → KycStatus → ℕ → KycRecord → KycRecord
reviewed now new_status reviewed_by k = record k {
  status = new_status;
  reviewed_by = some reviewed_by;
  reviewed_at = some now;
  updated_at = now;
}

abbrev pub end_update : Option KycRecord → Tx (Option KycRecord)
end_update none = do rollback; pure none
end_update (some row) = do commit; pure (some row)

unfoldable pub update_kyc_status : ℕ → ℕ → KycStatus → ℕ → Tx (Option KycRecord)
update_kyc_status now user_id new_status reviewed_by = do
  row ← query (λ db.
      fetch_one
        (map (reviewed now new_status reviewed_by) (select_where (is_kyc_of user_id) db.kyc)))
  modify (λ db. record db {
    kyc = update_where (is_kyc_of user_id) (reviewed now new_status reviewed_by) db.kyc;
  })
  end_update row

abbrev pub is_verified : KycStatus → Bool
is_verified KycStatus.pending = false
is_verified KycStatus.verified = true
is_verified KycStatus.rejected = false
is_verified KycStatus.expired = false

-- The statements of `update_kyc_admin` on its connection.
unfoldable pub review : Payment → ℕ → KycStatus → ℕ → Tx (Option KycRecord)
unfolding create_referral_signup_reward update_kyc_status get_kyc_status
review p user_id new_status reviewed_by = do
  found ← get_kyc_status user_id
  existing ← or_raise found (contract_error Refusal.kyc_not_found)
  row ← update_kyc_status p.now user_id new_status reviewed_by
  (if is_verified new_status && not (is_verified existing.status)
      then create_referral_signup_reward p user_id referral_signup_bonus_sat >> commit
      else pure tt)
  pure row

unfoldable pub update_kyc_admin : Payment → ℕ → KycStatus → ℕ → Tx KycRecord
unfolding review
update_kyc_admin p user_id new_status reviewed_by = do
  row ← connected (review p user_id new_status reviewed_by)
  or_raise row (contract_error Refusal.kyc_update_failed)
