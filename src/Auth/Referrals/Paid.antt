-- ===== src/Auth/Referrals/Paid.antt =====
-- Rewards are paid once, and the treasury shows what was paid.
use tokenization.Common.{
  ℕ, ◌≤◌, ◌≡◌, inl, inr, arith, ◌==◌, Option, none, some, List, [], ◌∷◌, ◌++◌, is_some, Bool-cases,
}
use tokenization.Common.Table.{
  select_where, fetch_one, count_where, count_where-append, sum_by, sum_by-append,
}
use tokenization.Common.Sums.{count_of_fetch_false}
use tokenization.Common.Sort.{order_by}
use tokenization.Database.Users.{ReferralReward}
use tokenization.Database.Model.{Db, TreasuryEntry, EntryType, KycRecord, KycStatus}
use tokenization.Database.Tx.{◌>>=◌, pure, query, raise_if, modify, at_rest}
use tokenization.Database.Tx.Maintains.{Maintains, maintains, maintain_rules}
use tokenization.Market.Placing.{get_kyc_status}
use tokenization.Market.Treasury.{get_latest_treasury_entry, newer_entry}
use tokenization.Auth.Referrals.{
  Payment, is_reward_for, reward_row, reward_entry, pay_reward, unless_rewarded, reward_referrer,
  get_referral_reward_by_referred_user, create_referral_signup_reward, create_kyc_record, or_submit,
  submit_kyc, end_update, update_kyc_status, review, update_kyc_admin,
}

abbrev pub reward_amount : ReferralReward → ℕ
reward_amount r = r.amount_sat

-- What a treasury entry paid as a referral reward.
abbrev pub paid_amount : TreasuryEntry → ℕ
paid_amount e = elim e.entry_type [
  | EntryType.fee_income ↦ 0
  | EntryType.disbursement ↦ 0
  | EntryType.adjustment ↦ 0
  | EntryType.referral_reward ↦ e.amount_sat
]

pub record IsPaid (db : Db) : Type 0 where
  pub once : (user_id : ℕ) → count_where (is_reward_for user_id) db.rewards ≤ 1
  pub booked : sum_by reward_amount db.rewards ≡ sum_by paid_amount db.treasury

-- What a client or an administrator can ask of the verifications.
pub data Request : Type 0 where
  submits : (now user_id : ℕ) → Request
  reviews : Payment → (user_id : ℕ) → KycStatus → (reviewed_by : ℕ) → Request

abbrev pub serve : List Request → Db → Db
serve [] db = db
serve (Request.submits now u ∷ rest) db = serve rest (submit_kyc now u (at_rest db)).1.committed
serve (Request.reviews p u status by' ∷ rest) db =
    serve rest (update_kyc_admin p u status by' (at_rest db)).1.committed

module _ (p : Payment) (referrer_id user_id amount_sat : ℕ) where
  pay_reward-IsPaid :
      (db : Db)
      → count_where (is_reward_for user_id) db.rewards ≡ 0
      → IsPaid db
      → (latest : Option TreasuryEntry)
      → IsPaid (record db {
        rewards = db.rewards ++ reward_row p referrer_id user_id amount_sat ∷ [];
        treasury = db.treasury ++ reward_entry p amount_sat latest ∷ [];
      })
  unfolding count_where sum_by
  pay_reward-IsPaid db fresh s latest =
      let row = reward_row p referrer_id user_id amount_sat in
      record {
        once = λ k. elim (Bool-cases (user_id == k)) [
          | inl e ↦
              let same : user_id ≡ k = ground arith in
              rw (count_where-append (is_reward_for k) db.rewards (row ∷ []), e)
                (omega (arith, rw same at fresh))
          | inr e ↦
              rw (count_where-append (is_reward_for k) db.rewards (row ∷ []), e)
                (omega (arith, s.once k))
        ];
        booked = omega (
          arith,
          s.booked,
          sum_by-append reward_amount db.rewards (row ∷ []),
          sum_by-append paid_amount db.treasury (reward_entry p amount_sat latest ∷ []),
        );
      }

  pay_reward-Maintains : Maintains IsPaid (pay_reward p referrer_id user_id amount_sat)
  unfolding pay_reward get_latest_treasury_entry ◌>>=◌ query raise_if modify pure
  pay_reward-Maintains = maintains _ (λ c h.
      elim (Bool-cases
        (is_some (fetch_one (select_where (is_reward_for user_id) c.current.rewards)))) [
          | inl taken ↦ rw taken h
          | inr free ↦ rw free (
            h.0,
            pay_reward-IsPaid c.current (count_of_fetch_false _ c.current.rewards free) h.1
                (fetch_one (order_by newer_entry c.current.treasury)),
          )
        ])

  unless_rewarded-Maintains :
      (o : Option ReferralReward)
      → Maintains IsPaid (unless_rewarded p referrer_id user_id amount_sat o)
  unfolding unless_rewarded
  unless_rewarded-Maintains none = search (maintain_rules, pay_reward-Maintains)
  unless_rewarded-Maintains (some existing) = search maintain_rules

reward_referrer-Maintains :
    (p : Payment) (user_id amount_sat : ℕ) (o : Option ℕ)
    → Maintains IsPaid (reward_referrer p user_id amount_sat o)
unfolding reward_referrer get_referral_reward_by_referred_user
reward_referrer-Maintains p user_id amount_sat none = search maintain_rules
reward_referrer-Maintains p user_id amount_sat (some r) =
    search (maintain_rules, unless_rewarded-Maintains)

create-Maintains :
    (p : Payment) (user_id amount_sat : ℕ)
    → Maintains IsPaid (create_referral_signup_reward p user_id amount_sat)
unfolding create_referral_signup_reward
create-Maintains p user_id amount_sat = search (maintain_rules, reward_referrer-Maintains)

-- A write to the table of verifications.
modify_kyc-Maintains :
    (f : Db → List KycRecord) → Maintains IsPaid (modify (λ db. record db { kyc = f db }))
unfolding modify
modify_kyc-Maintains f = maintains _ (λ c h. (h.0, record { once = h.1.once; booked = h.1.booked }))

end_update-Maintains : (o : Option KycRecord) → Maintains IsPaid (end_update o)
end_update-Maintains none = search maintain_rules
end_update-Maintains (some row) = search maintain_rules

update_kyc_status-Maintains :
    (now user_id : ℕ) (status : KycStatus) (by' : ℕ)
    → Maintains IsPaid (update_kyc_status now user_id status by')
unfolding update_kyc_status
update_kyc_status-Maintains now user_id status by' =
    search (maintain_rules, modify_kyc-Maintains, end_update-Maintains) depth 40

update_kyc_admin-Maintains :
    (p : Payment) (user_id : ℕ) (status : KycStatus) (by' : ℕ)
    → Maintains IsPaid (update_kyc_admin p user_id status by')
unfolding update_kyc_admin review get_kyc_status
update_kyc_admin-Maintains p user_id status by' =
    search (maintain_rules, update_kyc_status-Maintains, create-Maintains) depth 40

or_submit-Maintains :
    (now user_id : ℕ) (o : Option KycRecord) → Maintains IsPaid (or_submit now user_id o)
unfolding or_submit create_kyc_record
or_submit-Maintains now user_id (some row) = search maintain_rules
or_submit-Maintains now user_id none = search (maintain_rules, modify_kyc-Maintains) depth 40

submit_kyc-Maintains : (now user_id : ℕ) → Maintains IsPaid (submit_kyc now user_id)
unfolding submit_kyc get_kyc_status
submit_kyc-Maintains now user_id = search (maintain_rules, or_submit-Maintains) depth 40

-- Whatever verifications are submitted and however administrators review them, approvals that are taken back
-- and repeated included: no user earns a second referral reward, and the rewards add up to what the treasury
-- shows as paid for referrals.
pub serve-IsPaid : (requests : List Request) (db : Db) → IsPaid db → IsPaid (serve requests db)
serve-IsPaid [] db s = s
serve-IsPaid (Request.submits now u ∷ rest) db s =
    serve-IsPaid rest _ (((submit_kyc-Maintains now u).at (at_rest db)).keeps (s, s)).0
serve-IsPaid (Request.reviews p u status by' ∷ rest) db s =
    serve-IsPaid rest _
      (((update_kyc_admin-Maintains p u status by').at (at_rest db)).keeps (s, s)).0
