-- ===== src/Auth/Referrals/Again.antt =====
-- Asking for a reward again.
use tokenization.Common.{
  ℕ, ◌≡◌, refl, inl, inr, Bool, true, Option, none, some, List, [], ◌∷◌, ◌++◌, Bool-cases,
  Option-cases, ◌==◌, ◌≤◌, arith, false, Member, All-at,
}
use tokenization.Common.Table.{select_where, fetch_one}
use tokenization.Common.First.{IsOrder, IsFirst, order_by-IsFirst}
use tokenization.Common.Int.{ℤ, pos, ◌-ℤ◌}
use tokenization.Common.Sort.{order_by}
use tokenization.Database.Users.{ReferralReward}
use tokenization.Database.Model.{TreasuryEntry, Db}
use tokenization.Database.Tx.{Result, ok, Conn, ◌>>=◌, pure, query, raise_if, modify}
use tokenization.Market.Treasury.{balance_after, get_latest_treasury_entry, newer_entry}
use tokenization.Auth.Sessions.{is_user}
use tokenization.Auth.Referrals.{
  Payment, is_reward_for, reward_row, reward_entry, referrer_of, pay_reward, unless_rewarded,
  reward_referrer, get_referral_reward_by_referred_user, create_referral_signup_reward,
}

-- The only row of a kind is found after it is appended.
fetch_one-appended :
    {A : Type 0} (p : A → Bool) (rows : List A) (r : A)
    → fetch_one (select_where p rows) ≡ none
    → p r ≡ true
    → fetch_one (select_where p (rows ++ r ∷ [])) ≡ some r
unfolding select_where
fetch_one-appended p [] r h e = rw e refl
fetch_one-appended p (x ∷ xs) r h e = elim (Bool-cases (p x)) [
  | inl t ↦ let found : some x ≡ none = rw t at h in absurd (cc)
  | inr t ↦
      let rest : fetch_one (select_where p xs) ≡ none = rw t at h in
      rw t (fetch_one-appended p xs r rest e)
]

abbrev reward_of : Db → ℕ → Option ReferralReward
reward_of db user_id = fetch_one (select_where (is_reward_for user_id) db.rewards)

abbrev referrer_in : Db → ℕ → Option ℕ
referrer_in db user_id = referrer_of (fetch_one (select_where (is_user user_id) db.users))

-- The balance after the latest entry, or 0 before the first one.
pub data LatestBalance (treasury : List TreasuryEntry) : ℤ → Type 0 where
  no_entry : treasury ≡ [] → LatestBalance treasury (pos 0)
  after_entry :
      (e : TreasuryEntry)
      → Member e treasury
      → ((x : TreasuryEntry) → Member x treasury → x.created_at ≤ e.created_at)
      → LatestBalance treasury e.balance_after_sat

newer_entry-IsOrder : IsOrder newer_entry
newer_entry-IsOrder = record { asym = λ a b h. ground arith; skip = λ a b c h k. ground arith }

latest-LatestBalance :
    (treasury : List TreasuryEntry)
    → LatestBalance treasury (balance_after (fetch_one (order_by newer_entry treasury)))
latest-LatestBalance treasury =
    of_first (fetch_one (order_by newer_entry treasury))
      (order_by-IsFirst newer_entry newer_entry-IsOrder treasury)
  where
    of_first :
        (o : Option TreasuryEntry)
        → IsFirst newer_entry treasury o
        → LatestBalance treasury (balance_after o)
    of_first none h = no_entry h
    of_first (some e) (m, first) = after_entry e m (λ x n.
        let behind : newer_entry x e ≡ false =
          All-at (λ y. newer_entry y e ≡ false) treasury x first n in
        ground (arith, behind))

-- A new reward with its entry in the treasury, which takes the amount from the latest balance.
pub record IsPayment (p : Payment) (referrer_id user_id amount_sat : ℕ) (db : Db)
    (r : ReferralReward) (e : TreasuryEntry) : Type 0 where
  pub to_referrer : r.referrer_id ≡ referrer_id
  pub for_user : r.referred_user_id ≡ user_id
  pub of_amount : r.amount_sat ≡ amount_sat
  pub at_once : r.credited_at ≡ p.now
  pub for_reward : e.source_referral_reward_id ≡ some r.id
  pub same_amount : e.amount_sat ≡ amount_sat
  pub before : ℤ
  pub latest : LatestBalance db.treasury before
  pub taken : e.balance_after_sat ≡ before -ℤ pos amount_sat

-- Asking for the reward of a user: nothing without a referrer; the reward that is there, if there is one;
-- else the new reward.
pub data Rewards (p : Payment) (user_id amount_sat : ℕ) (c : Conn)
    : Result (Option ReferralReward) × Conn → Type 0 where
  unreferred : referrer_in c.current user_id ≡ none → Rewards p user_id amount_sat c (ok none, c)
  rewarded :
      (referrer_id : ℕ) (r : ReferralReward)
      → referrer_in c.current user_id ≡ some referrer_id
      → reward_of c.current user_id ≡ some r
      → Rewards p user_id amount_sat c (ok (some r), c)
  paid :
      (referrer_id : ℕ) (r : ReferralReward) (e : TreasuryEntry)
      → referrer_in c.current user_id ≡ some referrer_id
      → reward_of c.current user_id ≡ none
      → IsPayment p referrer_id user_id amount_sat c.current r e
      → Rewards p user_id amount_sat c (
        ok (some r),
        record c {
          current = record c.current {
            rewards = c.current.rewards ++ r ∷ [];
            treasury = c.current.treasury ++ e ∷ [];
          };
        },
      )

create-Rewards :
    (p : Payment) (user_id amount_sat : ℕ) (c : Conn)
    → Rewards p user_id amount_sat c (create_referral_signup_reward p user_id amount_sat c)
unfolding create_referral_signup_reward reward_referrer get_referral_reward_by_referred_user
    unless_rewarded pay_reward get_latest_treasury_entry ◌>>=◌ query raise_if modify pure
create-Rewards p user_id amount_sat c = elim (Option-cases (referrer_in c.current user_id)) [
  | inl nobody ↦ rw nobody (unreferred nobody)
  | inr (referrer_id, found) ↦ elim (Option-cases (reward_of c.current user_id)) [
    | inl unpaid ↦
        rw (found, unpaid, unpaid)
          (paid referrer_id (reward_row p referrer_id user_id amount_sat)
            (reward_entry p amount_sat (fetch_one (order_by newer_entry c.current.treasury))) found
            unpaid
            (record {
              to_referrer = refl;
              for_user = refl;
              of_amount = refl;
              at_once = refl;
              for_reward = refl;
              same_amount = refl;
              before = balance_after (fetch_one (order_by newer_entry c.current.treasury));
              latest = latest-LatestBalance c.current.treasury;
              taken = refl;
            }))
    | inr (r, there) ↦ rw (found, there) (rewarded referrer_id r found there)
  ]
]

-- The same answer again, without a change.
abbrev Repeats : Payment → ℕ → ℕ → Result (Option ReferralReward) × Conn → Type 0
Repeats p user_id amount_sat out = create_referral_signup_reward p user_id amount_sat out.1 ≡ out

again_from :
    (p q : Payment) (user_id amount_sat amount' : ℕ) (c : Conn)
    (out : Result (Option ReferralReward) × Conn)
    → Rewards p user_id amount_sat c out
    → Repeats q user_id amount' out
unfolding create_referral_signup_reward reward_referrer get_referral_reward_by_referred_user
    unless_rewarded ◌>>=◌ query pure
again_from p q user_id amount_sat amount' c _ (unreferred nobody) = rw nobody refl
again_from p q user_id amount_sat amount' c _ (rewarded referrer_id r found there) =
    rw (found, there) refl
again_from p q user_id amount_sat amount' c _ (paid referrer_id r e found unpaid payment) =
    let own : (r.referred_user_id == user_id) ≡ true = ground (arith, payment.for_user) in
    let there = fetch_one-appended (is_reward_for user_id) c.current.rewards r unpaid own in
    rw (found, there) refl

-- Asking for the referral reward of a user a second time, at whatever time and with whatever amount, gives
-- the same answer as the first time and changes nothing; and the first time, there is no reward for a user
-- without a referrer, the reward that is there is given back, and else a new one of the amount is written for the
-- referrer, with a treasury entry whose balance is that of the latest entry less the amount.
pub create_referral_signup_reward-again :
    (p q : Payment) (user_id amount_sat amount' : ℕ) (c : Conn)
    → let out = create_referral_signup_reward p user_id amount_sat c in
      Rewards p user_id amount_sat c out
      × (create_referral_signup_reward q user_id amount' out.1 ≡ out)
create_referral_signup_reward-again p q user_id amount_sat amount' c =
    let first = create-Rewards p user_id amount_sat c in
    (first, again_from p q user_id amount_sat amount' c _ first)
