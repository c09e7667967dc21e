-- ===== src/Wallet/Yield/Periods.antt =====
-- The periods of a user's accruals do not overlap.
use tokenization.Common.{
  ℕ, ◌≤◌, ◌<◌, ◌≡◌, refl, sym, inl, inr, arith, true, ◌&&◌, ◌==◌, Option, none, some, List, [], ◌∷◌,
  ◌++◌, ltb, All, All-append, All-map, Member, Bool-cases, Option-cases, get_or,
}
use tokenization.Common.Table.{select_where, fetch_one, count_where, none_counted}
use tokenization.Common.Sums.{count_where-select_where}
use tokenization.Database.Assets.{Token, YieldAccrual}
use tokenization.Database.Model.{Db, TokenBalance}
use tokenization.Database.Tx.{at_rest, ◌>>=◌, query, modify, pure}
use tokenization.Assets.Store.{holds}
use tokenization.Wallet.Yield.{
  is_accrual_of, last_accrued_to, Holding, holding, roi_of, priced, holding_of, start_at,
  accrual_for, accrual_row, accruals_for, is_held_by, accrue_pending_yield_for_user, days_between,
  gross_yield,
}

-- If both rows are of one user and one token, the period of the second starts after that of the first.
abbrev pub Follows : YieldAccrual → YieldAccrual → Type 0
Follows x y = is_accrual_of x.user_id x.token_id y ≡ true → x.accrued_to ≤ y.accrued_from

-- Every period is positive, and no two of a user and a token overlap.
abbrev pub Chained : List YieldAccrual → Type 0
Chained [] = Unit
Chained (x ∷ xs) = (x.accrued_from < x.accrued_to) × (All (Follows x) xs × Chained xs)

Chained-append :
    (xs ys : List YieldAccrual)
    → Chained xs
    → Chained ys
    → All (λ x. All (Follows x) ys) xs
    → Chained (xs ++ ys)
Chained-append [] ys hx hy h = hy
Chained-append (x ∷ xs) ys (positive, (ahead, rest)) hy (hx, h) =
    (positive, (All-append (Follows x) xs ys ahead hx, Chained-append xs ys rest hy h))

-- The latest end is not before any end.
last_accrued_to_latest :
    (u t : ℕ) (xs : List YieldAccrual) (x : YieldAccrual) (d : ℕ)
    → Member x xs
    → is_accrual_of u t x ≡ true
    → x.accrued_to ≤ get_or (last_accrued_to u t xs) d
unfolding last_accrued_to
last_accrued_to_latest u t [] x d m e = elim m [ ]
last_accrued_to_latest u t (a ∷ xs) x d (inl same) e =
    let own : is_accrual_of u t a ≡ true = rw same at e in
    elim (Option-cases (last_accrued_to u t xs)) [
      | inl first ↦ rw (own, first, same) (omega arith)
      | inr (later, found) ↦ rw (own, found, same) (omega arith)
    ]
last_accrued_to_latest u t (a ∷ xs) x d (inr m) e =
    let ih = last_accrued_to_latest u t xs x d m e in
    elim (Bool-cases (is_accrual_of u t a)) [
      | inr other ↦ rw other ih
      | inl own ↦ elim (Option-cases (last_accrued_to u t xs)) [
        | inl nothing ↦
            rw (own, nothing) (rw nothing at (last_accrued_to_latest u t xs x a.accrued_to m e))
        | inr (later, found) ↦ rw (own, found) (omega (arith, rw found at ih))
      ]
    ]

-- Where an inserted row comes from.
record IsAccrued (db : Db) (b : TokenBalance) (r : YieldAccrual) : Type 0 where
  user : r.user_id ≡ b.user_id
  token : r.token_id ≡ b.token_id
  start : r.accrued_from ≡ start_at db b
  positive : r.accrued_from < r.accrued_to

held_priced :
    (db : Db) (b : TokenBalance) (t : Token) (roi : Option ℕ) (h : Holding)
    → priced db b t roi ≡ some h
    → h.held ≡ b
held_priced db b t none h e = absurd (cc)
held_priced db b t (some roi) h e = elim (Bool-cases (ltb 0 roi)) [
  | inl yes_roi ↦
      let made : some (holding db b t roi) ≡ some h = rw yes_roi at e in
      let same : holding db b t roi ≡ h = cc in rw (sym same) refl
  | inr no_roi ↦ absurd (cc (rw no_roi at e))
]

held_by :
    (db : Db) (b : TokenBalance) (t : Option Token) (h : Holding)
    → holding_of db b t ≡ some h
    → h.held ≡ b
held_by db b none h e = absurd (cc)
held_by db b (some t) h e =
    held_priced db b t (roi_of (fetch_one (select_where (λ a. a.id == t.asset_id) db.assets))) h e

accrual_row-IsAccrued :
    (db : Db) (b : TokenBalance) (accrual_id as_of : ℕ) (o : Option Holding) (r : YieldAccrual)
    → ((h : Holding) → o ≡ some h → h.held ≡ b)
    → accrual_for accrual_id as_of (start_at db b) o ≡ some r
    → IsAccrued db b r
accrual_row-IsAccrued db b accrual_id as_of none r own e = absurd (cc)
accrual_row-IsAccrued db b accrual_id as_of (some h) r own e =
    let days = days_between (start_at db b) as_of in
    elim (Bool-cases (ltb 0 days && ltb 0 (gross_yield h days))) [
      | inr no_yield ↦ absurd (cc (rw no_yield at e))
      | inl due ↦
          let row = accrual_row accrual_id as_of (start_at db b) days h in
          let made : some row ≡ some r = rw due at e in
          let same : row ≡ r = cc in
          let mine = own h refl in
          rw (sym same) (record {
            user = rw mine refl;
            token = rw mine refl;
            start = refl;
            positive = ground arith;
          })
    ]

module _ (db : Db) (draw : ℕ → ℕ) (as_of : ℕ) where
  -- The balance that an inserted row is for.
  record Source (bs : List TokenBalance) (r : YieldAccrual) : Type 0 where
    balance : TokenBalance
    found : Member balance bs
    accrued : IsAccrued db balance r

  accrued_for : TokenBalance → Option YieldAccrual
  accrued_for b =
      accrual_for (draw b.id) as_of (start_at db b)
        (holding_of db b (fetch_one (select_where (λ t. t.id == b.token_id) db.tokens)))

  sources : (bs : List TokenBalance) → All (Source bs) (accruals_for db draw as_of bs)
  unfolding accruals_for accrued_for
  sources [] = tt
  sources (b ∷ rest) =
      let later =
        All-map (Source rest) (Source (b ∷ rest)) (accruals_for db draw as_of rest)
          (λ r s. record { balance = s.balance; found = inr s.found; accrued = s.accrued })
          (sources rest) in
      elim (Option-cases (accrued_for b)) [
        | inl none_due ↦ rw none_due later
        | inr (r, due) ↦ rw due (
          record {
            balance = b;
            found = inl refl;
            accrued = accrual_row-IsAccrued db b (draw b.id) as_of _ r (held_by db b _) due;
          },
          later,
        )
      ]

  -- Rows for two balances are of different users or tokens.
  apart :
      (b : TokenBalance) (rest : List TokenBalance) (r y : YieldAccrual)
      → count_where (holds b.user_id b.token_id) rest ≡ 0
      → IsAccrued db b r
      → Source rest y
      → Follows r y
  apart b rest r y free a s e = absurd (
      none_counted (holds b.user_id b.token_id) rest s.balance free s.found
        (rw (sym s.accrued.user, sym s.accrued.token, sym a.user, sym a.token) e))

  new-Chained :
      (bs : List TokenBalance)
      → ((u t : ℕ) → count_where (holds u t) bs ≤ 1)
      → Chained (accruals_for db draw as_of bs)
  unfolding accruals_for accrued_for count_where
  new-Chained [] keys = tt
  new-Chained (b ∷ rest) keys =
      let ih = new-Chained rest (λ u t. omega (arith, keys u t)) in
      elim (Option-cases (accrued_for b)) [
        | inl none_due ↦ rw none_due ih
        | inr (r, due) ↦
            let a = accrual_row-IsAccrued db b (draw b.id) as_of _ r (held_by db b _) due in
            let free : count_where (holds b.user_id b.token_id) rest ≡ 0 =
              ground (arith, keys b.user_id b.token_id) in
            rw due (
              a.positive,
              (
                All-map (Source rest) (Follows r) (accruals_for db draw as_of rest)
                    (λ y s. apart b rest r y free a s) (sources rest),
                ih,
              ),
            )
      ]

  -- A new period starts where the last one ended, or later.
  old_new :
      (bs : List TokenBalance) (x y : YieldAccrual)
      → Member x db.accruals
      → Source bs y
      → Follows x y
  unfolding start_at
  old_new bs x y m s e =
      let b = s.balance in
      let own : is_accrual_of b.user_id b.token_id x ≡ true =
        rw (sym s.accrued.user, sym s.accrued.token) (ground arith) in
      rw s.accrued.start
        (last_accrued_to_latest b.user_id b.token_id db.accruals x b.updated_at m own)

All-of_members :
    {A : Type 0} (P : A → Type 0) (xs : List A) → ((x : A) → Member x xs → P x) → All P xs
All-of_members P [] f = tt
All-of_members P (x ∷ xs) f = (f x (inl refl), All-of_members P xs (λ y m. f y (inr m)))

-- On balances with unique keys, accruing the yield of a user keeps the accruals in order: each period is
-- positive, and of two accruals for one user and one token the later one starts no earlier than the earlier
-- one ends, so that no day is credited twice, however often and at whatever times yield is accrued.
pub accrue_pending_yield-Chained :
    (draw : ℕ → ℕ) (user_id as_of : ℕ) (db : Db)
    → ((u t : ℕ) → count_where (holds u t) db.balances ≤ 1)
    → Chained db.accruals
    → Chained (accrue_pending_yield_for_user draw user_id as_of (at_rest db)).1.current.accruals
unfolding accrue_pending_yield_for_user ◌>>=◌ query modify pure
accrue_pending_yield-Chained draw user_id as_of db keys chained =
    let held = select_where (is_held_by user_id) db.balances in
    let rows = accruals_for db draw as_of held in
    Chained-append db.accruals rows chained
      (new-Chained db draw as_of held (λ u t.
        omega
          (arith, keys u t, count_where-select_where (holds u t) (is_held_by user_id) db.balances)))
      (All-of_members (λ x. All (Follows x) rows) db.accruals
        (λ x m.
          All-map (Source db draw as_of held) (Follows x) rows
            (λ y s. old_new db draw as_of held x y m s) (sources db draw as_of held)))
