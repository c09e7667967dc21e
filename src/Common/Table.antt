-- ===== src/Common/Table.antt =====
-- A database table as the list of its rows, with the SQL statements that the services issue:
-- SELECT with a condition, UPDATE with a condition and RETURNING, and COALESCE(SUM(..), 0).
use Prim.Native.Nat.{ℕ, ◌+◌, ◌≤◌}
use mathlib.Core.Path.{◌≡◌, refl}
use mathlib.Core.Bool.{Bool, true, false}
use mathlib.Core.Option.{Option, none, some}
use mathlib.Core.Logic.{◌⊎◌, inl, inr}
use mathlib.Core.List.{List, [], ◌∷◌, ◌++◌, map}
use native.Mathlib.Omega.{arith}
use tokenization.Common.Tests.{if◌then◌else◌, Bool-cases}
use tokenization.Common.Lists.{Member}

module _ {ℓ} {A : Type ℓ} where
  -- The rows that meet the condition.
  unfoldable pub select_where : (A → Bool) → List A → List A
  select_where p [] = []
  select_where p (x ∷ xs) = if p x then x ∷ select_where p xs else select_where p xs

  -- The table after an update of the rows that meet the condition.
  unfoldable pub update_where : (A → Bool) → (A → A) → List A → List A
  update_where p g [] = []
  update_where p g (x ∷ xs) = (if p x then g x else x) ∷ update_where p g xs

  -- `fetchone`, `scalar_one_or_none`
  abbrev pub fetch_one : List A → Option A
  fetch_one [] = none
  fetch_one (x ∷ xs) = some x

  unfoldable pub sum_by : (A → ℕ) → List A → ℕ
  sum_by v [] = 0
  sum_by v (x ∷ xs) = v x + sum_by v xs

  -- How many rows meet a condition; a unique key is a count of at most one.
  unfoldable pub count_where : (A → Bool) → List A → ℕ
  count_where p [] = 0
  count_where p (x ∷ xs) = (if p x then 1 else 0) + count_where p xs

  pub sum_by-append : (v : A → ℕ) (xs ys : List A) → sum_by v (xs ++ ys) ≡ sum_by v xs + sum_by v ys
  unfolding sum_by
  sum_by-append v [] ys = omega arith
  sum_by-append v (x ∷ xs) ys = omega (arith, sum_by-append v xs ys)

  pub count_where-append :
      (p : A → Bool) (xs ys : List A)
      → count_where p (xs ++ ys) ≡ count_where p xs + count_where p ys
  unfolding count_where
  count_where-append p [] ys = omega arith
  count_where-append p (x ∷ xs) ys = omega (arith, count_where-append p xs ys)

  -- An update that no condition of the key sees leaves the counts alone.
  pub count_where-update_where :
      (q p : A → Bool) (g : A → A) (xs : List A)
      → ((x : A) → q (g x) ≡ q x)
      → count_where q (update_where p g xs) ≡ count_where q xs
  unfolding count_where update_where
  count_where-update_where q p g [] h = refl
  count_where-update_where q p g (x ∷ xs) h =
      ground (arith, h x, count_where-update_where q p g xs h)

  -- A quantity that the update keeps in each row has the same sum.
  pub sum_by-update_same :
      (v : A → ℕ) (p : A → Bool) (g : A → A) (xs : List A)
      → ((x : A) → v (g x) ≡ v x)
      → sum_by v (update_where p g xs) ≡ sum_by v xs
  unfolding sum_by update_where
  sum_by-update_same v p g [] h = refl
  sum_by-update_same v p g (x ∷ xs) h = ground (arith, h x, sum_by-update_same v p g xs h)

  -- No row is selected: nothing is updated.
  pub update_where_none :
      (p : A → Bool) (g : A → A) (xs : List A) → count_where p xs ≡ 0 → update_where p g xs ≡ xs
  unfolding count_where update_where
  update_where_none p g [] h = refl
  update_where_none p g (x ∷ xs) h = ground (arith, update_where_none p g xs)

  pub count_of_fetch_none :
      (p : A → Bool) (xs : List A) → fetch_one (select_where p xs) ≡ none → count_where p xs ≡ 0
  unfolding count_where select_where
  count_of_fetch_none p [] h = refl
  count_of_fetch_none p (x ∷ xs) h = ground (arith, count_of_fetch_none p xs)

  -- Nothing is selected: nothing is updated.
  pub update_where_unselected :
      (p : A → Bool) (g : A → A) (xs : List A) → [] ≡ select_where p xs → update_where p g xs ≡ xs
  update_where_unselected p g xs e =
      update_where_none p g xs (count_of_fetch_none p xs (rw (← e) refl))

  pub fetch_none_of_count :
      (p : A → Bool) (xs : List A) → count_where p xs ≡ 0 → fetch_one (select_where p xs) ≡ none
  unfolding count_where select_where
  fetch_none_of_count p [] h = refl
  fetch_none_of_count p (x ∷ xs) h = ground (arith, fetch_none_of_count p xs)

-- A row that is selected is counted.
pub count_pos :
    {A : Type 0} (p : A → Bool) (xs : List A) (a : A)
    → p a ≡ true
    → Member a xs
    → 1 ≤ count_where p xs
unfolding count_where
count_pos p [] a e m = elim m [ ]
count_pos p (x ∷ xs) a e (inl s) = let q : p x ≡ true = rw s at e in ground arith
count_pos p (x ∷ xs) a e (inr m) = omega (arith, count_pos p xs a e m)

-- The row that SELECT found meets the condition and stands in the table.
pub fetch_one-select_where :
    {A : Type 0} (p : A → Bool) (xs : List A) (r : A)
    → fetch_one (select_where p xs) ≡ some r
    → (p r ≡ true) × Member r xs
unfolding select_where
fetch_one-select_where p [] r h = absurd (cc)
fetch_one-select_where p (x ∷ xs) r h = elim (Bool-cases (p x)) [
  | inl e ↦ let s : some x ≡ some r = rw e at h in (ground arith, inl (cc))
  | inr e ↦
      let h' : fetch_one (select_where p xs) ≡ some r = rw e at h in
      let (a, b) = fetch_one-select_where p xs r h' in (a, inr b)
]

-- What an UPDATE .. RETURNING says by the row that it returned: the old row.
pub record Updated {A : Type 0} (p : A → Bool) (g : A → A) (xs : List A) (r : A) : Type 0 where
  pub old : A
  pub meets : p old ≡ true
  pub found : Member old xs
  pub returned : r ≡ g old

pub Updated-of_fetch :
    {A : Type 0} (p : A → Bool) (g : A → A) (xs : List A) (r : A)
    → fetch_one (map g (select_where p xs)) ≡ some r
    → Updated p g xs r
unfolding select_where
Updated-of_fetch p g [] r h = absurd (cc)
Updated-of_fetch p g (x ∷ xs) r h = elim (Bool-cases (p x)) [
  | inl e ↦
      let s : some (g x) ≡ some r = rw e at h in
      record { old = x; meets = e; found = inl refl; returned = cc }
  | inr e ↦
      let h' : fetch_one (map g (select_where p xs)) ≡ some r = rw e at h in
      let u = Updated-of_fetch p g xs r h' in
      record { old = u.old; meets = u.meets; found = inr u.found; returned = u.returned }
]

-- With a unique key the sum moves by exactly the one row that is updated.
pub sum_by-update_one :
    {A : Type 0} (v : A → ℕ) (p : A → Bool) (g : A → A) (xs : List A) (a : A)
    → count_where p xs ≤ 1
    → p a ≡ true
    → Member a xs
    → sum_by v (update_where p g xs) + v a ≡ sum_by v xs + v (g a)
unfolding sum_by count_where update_where
sum_by-update_one v p g [] a u e m = elim m [ ]
sum_by-update_one v p g (x ∷ xs) a u e (inl s) =
    let q : p x ≡ true = rw s at e in rw s (ground (arith, update_where_none p g xs))
sum_by-update_one v p g (x ∷ xs) a u e (inr m) = elim (Bool-cases (p x)) [
  | inl q ↦ absurd (ground (arith, count_pos p xs a e m))
  | inr q ↦ ground (arith, sum_by-update_one v p g xs a)
]

-- Two rows under a unique key are one row.
pub unique_row :
    {A : Type 0} (q : A → Bool) (xs : List A) (a b : A)
    → count_where q xs ≤ 1
    → Member a xs
    → Member b xs
    → q a ≡ true
    → q b ≡ true
    → a ≡ b
unfolding count_where
unique_row q [] a b u ma mb qa qb = elim ma [ ]
unique_row q (x ∷ xs) a b u (inl ea) (inl eb) qa qb = cc
unique_row q (x ∷ xs) a b u (inl ea) (inr mb) qa qb =
    let qx : q x ≡ true = rw ea at qa in absurd (ground (arith, count_pos q xs b qb mb))
unique_row q (x ∷ xs) a b u (inr ma) (inl eb) qa qb =
    let qx : q x ≡ true = rw eb at qb in absurd (ground (arith, count_pos q xs a qa ma))
unique_row q (x ∷ xs) a b u (inr ma) (inr mb) qa qb = unique_row q xs a b (ground arith) ma mb qa qb

-- Where a row after an UPDATE comes from.
pub record Origin {A : Type 0} (p : A → Bool) (g : A → A) (xs : List A) (y : A) : Type 0 where
  pub row : A
  pub found : Member row xs
  pub change : ((p row ≡ true) × (y ≡ g row)) ⊎ ((p row ≡ false) × (y ≡ row))

pub Member-update_where :
    {A : Type 0} (p : A → Bool) (g : A → A) (xs : List A) (y : A)
    → Member y (update_where p g xs)
    → Origin p g xs y
unfolding update_where
Member-update_where p g [] y m = elim m [ ]
Member-update_where p g (x ∷ xs) y (inl e) = elim (Bool-cases (p x)) [
  | inl t ↦
      let e' : y ≡ g x = rw t at e in record { row = x; found = inl refl; change = inl (t, e') }
  | inr t ↦ let e' : y ≡ x = rw t at e in record { row = x; found = inl refl; change = inr (t, e') }
]
Member-update_where p g (x ∷ xs) y (inr m) =
    let o = Member-update_where p g xs y m in
    record { row = o.row; found = inr o.found; change = o.change }

-- A row after an INSERT is an old one or the new one.
pub Member-append_one :
    {A : Type 0} (xs : List A) (a y : A) → Member y (xs ++ a ∷ []) → Member y xs ⊎ (y ≡ a)
Member-append_one [] a y (inl e) = inr e
Member-append_one [] a y (inr m) = elim m [ ]
Member-append_one (x ∷ xs) a y (inl e) = inl (inl e)
Member-append_one (x ∷ xs) a y (inr m) = elim (Member-append_one xs a y m) [
  | inl m' ↦ inl (inr m')
  | inr e ↦ inr e
]

-- A narrower condition selects no more rows.
pub count_where_mono :
    {A : Type 0} (p q : A → Bool) (xs : List A)
    → ((x : A) → p x ≡ true → q x ≡ true)
    → count_where p xs ≤ count_where q xs
unfolding count_where
count_where_mono p q [] h = omega arith
count_where_mono p q (x ∷ xs) h = elim (Bool-cases (p x)) [
  | inl e ↦ rw (e, h x e) (omega (arith, count_where_mono p q xs h))
  | inr e ↦ ground (arith, count_where_mono p q xs h)
]

-- No row meets a condition that counts none.
pub none_counted :
    {A : Type 0} (q : A → Bool) (xs : List A) (a : A)
    → count_where q xs ≡ 0
    → Member a xs
    → q a ≡ true
    → ⊥
none_counted q xs a z m e = omega (arith, count_pos q xs a e m)

-- A selected row stands in the table.
pub Member-select_where :
    {A : Type 0} (p : A → Bool) (xs : List A) (a : A) → Member a (select_where p xs) → Member a xs
unfolding select_where
Member-select_where p [] a m = elim m [ ]
Member-select_where p (x ∷ xs) a m = elim (Bool-cases (p x)) [
  | inl e ↦
      let m' : Member a (x ∷ select_where p xs) = rw e at m in
      elim m' [ inl s ↦ inl s | inr t ↦ inr (Member-select_where p xs a t) ]
  | inr e ↦ let m' : Member a (select_where p xs) = rw e at m in inr (Member-select_where p xs a m')
]
