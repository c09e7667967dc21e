-- ===== src/Common/Sums.antt =====
-- Sums over a table under UPDATE and INSERT.
use Prim.Native.Nat.{ℕ, ◌+◌, ◌*◌, ◌≤◌, ◌<◌}
use mathlib.Core.Path.{◌≡◌, refl}
use mathlib.Core.Bool.{Bool, true, false}
use mathlib.Core.Logic.{inl, inr}
use mathlib.Core.List.{List, [], ◌∷◌, map}
use native.Mathlib.Omega.{arith}
use tokenization.Common.Tests.{Bool-cases, is_some}
use tokenization.Common.Sort.{insert_row, order_by}
use tokenization.Common.Lists.{Member}
use tokenization.Common.Table.{update_where, sum_by, count_where, select_where, fetch_one}

-- Each of the rows that are updated gives `n` more.
pub sum_by-update_more :
    {A : Type 0} (v : A → ℕ) (p : A → Bool) (g : A → A) (n : ℕ) (xs : List A)
    → ((x : A) → Member x xs → p x ≡ true → v (g x) ≡ v x + n)
    → sum_by v (update_where p g xs) ≡ sum_by v xs + count_where p xs * n
unfolding sum_by update_where count_where
sum_by-update_more v p g n [] h = omega arith
sum_by-update_more v p g n (x ∷ xs) h =
    let ih = sum_by-update_more v p g n xs (λ y m. h y (inr m)) in
    elim (Bool-cases (p x)) [
      | inl e ↦ rw e (omega (arith, ih, h x (inl refl) e))
      | inr e ↦ rw e (omega (arith, ih))
    ]

-- A SELECT that finds a row counts at least one.
pub count_of_fetch_some :
    {A : Type 0} (p : A → Bool) (xs : List A)
    → is_some (fetch_one (select_where p xs)) ≡ true
    → 1 ≤ count_where p xs
unfolding count_where select_where
count_of_fetch_some p [] h = absurd (ground arith)
count_of_fetch_some p (x ∷ xs) h = elim (Bool-cases (p x)) [
  | inl e ↦ rw e (omega arith)
  | inr e ↦ rw e (omega (arith, count_of_fetch_some p xs (rw e at h)))
]

pub count_of_fetch_false :
    {A : Type 0} (p : A → Bool) (xs : List A)
    → is_some (fetch_one (select_where p xs)) ≡ false
    → count_where p xs ≡ 0
unfolding count_where select_where
count_of_fetch_false p [] h = refl
count_of_fetch_false p (x ∷ xs) h = elim (Bool-cases (p x)) [
  | inl e ↦ absurd (ground (arith, rw e at h))
  | inr e ↦ rw e (omega (arith, count_of_fetch_false p xs (rw e at h)))
]

-- Each of the rows that are updated gives `n` less.
pub sum_by-update_less :
    {A : Type 0} (v : A → ℕ) (p : A → Bool) (g : A → A) (n : ℕ) (xs : List A)
    → ((x : A) → p x ≡ true → v (g x) + n ≡ v x)
    → sum_by v (update_where p g xs) + count_where p xs * n ≡ sum_by v xs
unfolding sum_by update_where count_where
sum_by-update_less v p g n [] h = omega arith
sum_by-update_less v p g n (x ∷ xs) h =
    let ih = sum_by-update_less v p g n xs h in
    elim (Bool-cases (p x)) [
      | inl e ↦ rw e (omega (arith, ih, h x e))
      | inr e ↦ rw e (omega (arith, ih))
    ]

-- The rows that UPDATE .. RETURNING gives back are those it selected.
is_some-fetch_one-map :
    {A : Type 0} (g : A → A) (xs : List A) → is_some (fetch_one (map g xs)) ≡ is_some (fetch_one xs)
is_some-fetch_one-map g [] = refl
is_some-fetch_one-map g (x ∷ xs) = refl

pub count_of_fetch_map :
    {A : Type 0} (p : A → Bool) (g : A → A) (xs : List A)
    → is_some (fetch_one (map g (select_where p xs))) ≡ true
    → 1 ≤ count_where p xs
count_of_fetch_map p g xs h =
    count_of_fetch_some p xs (rw (is_some-fetch_one-map g (select_where p xs)) at h)

pub count_of_fetch_map-false :
    {A : Type 0} (p : A → Bool) (g : A → A) (xs : List A)
    → is_some (fetch_one (map g (select_where p xs))) ≡ false
    → count_where p xs ≡ 0
count_of_fetch_map-false p g xs h =
    count_of_fetch_false p xs (rw (is_some-fetch_one-map g (select_where p xs)) at h)

count_where-insert_row :
    {A : Type 0} (q : A → Bool) (before : A → A → Bool) (x : A) (ys : List A)
    → count_where q (insert_row before x ys) ≡ count_where q (x ∷ ys)
unfolding count_where
count_where-insert_row q before x [] = refl
count_where-insert_row q before x (y ∷ ys) = elim (Bool-cases (before y x)) [
  | inl e ↦ rw e (omega (arith, count_where-insert_row q before x ys))
  | inr e ↦ rw e refl
]

-- Sorting neither adds nor loses rows.
pub count_where-order_by :
    {A : Type 0} (q : A → Bool) (before : A → A → Bool) (xs : List A)
    → count_where q (order_by before xs) ≡ count_where q xs
unfolding count_where order_by
count_where-order_by q before [] = refl
count_where-order_by q before (x ∷ xs) =
    let placed = count_where-insert_row q before x (order_by before xs) in
    omega (arith, placed, count_where-order_by q before xs)

-- A selection has no more rows of a kind than the table.
pub count_where-select_where :
    {A : Type 0} (q p : A → Bool) (xs : List A)
    → count_where q (select_where p xs) ≤ count_where q xs
unfolding count_where select_where
count_where-select_where q p [] = omega arith
count_where-select_where q p (x ∷ xs) = elim (Bool-cases (p x)) [
  | inl e ↦ rw e (omega (arith, count_where-select_where q p xs))
  | inr e ↦ rw e (omega (arith, count_where-select_where q p xs))
]

-- No row that is updated gives more than before.
pub sum_by-update_le :
    {A : Type 0} (v : A → ℕ) (p : A → Bool) (g : A → A) (xs : List A)
    → ((x : A) → Member x xs → p x ≡ true → v (g x) ≤ v x)
    → sum_by v (update_where p g xs) ≤ sum_by v xs
unfolding sum_by update_where
sum_by-update_le v p g [] h = omega arith
sum_by-update_le v p g (x ∷ xs) h =
    let ih = sum_by-update_le v p g xs (λ y m. h y (inr m)) in
    elim (Bool-cases (p x)) [
      | inl e ↦ rw e (omega (arith, ih, h x (inl refl) e))
      | inr e ↦ rw e (omega (arith, ih))
    ]

-- Each gives less than before, and there is one.
pub sum_by-update_lt :
    {A : Type 0} (v : A → ℕ) (p : A → Bool) (g : A → A) (xs : List A)
    → ((x : A) → Member x xs → p x ≡ true → v (g x) < v x)
    → 1 ≤ count_where p xs
    → sum_by v (update_where p g xs) < sum_by v xs
unfolding sum_by update_where count_where
sum_by-update_lt v p g [] h one = absurd (omega (arith, one))
sum_by-update_lt v p g (x ∷ xs) h one = elim (Bool-cases (p x)) [
  | inl q ↦
      let rest = sum_by-update_le v p g xs (λ y m t. omega (arith, h y (inr m) t)) in
      rw q (omega (arith, rest, h x (inl refl) q))
  | inr q ↦
      let ih = sum_by-update_lt v p g xs (λ y m. h y (inr m)) (omega (arith, rw q at one)) in
      rw q (omega (arith, ih))
]
