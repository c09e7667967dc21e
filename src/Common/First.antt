-- ===== src/Common/First.antt =====
-- The first row of an ORDER BY.
use mathlib.Core.Path.{◌≡◌, refl}
use mathlib.Core.Bool.{Bool, true, false, ◌&&◌}
use mathlib.Core.Logic.{inl, inr}
use mathlib.Core.Option.{Option, none, some}
use mathlib.Core.List.{List, [], ◌∷◌}
use native.Mathlib.Omega.{arith}
use tokenization.Common.Tests.{Bool-cases}
use tokenization.Common.Lists.{Member, All, All-map}
use tokenization.Common.Table.{select_where, fetch_one}
use tokenization.Common.Ordered.{select_where-Member}
use tokenization.Common.Sort.{order_by, insert_row}

-- A strict weak order, as ORDER BY on columns gives one.
pub record IsOrder {A : Type 0} (before : A → A → Bool) : Type 0 where
  pub asym : (a b : A) → before a b ≡ true → before b a ≡ false
  pub skip : (a b c : A) → before a b ≡ false → before b c ≡ false → before a c ≡ false

-- The row is listed, and none of the others is ahead of it.
abbrev pub IsFirst : {A : Type 0} → (A → A → Bool) → List A → Option A → Type 0
IsFirst before xs none = xs ≡ []
IsFirst before xs (some r) = Member r xs × All (λ a. before a r ≡ false) xs

irreflexive : {A : Type 0} (before : A → A → Bool) → IsOrder before → (a : A) → before a a ≡ false
irreflexive before o a = elim (Bool-cases (before a a)) [ inl e ↦ o.asym a a e | inr e ↦ e ]

insert_row-IsFirst :
    {A : Type 0} (before : A → A → Bool)
    → IsOrder before
    → (x : A) (xs ys : List A) → IsFirst before xs (fetch_one ys)
    → IsFirst before (x ∷ xs) (fetch_one (insert_row before x ys))
insert_row-IsFirst before o x xs [] h = rw h (inl refl, (irreflexive before o x, tt))
insert_row-IsFirst before o x xs (y ∷ ys) (m, a) = elim (Bool-cases (before y x)) [
  | inl e ↦ rw e (inr m, (o.asym y x e, a))
  | inr e ↦ rw e (
    inl refl,
    (
      irreflexive before o x,
      All-map (λ b. before b y ≡ false) (λ b. before b x ≡ false) xs (λ b h. o.skip b y x h e) a,
    ),
  )
]

pub order_by-IsFirst :
    {A : Type 0} (before : A → A → Bool)
    → IsOrder before
    → (xs : List A) → IsFirst before xs (fetch_one (order_by before xs))
unfolding order_by
order_by-IsFirst before o [] = refl
order_by-IsFirst before o (x ∷ xs) =
    insert_row-IsFirst before o x xs (order_by before xs) (order_by-IsFirst before o xs)

-- The best of the rows that meet a test, or no row if none meets it.
abbrev pub IsBest : {A : Type 0} → (A → Bool) → (A → A → Bool) → List A → Option A → Type 0
IsBest p before rows none = All (λ a. p a ≡ false) rows
IsBest p before rows (some r) =
    Member r rows × (p r ≡ true) × All (λ a. (p a && before a r) ≡ false) rows

module _ {A : Type 0} (p : A → Bool) where
  none_selected : (rows : List A) → select_where p rows ≡ [] → All (λ a. p a ≡ false) rows
  unfolding select_where
  none_selected [] h = tt
  none_selected (x ∷ rows) h = elim (Bool-cases (p x)) [
    | inl e ↦ absurd (ground (arith, rw e at h))
    | inr e ↦ (e, none_selected rows (rw e at h))
  ]

  unselected :
      (q : A → Bool) (rows : List A)
      → All (λ a. q a ≡ false) (select_where p rows)
      → All (λ a. (p a && q a) ≡ false) rows
  unfolding select_where
  unselected q [] h = tt
  unselected q (x ∷ rows) h = elim (Bool-cases (p x)) [
    | inl e ↦
        let k : All (λ a. q a ≡ false) (x ∷ select_where p rows) = rw e at h in
        (rw (e, k.0) refl, unselected q rows k.1)
    | inr e ↦ (rw e refl, unselected q rows (rw e at h))
  ]

  IsBest-of_first :
      (before : A → A → Bool) (rows : List A) (r : Option A)
      → IsFirst before (select_where p rows) r
      → IsBest p before rows r
  IsBest-of_first before rows none h = none_selected rows h
  IsBest-of_first before rows (some r) (m, a) =
      let (found, meets) = select_where-Member p r rows m in
      (found, meets, unselected (λ x. before x r) rows a)

  -- SELECT .. WHERE p ORDER BY before LIMIT 1
  pub order_by-IsBest :
      (before : A → A → Bool)
      → IsOrder before
      → (rows : List A) → IsBest p before rows (fetch_one (order_by before (select_where p rows)))
  order_by-IsBest before o rows =
      IsBest-of_first before rows _ (order_by-IsFirst before o (select_where p rows))
