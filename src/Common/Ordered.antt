-- ===== src/Common/Ordered.antt =====
-- What ORDER BY and WHERE leave of a table: the rows that are asked for, in order.
use tokenization.Common.{
  refl, ℕ, suc, ap, ◌∙◌, length, ◌==◌, ◌≤◌, ◌≡◌, inl, inr, Bool, true, false, List, [], ◌∷◌, arith,
  Member, All, All-map, Bool-cases,
}
use tokenization.Common.Table.{select_where, count_where}
use tokenization.Common.Sort.{order_by, insert_row}

-- Each entry's measure is at least that of all that follow.
abbrev pub Descending : {A : Type 0} → (A → ℕ) → List A → Type 0
Descending f [] = Unit
Descending f (x ∷ xs) = All (λ y. f y ≤ f x) xs × Descending f xs

-- The rows that are asked for, and no others, each once, in descending order of a measure.
pub record Lists {A : Type 0} (Wanted : A → Type 0) (key measure : A → ℕ) (rows listed : List A)
    : Type 0 where
  pub only : (a : A) → Member a listed → Member a rows × Wanted a
  pub all : (a : A) → Member a rows → Wanted a → Member a listed
  pub once : (k : ℕ) → count_where (λ a. key a == k) listed ≤ 1
  pub descending : Descending measure listed

module _ {A : Type 0} (before : A → A → Bool) where
  length-insert_row : (x : A) (ys : List A) → length (insert_row before x ys) ≡ suc (length ys)
  length-insert_row x [] = refl
  length-insert_row x (y ∷ ys) = elim (Bool-cases (before y x)) [
    | inl e ↦ rw e (ap suc (length-insert_row x ys))
    | inr e ↦ rw e refl
  ]

  pub length-order_by : (xs : List A) → length (order_by before xs) ≡ length xs
  unfolding order_by
  length-order_by [] = refl
  length-order_by (x ∷ xs) = length-insert_row x (order_by before xs) ∙ ap suc (length-order_by xs)

  insert_row-Member :
      (x a : A) (ys : List A) → Member a (insert_row before x ys) → Member a (x ∷ ys)
  insert_row-Member x a [] m = m
  insert_row-Member x a (y ∷ ys) m = elim (Bool-cases (before y x)) [
    | inr e ↦ rw e at m
    | inl e ↦
        let n : Member a (y ∷ insert_row before x ys) = rw e at m in
        elim n [
          | inl h ↦ inr (inl h)
          | inr k ↦ elim (insert_row-Member x a ys k) [ inl h ↦ inl h | inr l ↦ inr (inr l) ]
        ]
  ]

  Member-insert_row :
      (x a : A) (ys : List A) → Member a (x ∷ ys) → Member a (insert_row before x ys)
  Member-insert_row x a [] m = m
  Member-insert_row x a (y ∷ ys) m = elim (Bool-cases (before y x)) [
    | inr e ↦ rw e m
    | inl e ↦ rw e (elim m [
      | inl h ↦ inr (Member-insert_row x a ys (inl h))
      | inr n ↦ elim n [ inl h ↦ inl h | inr k ↦ inr (Member-insert_row x a ys (inr k)) ]
    ])
  ]

  pub order_by-Member : (a : A) (xs : List A) → Member a (order_by before xs) → Member a xs
  unfolding order_by
  order_by-Member a [] m = m
  order_by-Member a (x ∷ xs) m = elim (insert_row-Member x a (order_by before xs) m) [
    | inl h ↦ inl h
    | inr n ↦ inr (order_by-Member a xs n)
  ]

  pub Member-order_by : (a : A) (xs : List A) → Member a xs → Member a (order_by before xs)
  unfolding order_by
  Member-order_by a [] m = m
  Member-order_by a (x ∷ xs) (inl h) = Member-insert_row x a (order_by before xs) (inl h)
  Member-order_by a (x ∷ xs) (inr m) =
      Member-insert_row x a (order_by before xs) (inr (Member-order_by a xs m))

  module _ (f : A → ℕ) (ahead : (a b : A) → before a b ≡ true → f b ≤ f a)
      (behind : (a b : A) → before a b ≡ false → f a ≤ f b) where
    insert_row-All :
        (x : A) (n : ℕ) (ys : List A)
        → f x ≤ n
        → All (λ y. f y ≤ n) ys
        → All (λ y. f y ≤ n) (insert_row before x ys)
    insert_row-All x n [] h all = (h, tt)
    insert_row-All x n (y ∷ ys) h all = elim (Bool-cases (before y x)) [
      | inl e ↦ rw e (all.0, insert_row-All x n ys h all.1)
      | inr e ↦ rw e (h, all)
    ]

    insert_row-Descending :
        (x : A) (ys : List A) → Descending f ys → Descending f (insert_row before x ys)
    insert_row-Descending x [] d = (tt, tt)
    insert_row-Descending x (y ∷ ys) d = elim (Bool-cases (before y x)) [
      | inl e ↦ rw e (insert_row-All x (f y) ys (ahead y x e) d.0, insert_row-Descending x ys d.1)
      | inr e ↦
          let le = behind y x e in
          rw e (
            (le, All-map (λ z. f z ≤ f y) (λ z. f z ≤ f x) ys (λ z h. omega (arith, h, le)) d.0),
            d,
          )
    ]

    pub order_by-Descending : (xs : List A) → Descending f (order_by before xs)
    unfolding order_by
    order_by-Descending [] = tt
    order_by-Descending (x ∷ xs) =
        insert_row-Descending x (order_by before xs) (order_by-Descending xs)

module _ {A : Type 0} (p : A → Bool) where
  pub length-select_where : (xs : List A) → length (select_where p xs) ≤ length xs
  unfolding select_where
  length-select_where [] = omega arith
  length-select_where (x ∷ xs) = elim (Bool-cases (p x)) [
    | inl e ↦ rw e (omega (arith, length-select_where xs))
    | inr e ↦ rw e (omega (arith, length-select_where xs))
  ]

  pub select_where-Member :
      (a : A) (xs : List A) → Member a (select_where p xs) → Member a xs × (p a ≡ true)
  unfolding select_where
  select_where-Member a [] m = elim m [ ]
  select_where-Member a (x ∷ xs) m = elim (Bool-cases (p x)) [
    | inl e ↦
        let n : Member a (x ∷ select_where p xs) = rw e at m in
        elim n [
          | inl h ↦ (inl h, rw h e)
          | inr k ↦ let (k', hit) = select_where-Member a xs k in (inr k', hit)
        ]
    | inr e ↦ let (k, hit) = select_where-Member a xs (rw e at m) in (inr k, hit)
  ]

  pub Member-select :
      (a : A) (xs : List A) → Member a xs → p a ≡ true → Member a (select_where p xs)
  unfolding select_where
  Member-select a (x ∷ xs) (inl h) e = let hit : p x ≡ true = rw (← h) e in rw hit (inl h)
  Member-select a (x ∷ xs) (inr m) e = elim (Bool-cases (p x)) [
    | inl hit ↦ rw hit (inr (Member-select a xs m e))
    | inr miss ↦ rw miss (Member-select a xs m e)
  ]
  Member-select a [] m e = elim m [ ]

  select_where-All : (P : A → Type 0) (xs : List A) → All P xs → All P (select_where p xs)
  unfolding select_where
  select_where-All P [] all = tt
  select_where-All P (x ∷ xs) all = elim (Bool-cases (p x)) [
    | inl e ↦ rw e (all.0, select_where-All P xs all.1)
    | inr e ↦ rw e (select_where-All P xs all.1)
  ]

  pub select_where-Descending :
      (f : A → ℕ) (xs : List A) → Descending f xs → Descending f (select_where p xs)
  unfolding select_where
  select_where-Descending f [] d = tt
  select_where-Descending f (x ∷ xs) d = elim (Bool-cases (p x)) [
    | inl e ↦ rw e (select_where-All (λ y. f y ≤ f x) xs d.0, select_where-Descending f xs d.1)
    | inr e ↦ rw e (select_where-Descending f xs d.1)
  ]
