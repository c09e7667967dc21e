-- ===== src/Common/Pages/Walk.antt =====
-- The rows of all pages.
use tokenization.Common.{
  ℕ, zero, suc, ◌+◌, ◌≤◌, ◌≡◌, refl, sym, inl, inr, arith, ◌==◌, true, Option, none, some, List, [],
  ◌∷◌, ◌++◌, Bool-cases, ltb, length, take, drop, length-append, ==_refl,
}
use tokenization.Common.Table.{count_where, count_where-append}
use tokenization.Common.Pages.{last_of, init_of, index_after, start_index, page_at, walk}

module _ {A : Type 0} where
  ++_assoc : (xs ys zs : List A) → (xs ++ ys) ++ zs ≡ xs ++ (ys ++ zs)
  ++_assoc [] ys zs = refl
  ++_assoc (x ∷ xs) ys zs = rw (++_assoc xs ys zs) refl

  ++_nil : (xs : List A) → xs ++ [] ≡ xs
  ++_nil [] = refl
  ++_nil (x ∷ xs) = rw (++_nil xs) refl

  nil_of_length : (xs : List A) → length xs ≤ 0 → xs ≡ []
  nil_of_length [] h = refl
  nil_of_length (x ∷ xs) h = absurd (omega (arith, h))

  take-drop : (n : ℕ) (xs : List A) → take n xs ++ drop n xs ≡ xs
  take-drop zero xs = refl
  take-drop (suc n) [] = refl
  take-drop (suc n) (x ∷ xs) = rw (take-drop n xs) refl

  length-take-drop : (n : ℕ) (xs : List A) → length (take n xs) + length (drop n xs) ≡ length xs
  length-take-drop zero xs = omega arith
  length-take-drop (suc n) [] = refl
  length-take-drop (suc n) (x ∷ xs) = omega (arith, length-take-drop n xs)

  take_all : (n : ℕ) (xs : List A) → length (drop n xs) ≤ 0 → take n xs ≡ xs
  take_all zero xs h = sym (nil_of_length xs h)
  take_all (suc n) [] h = refl
  take_all (suc n) (x ∷ xs) h = rw (take_all n xs h) refl

  drop-append : (xs ys : List A) → drop (length xs) (xs ++ ys) ≡ ys
  drop-append [] ys = refl
  drop-append (x ∷ xs) ys = drop-append xs ys

  page_split :
      (x : A) (page after : List A) → x ∷ (page ++ after) ≡ init_of x page ++ last_of x page ∷ after
  page_split x [] after = refl
  page_split x (y ∷ page) after = rw (page_split y page after) refl

  length-init_of : (x : A) (page : List A) → length (init_of x page) ≡ length page
  length-init_of x [] = refl
  length-init_of x (y ∷ page) = rw (length-init_of y page) refl

module _ {A : Type 0} (id : A → ℕ) where
  -- The index after a row whose identifier no row before it has.
  index_after_row :
      (before after : List A) (x : A)
      → count_where (λ a. id a == id x) before ≡ 0
      → index_after id (id x) (before ++ x ∷ after) ≡ some (suc (length before))
  unfolding index_after count_where
  index_after_row [] after x h = rw (==_refl (id x)) refl
  index_after_row (y ∷ before) after x h = elim (Bool-cases (id y == id x)) [
    | inl e ↦ absurd (ground arith)
    | inr e ↦ rw (e, index_after_row before after x (ground arith)) refl
  ]

  module _ (rows : List A) (keys : (k : ℕ) → count_where (λ a. id a == k) rows ≤ 1) where
    none_before :
        (before after : List A) (x : A)
        → rows ≡ before ++ x ∷ after
        → count_where (λ a. id a == id x) before ≡ 0
    unfolding count_where
    none_before before after x e =
        let total : count_where (λ a. id a == id x) (before ++ x ∷ after) ≤ 1 =
          rw e at (keys (id x)) in
        let parts : count_where (λ a. id a == id x) before
              + count_where (λ a. id a == id x) (x ∷ after)
            ≤ 1 =
          rw (count_where-append (λ a. id a == id x) before (x ∷ after)) at total in
        let own : (id x == id x) ≡ true = ==_refl (id x) in omega (arith, rw own at parts)

    -- The cursor of a page leads behind it.
    index_after_page :
        (before page after : List A) (x : A)
        → rows ≡ before ++ ((x ∷ page) ++ after)
        → index_after id (id (last_of x page)) rows ≡ some (length (before ++ x ∷ page))
    index_after_page before page after x e =
        let front = before ++ init_of x page in
        let split : rows ≡ front ++ last_of x page ∷ after =
          rw (e, page_split x page after, ++_assoc before (init_of x page) (last_of x page ∷ after))
            refl in
        let found =
          index_after_row front after (last_of x page)
            (none_before front after (last_of x page) split) in
        let size : length (before ++ x ∷ page) ≡ suc (length front) = omega (
          arith,
          length-append before (x ∷ page),
          length-append before (init_of x page),
          length-init_of x page,
        ) in
        rw (size, split) found

    -- From a cursor that leads to the rows after `before`, the pages are those rows.
    walk_from :
        (fuel limit : ℕ) (before after : List A) (cursor : Option (Option ℕ))
        (paged : Option (Option ℕ) → Option (List A × Option ℕ))
        → ((c : Option (Option ℕ)) (start : ℕ)
            → start_index id rows c ≡ some start
            → paged c ≡ some (page_at id rows (suc limit) start))
        → rows ≡ before ++ after
        → start_index id rows cursor ≡ some (length before)
        → length after ≤ fuel
        → walk (suc fuel) paged cursor ≡ after
    unfolding walk
    walk_from fuel limit before [] cursor paged asks e start enough =
        rw (asks cursor (length before) start, e, drop-append before []) refl
    walk_from zero limit before (x ∷ after) cursor paged asks e start enough =
        absurd (omega (arith, enough))
    walk_from (suc fuel) limit before (x ∷ after) cursor paged asks e start enough =
        let page = x ∷ take limit after in
        let behind = drop limit after in
        let whole : rows ≡ before ++ (page ++ behind) = rw (take-drop limit after) e in
        let size = length-take-drop limit after in
        let shown : drop (length before) rows ≡ x ∷ after = rw e (drop-append before (x ∷ after)) in
        let asked = asks cursor (length before) start in
        elim (Bool-cases (ltb (length before + length page) (length rows))) [
          | inl more ↦
              let next =
                walk_from fuel limit (before ++ page) behind
                  (some (some (id (last_of x (take limit after))))) paged asks
                  (rw (++_assoc before page behind) whole)
                  (index_after_page before (take limit after) behind x whole)
                  (omega (arith, size, enough)) in
              rw (asked, shown, more, next, take-drop limit after) refl
          | inr done ↦
              let all : length rows ≡ length before + length (x ∷ after) =
                rw e (length-append before (x ∷ after)) in
              let full : take limit after ≡ after =
                take_all limit after (ground (arith, all, size)) in
              rw (asked, shown, done, full) refl
        ]

    -- Without a cursor, the pages are all rows, each once and in order.
    pub walk_enough :
        (fuel limit : ℕ) (paged : Option (Option ℕ) → Option (List A × Option ℕ))
        → length rows ≤ fuel
        → 1 ≤ limit
        → ((c : Option (Option ℕ)) (start : ℕ)
            → start_index id rows c ≡ some start
            → paged c ≡ some (page_at id rows limit start))
        → walk (suc fuel) paged none ≡ rows
    walk_enough fuel zero paged enough pos asks = absurd (omega (arith, pos))
    walk_enough fuel (suc limit) paged enough pos asks =
        walk_from fuel limit [] rows none paged asks refl refl enough

    pub walk_all :
        (limit : ℕ) (paged : Option (Option ℕ) → Option (List A × Option ℕ))
        → 1 ≤ limit
        → ((c : Option (Option ℕ)) (start : ℕ)
            → start_index id rows c ≡ some start
            → paged c ≡ some (page_at id rows limit start))
        → walk (suc (length rows)) paged none ≡ rows
    walk_all limit paged pos asks = walk_enough (length rows) limit paged (omega arith) pos asks
