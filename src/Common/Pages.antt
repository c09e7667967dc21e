-- ===== src/Common/Pages.antt =====
-- Cursor paging: a page of a list of rows, and the walk through all pages.
pub mod Walk
pub mod Cut
use tokenization.Common.{
  ℕ, zero, suc, ◌+◌, ◌≤◌, ◌≡◌, refl, sym, inl, inr, arith, ◌==◌, ◌&&◌, if◌then◌else◌, Bool, true,
  false, Option, none, some, List, [], ◌∷◌, ◌++◌, Bool-cases, ltb, length, take, drop,
  length-append, ==_refl,
}
use tokenization.Common.Table.{count_where, count_where-append}

module _ {A : Type 0} where
  abbrev pub last_of : A → List A → A
  last_of x [] = x
  last_of x (y ∷ ys) = last_of y ys

  -- All rows but the last.
  abbrev pub init_of : A → List A → List A
  init_of x [] = []
  init_of x (y ∷ ys) = x ∷ init_of y ys

module _ {A : Type 0} (id : A → ℕ) where
  abbrev pub next_index : Bool → Option ℕ → Option ℕ
  next_index true later = some 1
  next_index false none = none
  next_index false (some i) = some (suc i)

  -- The index after the first row with the identifier.
  unfoldable pub index_after : ℕ → List A → Option ℕ
  index_after cursor [] = none
  index_after cursor (x ∷ xs) =
      let later = index_after cursor xs in next_index (id x == cursor) later

  -- A cursor is absent, no identifier at all, or an identifier.
  abbrev pub start_index : List A → Option (Option ℕ) → Option ℕ
  start_index rows none = some 0
  start_index rows (some none) = none
  start_index rows (some (some cursor)) = index_after cursor rows

  abbrev pub next_cursor : Bool → List A → Option ℕ
  next_cursor has_more [] = none
  next_cursor has_more (x ∷ xs) = if has_more then some (id (last_of x xs)) else none

  -- The page at an index, and the cursor of the next one.
  abbrev pub page_at : List A → ℕ → ℕ → List A × Option ℕ
  page_at rows limit start =
      let page = take limit (drop start rows) in
      (page, next_cursor (ltb (start + length page) (length rows)) page)

module _ {A : Type 0} where
  abbrev pub follow : Option (List A × Option ℕ) → (ℕ → List A) → List A
  follow none rest = []
  follow (some (page, none)) rest = page
  follow (some (page, some cursor)) rest = page ++ rest cursor

  -- The rows of all pages from a cursor on, each page asked for with the cursor that the one before gave.
  unfoldable pub walk :
      ℕ → (Option (Option ℕ) → Option (List A × Option ℕ)) → Option (Option ℕ) → List A
  walk zero paged cursor = []
  walk (suc fuel) paged cursor = follow (paged cursor) (λ c. walk fuel paged (some (some c)))
