-- ===== src/Market/Paging.antt =====
-- The pages of orders and of trades (services/marketplace/main.py, _build_page).
mod Tests
use tokenization.Common.{ℕ, suc, ◌+◌, ◌≤◌, ◌≡◌, refl, ◌==◌, Option, none, some, List, length}
use tokenization.Common.Table.{count_where}
use tokenization.Common.Pages.{start_index, page_at, walk}
use tokenization.Common.Pages.Walk.{walk_all}
use tokenization.Database.Tx.{Result, ok, err, contract_error, Refusal}

module _ {A : Type 0} (id : A → ℕ) where
  abbrev pub page_or_refuse : List A → ℕ → Option ℕ → Result (List A × Option ℕ)
  page_or_refuse rows limit none = err (contract_error Refusal.invalid_cursor)
  page_or_refuse rows limit (some start) = ok (page_at id rows limit start)

  -- The cursor is absent, no identifier at all, or an identifier.
  unfoldable pub build_page : List A → Option (Option ℕ) → ℕ → Result (List A × Option ℕ)
  build_page rows cursor limit = page_or_refuse rows limit (start_index id rows cursor)

abbrev pub answered : {A : Type 0} → Result A → Option A
answered (ok a) = some a
answered (err e) = none

-- With unique identifiers and a positive limit, the pages that a client gets by handing back each page's
-- cursor, from no cursor on, are all rows, each once and in their order; as many requests as there are rows,
-- and one, are enough.
pub build_page-walk :
    {A : Type 0} (id : A → ℕ) (rows : List A) (limit : ℕ)
    → ((k : ℕ) → count_where (λ a. id a == k) rows ≤ 1)
    → 1 ≤ limit
    → walk (suc (length rows)) (λ cursor. answered (build_page id rows cursor limit)) none ≡ rows
unfolding build_page
build_page-walk id rows limit keys pos = walk_all id rows keys limit _ pos (λ c start e. rw e refl)
