-- ===== src/Common/Sort.antt =====
-- ORDER BY: a stable insertion sort by a comparison of rows.
use mathlib.Core.Bool.{Bool}
use mathlib.Core.List.{List, [], ◌∷◌}
use tokenization.Common.Tests.{if◌then◌else◌}

module _ {ℓ} {A : Type ℓ} where
  abbrev pub insert_row : (A → A → Bool) → A → List A → List A
  insert_row before x [] = x ∷ []
  insert_row before x (y ∷ ys) = if before y x then y ∷ insert_row before x ys else x ∷ y ∷ ys

  -- `before a b` says that the row `a` is listed ahead of the row `b`.
  unfoldable pub order_by : (A → A → Bool) → List A → List A
  order_by before [] = []
  order_by before (x ∷ xs) = insert_row before x (order_by before xs)
