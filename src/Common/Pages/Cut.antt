-- ===== src/Common/Pages/Cut.antt =====
-- The page of a service that asks whether the limit reaches behind the last row.
use tokenization.Common.{
  ℕ, zero, suc, ◌+◌, ◌≡◌, refl, arith, min, Option, List, [], ◌∷◌, length, take, drop, ltb,
}
use tokenization.Common.Pages.{next_cursor, page_at}

module _ {A : Type 0} where
  length-take : (n : ℕ) (xs : List A) → length (take n xs) ≡ min n (length xs)
  length-take zero xs = omega arith
  length-take (suc n) [] = omega arith
  length-take (suc n) (x ∷ xs) = omega (arith, length-take n xs)

  length-drop :
      (n : ℕ) (xs : List A) (y : A) (ys : List A)
      → drop n xs ≡ y ∷ ys
      → length xs ≡ n + suc (length ys)
  length-drop zero xs y ys e = rw e (omega arith)
  length-drop (suc n) [] y ys e = absurd (cc)
  length-drop (suc n) (x ∷ xs) y ys e = omega (arith, length-drop n xs y ys e)

module _ {A : Type 0} (id : A → ℕ) where
  abbrev pub page_by_limit : List A → ℕ → ℕ → List A × Option ℕ
  page_by_limit rows limit start =
      let page = take limit (drop start rows) in
      (page, next_cursor id (ltb (start + limit) (length rows)) page)

  same_next :
      (rows rest : List A) (limit start : ℕ)
      → drop start rows ≡ rest
      → page_by_limit rows limit start ≡ page_at id rows limit start
  same_next rows [] zero start e = refl
  same_next rows [] (suc limit) start e = rw e refl
  same_next rows (y ∷ ys) zero start e = refl
  same_next rows (y ∷ ys) (suc limit) start e =
      let flag : ltb (start + suc limit) (length rows)
          ≡ ltb (start + suc (length (take limit ys))) (length rows) =
        rw (length-take limit ys, length-drop start rows y ys e) (ground arith) in
      rw (e, flag) refl

  -- The two tests of the services for a next page agree.
  pub page_by_limit-page_at :
      (rows : List A) (limit start : ℕ)
      → page_by_limit rows limit start ≡ page_at id rows limit start
  page_by_limit-page_at rows limit start = same_next rows (drop start rows) limit start refl
