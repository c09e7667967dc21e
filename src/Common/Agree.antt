-- ===== src/Common/Agree.antt =====
-- Statements that select the same rows, and what they return.
use tokenization.Common.{
  ◌≡◌, refl, inl, inr, Bool, true, false, Bool-cases, none, some, List, [], ◌∷◌, arith, map, Member,
}
use tokenization.Common.Table.{select_where, update_where, fetch_one}

module _ {A : Type 0} (p q : A → Bool) where
  -- Conditions that agree on the rows of a table select and update the same rows.
  pub update_where_agree :
      (g : A → A) (xs : List A)
      → ((x : A) → Member x xs → p x ≡ q x)
      → update_where p g xs ≡ update_where q g xs
  unfolding update_where
  update_where_agree g [] h = refl
  update_where_agree g (x ∷ xs) h =
      rw (h x (inl refl), update_where_agree g xs (λ y m. h y (inr m))) refl

  pub select_where_agree :
      (xs : List A) → ((x : A) → Member x xs → p x ≡ q x) → select_where p xs ≡ select_where q xs
  unfolding select_where
  select_where_agree [] h = refl
  select_where_agree (x ∷ xs) h =
      rw (h x (inl refl), select_where_agree xs (λ y m. h y (inr m))) refl

-- What UPDATE .. RETURNING gives back first.
pub fetch-map :
    {A : Type 0} (g : A → A) (xs : List A) (a : A)
    → fetch_one xs ≡ some a
    → fetch_one (map g xs) ≡ some (g a)
fetch-map g [] a e = absurd (cc)
fetch-map g (x ∷ xs) a e = ground arith

pub fetch-map-none :
    {A : Type 0} (g : A → A) (xs : List A) → fetch_one xs ≡ none → fetch_one (map g xs) ≡ none
fetch-map-none g [] e = refl
fetch-map-none g (x ∷ xs) e = absurd (cc)

module _ {A : Type 0} (p : A → Bool) (g h : A → A) where
  pub update_where-values :
      (xs : List A)
      → ((x : A) → Member x xs → p x ≡ true → g x ≡ h x)
      → update_where p g xs ≡ update_where p h xs
  unfolding update_where
  update_where-values [] e = refl
  update_where-values (x ∷ xs) e =
      let rest = update_where-values xs (λ y m. e y (inr m)) in
      elim (Bool-cases (p x)) [
        | inl hit ↦ rw (hit, rest, e x (inl refl) hit) refl
        | inr miss ↦ rw (miss, rest) refl
      ]

module _ {A : Type 0} (p : A → Bool) (g : A → A) where
  -- Where a row goes to.
  pub update_where-hit :
      (xs : List A) (x : A) → Member x xs → p x ≡ true → Member (g x) (update_where p g xs)
  unfolding update_where
  update_where-hit [] x m e = elim m [ ]
  update_where-hit (y ∷ xs) x (inl same) e =
      let hit : p y ≡ true = rw same at e in rw hit (inl (rw same refl))
  update_where-hit (y ∷ xs) x (inr m) e = inr (update_where-hit xs x m e)

  pub update_where-miss :
      (xs : List A) (x : A) → Member x xs → p x ≡ false → Member x (update_where p g xs)
  unfolding update_where
  update_where-miss [] x m e = elim m [ ]
  update_where-miss (y ∷ xs) x (inl same) e =
      let miss : p y ≡ false = rw same at e in rw miss (inl same)
  update_where-miss (y ∷ xs) x (inr m) e = inr (update_where-miss xs x m e)
