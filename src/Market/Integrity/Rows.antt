-- ===== src/Market/Integrity/Rows.antt =====
-- How single statements change the keys, the link of escrows to trades, and the supply.
use tokenization.Common.{
  ℕ, ◌+◌, ◌≤◌, ◌≡◌, refl, inl, inr, ◌&&◌, some, List, [], ◌∷◌, map, arith, ◌==◌, if◌then◌else◌,
  Bool-cases, Option-cases,
}
use tokenization.Common.Table.{
  select_where, update_where, fetch_one, sum_by, count_where, Updated-of_fetch, sum_by-update_one,
  sum_by-append, count_where-append, count_where-update_where, count_where_mono,
  count_of_fetch_none, fetch_one-select_where,
}
use tokenization.Database.Model.{TokenBalance}
use tokenization.Market.Balances.{
  is_balance_of, new_balance, covers, minus_tokens, plus_tokens, upsert_balance,
}
use tokenization.Market.Integrity.{held_by}

-- The quantity, if the token is the one that is counted.
abbrev pub part : ℕ → ℕ → ℕ → ℕ
part token k quantity = if k == token then quantity else 0

same_key :
    (u v k j : ℕ) (balances : List TokenBalance)
    → u ≡ v
    → k ≡ j
    → count_where (is_balance_of u k) balances ≡ 0
    → count_where (is_balance_of v j) balances ≡ 0
same_key u v k j balances p q z = rw (← p, ← q) z

-- A row for a pair that has none keeps the key.
room_for_new :
    (u v k j : ℕ) (balances : List TokenBalance)
    → count_where (is_balance_of u k) balances ≡ 0
    → count_where (is_balance_of v j) balances ≤ 1
    → count_where (is_balance_of v j) balances + ((if u == v && k == j then 1 else 0) + 0) ≤ 1
room_for_new u v k j balances z key = elim (Bool-cases (u == v && k == j)) [
  | inl e ↦ ground (arith, same_key u v k j balances)
  | inr e ↦ ground arith
]

module _ (token now u k quantity : ℕ) (balances : List TokenBalance) where
  covers_key :
      count_where (is_balance_of u k) balances ≤ 1 → count_where (covers u k quantity) balances ≤ 1
  covers_key h = omega (
    arith,
    count_where_mono (covers u k quantity) (is_balance_of u k) balances (λ b e. ground arith),
  )

  -- A debit that found its row takes the quantity out of the balances.
  pub held-decrement :
      (r : TokenBalance)
      → count_where (is_balance_of u k) balances ≤ 1
      → fetch_one (map (minus_tokens now quantity) (select_where (covers u k quantity) balances))
        ≡ some r
      → sum_by
            (held_by token)
            (update_where (covers u k quantity) (minus_tokens now quantity) balances)
          + part token k quantity
        ≡ sum_by (held_by token) balances
  held-decrement r key h =
      let w = Updated-of_fetch (covers u k quantity) (minus_tokens now quantity) balances r h in
      let s =
        sum_by-update_one (held_by token) (covers u k quantity) (minus_tokens now quantity) balances
          w.old (covers_key key) w.meets w.found in
      let m = w.meets in ground (arith, s, m)

  -- A credit adds the quantity to the balances, with a new row or an old one.
  pub held-increment :
      (i : ℕ)
      → count_where (is_balance_of u k) balances ≤ 1
      → sum_by (held_by token) (upsert_balance i now u k quantity balances)
        ≡ sum_by (held_by token) balances + part token k quantity
  unfolding upsert_balance sum_by
  held-increment i key =
      elim (Option-cases (fetch_one (select_where (is_balance_of u k) balances))) [
        | inl e ↦
            rw (e, sum_by-append (held_by token) balances (new_balance i now u k quantity ∷ []))
              (omega arith)
        | inr (b, e) ↦
            let (m, found) = fetch_one-select_where (is_balance_of u k) balances b e in
            let s =
              sum_by-update_one (held_by token) (is_balance_of u k) (plus_tokens now quantity)
                balances b key m found in
            rw e (ground (arith, s, m))
      ]

  pub key-decrement :
      (v j : ℕ)
      → count_where
          (is_balance_of v j)
          (update_where (covers u k quantity) (minus_tokens now quantity) balances)
        ≡ count_where (is_balance_of v j) balances
  key-decrement v j =
      count_where-update_where (is_balance_of v j) (covers u k quantity) (minus_tokens now quantity)
        balances (λ b. refl)

  pub key-increment :
      (i v j : ℕ)
      → count_where (is_balance_of v j) balances ≤ 1
      → count_where (is_balance_of v j) (upsert_balance i now u k quantity balances) ≤ 1
  unfolding upsert_balance count_where
  key-increment i v j key =
      elim (Option-cases (fetch_one (select_where (is_balance_of u k) balances))) [
        | inl e ↦
            rw
              (
                e,
                count_where-append (is_balance_of v j) balances
                    (new_balance i now u k quantity ∷ []),
              )
              (room_for_new u v k j balances (count_of_fetch_none (is_balance_of u k) balances e)
                key)
        | inr (b, e) ↦
            rw
              (
                e,
                count_where-update_where (is_balance_of v j) (is_balance_of u k)
                    (plus_tokens now quantity) balances (λ b. refl),
              )
              key
      ]
