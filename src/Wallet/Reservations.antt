-- ===== src/Wallet/Reservations.antt =====
-- Reserving on-chain funds for a withdrawal, and releasing them.
use tokenization.Common.{
  ℕ, ◌+◌, ◌≤◌, ◌≡◌, refl, inl, inr, Bool, true, false, arith, ◌==◌, leb, List, [], ◌∷◌, ◌<◌, map,
  if◌then◌else◌, Bool-cases, is_some,
}
use tokenization.Common.Table.{
  sum_by, count_where, count_where_mono, count_where-update_where, select_where, fetch_one,
}
use tokenization.Common.Sums.{
  sum_by-update_more, sum_by-update_less, count_of_fetch_map, count_of_fetch_map-false,
}
use tokenization.Database.Model.{Wallet, Db}
use tokenization.Database.Tx.{Result, ok, Conn, ◌>>=◌, pure, query, modify, commit, rollback}
use tokenization.Wallet.Ledger.{
  is_wallet, affords, minus_onchain, plus_onchain, update_wallets, reserve_onchain_balance,
}
use tokenization.Wallet.Books.{onchain_of, onchain}
use tokenization.Database.Tx.{at_rest}

abbrev pub HasKeys : Db → Type 0
HasKeys db = (k : ℕ) → count_where (is_wallet k) db.wallets ≤ 1

-- An amount that concerns one wallet.
abbrev pub share : ℕ → ℕ → ℕ → ℕ
share w total k = if w == k then total else 0

module _ (now w total : ℕ) (db : Db) (keys : HasKeys db) where
  abbrev pub reserved_db : Db
  reserved_db = update_wallets (affords w total) (minus_onchain now total) db

  abbrev pub released_db : Db
  released_db = update_wallets (is_wallet w) (plus_onchain now total) reserved_db

  abbrev pub is_reserved : Bool
  is_reserved =
      is_some
        (fetch_one (map (minus_onchain now total) (select_where (affords w total) db.wallets)))

  pub released_db-HasKeys : HasKeys released_db
  released_db-HasKeys k =
      rw
        (
          count_where-update_where (is_wallet k) (is_wallet w) (plus_onchain now total)
              reserved_db.wallets (λ x. refl),
          count_where-update_where (is_wallet k) (affords w total) (minus_onchain now total)
              db.wallets (λ x. refl),
        )
        (keys k)

  module _ (found : is_reserved ≡ true) where
    one_affords : count_where (affords w total) db.wallets ≡ 1
    one_affords = omega (
      arith,
      keys w,
      count_of_fetch_map (affords w total) (minus_onchain now total) db.wallets found,
      count_where_mono (affords w total) (is_wallet w) db.wallets (λ x e. ground arith),
    )

    one_wallet : count_where (is_wallet w) reserved_db.wallets ≡ 1
    one_wallet =
        rw
          (count_where-update_where (is_wallet w) (affords w total) (minus_onchain now total)
            db.wallets (λ x. refl))
          (omega (
            arith,
            keys w,
            one_affords,
            count_where_mono (affords w total) (is_wallet w) db.wallets (λ x e. ground arith),
          ))

    pub onchain-reserved_db : (k : ℕ) → onchain k reserved_db + share w total k ≡ onchain k db
    onchain-reserved_db k =
        let less =
          sum_by-update_less (onchain_of k) (affords w total) (minus_onchain now total)
            (share w total k) db.wallets (λ x e. ground arith) in
        omega (arith, rw one_affords at less)

    pub onchain-released_db : (k : ℕ) → onchain k released_db ≡ onchain k db
    onchain-released_db k =
        let more =
          sum_by-update_more (onchain_of k) (is_wallet w) (plus_onchain now total) (share w total k)
            reserved_db.wallets (λ x m e. ground arith) in
        omega (arith, onchain-reserved_db k, rw one_wallet at more)

no_wallet :
    (w : ℕ) (xs : List Wallet) → count_where (is_wallet w) xs ≡ 0 → sum_by (onchain_of w) xs ≡ 0
unfolding count_where sum_by
no_wallet w [] e = refl
no_wallet w (x ∷ xs) e = ground (arith, no_wallet w xs)

too_little :
    (w total : ℕ) (xs : List Wallet)
    → 1 ≤ total
    → count_where (is_wallet w) xs ≤ 1
    → count_where (affords w total) xs ≡ 0
    → sum_by (onchain_of w) xs < total
unfolding count_where sum_by
too_little w total [] pos u z = omega arith
too_little w total (x ∷ xs) pos u z = elim (Bool-cases (x.id == w)) [
  | inl e ↦ ground (arith, no_wallet w xs)
  | inr e ↦ ground (arith, too_little w total xs pos)
]

-- What a reservation did: it is made exactly if the wallet has the amount, and then takes it; the
-- answer is committed.
pub record Reserves (w total : ℕ) (db : Db) (r : Result Bool) (c : Conn) : Type 0 where
  pub made : r ≡ ok (leb total (onchain w db))
  pub committed : c ≡ at_rest c.committed
  pub balance :
      (k : ℕ)
      → onchain k c.committed + (if leb total (onchain w db) then share w total k else 0)
        ≡ onchain k db

-- On wallets with unique keys and with nothing uncommitted, reserving a positive amount answers whether the
-- wallet's on-chain balance covers it, takes exactly the amount from that wallet alone if it does, changes
-- no balance if it does not, and leaves nothing uncommitted.
pub reserve_onchain_balance-exact :
    (now w total : ℕ) (db : Db)
    → HasKeys db
    → 1 ≤ total
    → let (r, c) = reserve_onchain_balance now w total (at_rest db) in Reserves w total db r c
unfolding reserve_onchain_balance ◌>>=◌ query modify commit rollback pure
reserve_onchain_balance-exact now w total db keys pos =
    elim (Bool-cases (is_reserved now w total db keys)) [
      | inl e ↦
          let covers : leb total (onchain w db) ≡ true =
            ground (arith, onchain-reserved_db now w total db keys e w) in
          rw e (record {
            made = rw covers refl;
            committed = refl;
            balance = λ k. rw covers (onchain-reserved_db now w total db keys e k);
          })
      | inr e ↦
          let short : leb total (onchain w db) ≡ false = ground (
            arith,
            too_little w total db.wallets pos (keys w) (count_of_fetch_map-false _ _ db.wallets e),
          ) in
          rw e (record {
            made = rw short refl;
            committed = refl;
            balance = λ k. rw short (omega arith);
          })
    ]
