-- ===== src/Market/Integrity/Steps.antt =====
-- What each statement inside the transactions does to the three tables of the invariant.
use tokenization.Common.{
  ℕ, ◌≡◌, refl, Bool, false, ◌||◌, Option, none, some, List, [], ◌∷◌, ◌++◌, map, ◌==◌,
  if◌then◌else◌, is_some,
}
use tokenization.Common.Table.{
  select_where, update_where, fetch_one, count_where, Updated, Updated-of_fetch,
}
use tokenization.Database.Model.{Trade, Escrow, TokenBalance, Db}
use tokenization.Database.Tx.{Tx, LookupError}
use tokenization.Database.Tx.Rules.{
  Ensures, Ensures-query, Ensures-or_raise, Ensures-bind, Ensures-modify, Ensures-raise_if,
}
use tokenization.Market.Balances.{
  covers, minus_tokens, upsert_balance, decrement_token_balance, increment_token_balance,
}
use tokenization.Market.Trading.{insert_trade, insert_escrow}
use tokenization.Market.Escrows.{update_escrow, update_trade}
use tokenization.Common.Sums.{count_of_fetch_false}
use tokenization.Market.Integrity.Leaves.{At}

-- A fact that does not depend on the transaction becomes a hypothesis.
pub Ensures-fact :
    {A F : Type 0} {P : Db → Type 0} {Q : A → Db → Type 0} (m : Tx A)
    → (F → Ensures P m Q)
    → Ensures (λ db. F × P db) m Q
Ensures-fact m h = record { at = λ c p. (h p.0).at c p.1 }

module _ (T : List Trade) (E : List Escrow) (B : List TokenBalance) where
  -- A debit that returns has found its row.
  pub decrement_token_balance-At :
      (now u k q : ℕ)
      → Ensures (At T E B) (decrement_token_balance now u k q) (λ _ db.
        ((r : TokenBalance) × (fetch_one (map (minus_tokens now q) (select_where (covers u k q) B))
            ≡ some r))
        × At T E (update_where (covers u k q) (minus_tokens now q) B) db)
  unfolding decrement_token_balance
  decrement_token_balance-At now u k q =
      let rows : List TokenBalance → Option TokenBalance =
        λ b. fetch_one (map (minus_tokens now q) (select_where (covers u k q) b)) in
      let B' : List TokenBalance = update_where (covers u k q) (minus_tokens now q) B in
      Ensures-bind _ _ (λ r db. (r ≡ rows B) × At T E B db)
        (Ensures-query _ (λ db h. (rw h.2 refl, h)))
        (λ r. Ensures-fact _ (λ found.
          Ensures-bind _ _ (λ _ db. At T E B' db)
            (Ensures-modify _ (λ db h. (h.0, h.1, rw h.2 refl)))
            (λ _. Ensures-raise_if _ _ (λ e db h. (is_found r found e, h)))))
    where
      is_found :
          (r : Option TokenBalance)
          → r ≡ fetch_one (map (minus_tokens now q) (select_where (covers u k q) B))
          → (if is_some r then Bool.false else Bool.true) ≡ false
          → (b : TokenBalance) × (fetch_one
                (map (minus_tokens now q) (select_where (covers u k q) B))
              ≡ some b)
      is_found none f e = absurd (cc)
      is_found (some b) f e = (b, cc)

  pub increment_token_balance-At :
      (i now u k q : ℕ)
      → Ensures
          (At T E B)
          (increment_token_balance i now u k q)
          (λ _ db. At T E (upsert_balance i now u k q B) db)
  unfolding increment_token_balance
  increment_token_balance-At i now u k q = Ensures-modify _ (λ db h. (h.0, h.1, rw h.2 refl))

  -- An insertion that returns has met no row with its key.
  pub insert_trade-At :
      (t : Trade)
      → Ensures
          (At T E B)
          (insert_trade t)
          (λ _ db. (count_where (λ u. u.id == t.id) T ≡ 0) × At (T ++ t ∷ []) E B db)
  unfolding insert_trade
  insert_trade-At t =
      let taken : List Trade → Bool =
        λ ts. is_some (fetch_one (select_where (λ u. u.id == t.id) ts)) in
      Ensures-bind _ _ (λ r db. (r ≡ taken T) × At T E B db)
        (Ensures-query _ (λ db h. (rw h.0 refl, h)))
        (λ r. Ensures-fact _ (λ is_taken.
          Ensures-bind _ _ (λ _ db. (r ≡ false) × At T E B db)
            (Ensures-raise_if _ _ (λ e db h. (e, h)))
            (λ _. Ensures-fact _ (λ free.
              Ensures-modify _
                (λ db h. (count_of_fetch_false _ T (cc), (rw h.0 refl, h.1, h.2)))))))

  pub insert_escrow-At :
      (x : Escrow)
      → Ensures (At T E B) (insert_escrow x) (λ _ db.
        (count_where (λ e. e.id == x.id || e.trade_id == x.trade_id) E ≡ 0)
        × At T (E ++ x ∷ []) B db)
  unfolding insert_escrow
  insert_escrow-At x =
      let taken : List Escrow → Bool = λ es.
        is_some (fetch_one (select_where (λ e. e.id == x.id || e.trade_id == x.trade_id) es)) in
      Ensures-bind _ _ (λ r db. (r ≡ taken E) × At T E B db)
        (Ensures-query _ (λ db h. (rw h.1 refl, h)))
        (λ r. Ensures-fact _ (λ is_taken.
          Ensures-bind _ _ (λ _ db. (r ≡ false) × At T E B db)
            (Ensures-raise_if _ _ (λ e db h. (e, h)))
            (λ _. Ensures-fact _ (λ free.
              Ensures-modify _
                (λ db h. (count_of_fetch_false _ E (cc), (h.0, rw h.1 refl, h.2)))))))

  -- An update that returns has found its row.
  pub update_trade-At :
      (p : Trade → Bool) (g : Trade → Trade) (x : LookupError)
      → Ensures
          (At T E B)
          (update_trade p g x)
          (λ r db. Updated p g T r × At (update_where p g T) E B db)
  unfolding update_trade
  update_trade-At p g x =
      Ensures-bind _ _ (λ rows db. (rows ≡ map g (select_where p T)) × At T E B db)
        (Ensures-query _ (λ db h. (rw h.0 refl, h)))
        (λ rows. Ensures-fact _ (λ e.
          Ensures-bind _ _ (λ _ db. At (update_where p g T) E B db)
            (Ensures-modify _ (λ db h. (rw h.0 refl, h.1, h.2)))
            (λ _. Ensures-or_raise _ _ (λ r s db h. (Updated-of_fetch p g T r (rw e at s), h)))))

  pub update_escrow-At :
      (p : Escrow → Bool) (g : Escrow → Escrow) (x : LookupError)
      → Ensures
          (At T E B)
          (update_escrow p g x)
          (λ r db. Updated p g E r × At T (update_where p g E) B db)
  unfolding update_escrow
  update_escrow-At p g x =
      Ensures-bind _ _ (λ rows db. (rows ≡ map g (select_where p E)) × At T E B db)
        (Ensures-query _ (λ db h. (rw h.1 refl, h)))
        (λ rows. Ensures-fact _ (λ e.
          Ensures-bind _ _ (λ _ db. At T (update_where p g E) B db)
            (Ensures-modify _ (λ db h. (h.0, rw h.1 refl, h.2)))
            (λ _. Ensures-or_raise _ _ (λ r s db h. (Updated-of_fetch p g E r (rw e at s), h)))))
