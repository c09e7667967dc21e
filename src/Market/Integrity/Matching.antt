-- ===== src/Market/Integrity/Matching.antt =====
-- Matching and funding: the tables and the supply.
use tokenization.Common.{
  ℕ, ◌+◌, ◌≤◌, ◌≡◌, refl, ◌||◌, none, some, List, [], ◌∷◌, ◌++◌, map, arith, ◌==◌, ==_refl,
}
use tokenization.Common.Table.{
  select_where, update_where, fetch_one, count_where, sum_by, sum_by-append, count_where_mono,
  count_where-append,
}
use tokenization.Database.Model.{Text, TradeStatus, Order, Trade, Escrow, TokenBalance, Db}
use tokenization.Database.Tx.{Tx, ◌>>=◌, pure, commit}
use tokenization.Database.Tx.Rules.{Ensures, Ensures-pure, Ensures-bind}
use tokenization.Market.Keys.{Keys, EscrowDetails}
use tokenization.Market.Balances.{
  is_balance_of, covers, minus_tokens, upsert_balance, get_wallet_by_user_id,
}
use tokenization.Market.Trading.{Stamp, new_trade, new_escrow, lock_trade, deliver, move_funds}
use tokenization.Market.Integrity.{
  locked_by, supply_in, trade_status, has_trade_id, is_escrow_of, IsKeyed, IsSound, IsKept,
}
use tokenization.Market.Integrity.Rows.{
  part, held-decrement, held-increment, key-decrement, key-increment,
}
use tokenization.Market.Integrity.Link.{
  link_trade, link_escrow, key-insert_trade, key-insert_escrow,
}
use tokenization.Market.Integrity.Leaves.{
  same_tables, Ensures-Leaves, At, Leaves, Leaves-commit, apply_order_fill-Leaves,
  debit_wallet_balance-Leaves, credit_wallet_balance-Leaves, record_trade_fee_income-Leaves,
}
use tokenization.Market.Integrity.Steps.{
  Ensures-fact, decrement_token_balance-At, increment_token_balance-At, insert_trade-At,
  insert_escrow-At,
}
use tokenization.Database.Tx.Moves.{Moves-query, Moves-or_raise}

-- From the three tables to the whole database.
pub kept :
    (token n : ℕ) (T : List Trade) (E : List Escrow) (B : List TokenBalance) (db : Db)
    → IsSound T E B
    → supply_in token T B ≡ n
    → At T E B db
    → IsKept token n db
kept token n T E B db sound s h = record {
  sound = rw (h.0, h.1, h.2) sound;
  supplied = rw (h.0, h.2) s;
}

-- A step that leaves the tables alone, in a `do` block.
pub after-Leaves :
    {A C : Type 0} {Q : C → Db → Type 0} (T : List Trade) (E : List Escrow) (B : List TokenBalance)
    (m : Tx A) (f : A → Tx C)
    → Leaves m
    → ((a : A) → Ensures (At T E B) (f a) Q)
    → Ensures (At T E B) (m >>= f) Q
after-Leaves T E B m f l h = Ensures-bind m f (λ _ db. At T E B db) (Ensures-Leaves T E B m l) h

-- The end of a transaction.
pub commits :
    {A : Type 0} (token n : ℕ) (T : List Trade) (E : List Escrow) (B : List TokenBalance) (a : A)
    → IsSound T E B
    → supply_in token T B ≡ n
    → Ensures (At T E B) (commit >>= λ _. pure a) (λ _ db. IsKept token n db)
commits token n T E B a sound s =
    after-Leaves T E B _ _ Leaves-commit
      (λ _. Ensures-pure a (λ db h. kept token n T E B db sound s h))

-- New balances under the same key.
pub key-balances :
    (T : List Trade) (E : List Escrow) (B B' : List TokenBalance)
    → IsKeyed T E B
    → ((u k : ℕ) → count_where (is_balance_of u k) B' ≤ 1)
    → IsKeyed T E B'
key-balances T E B B' keyed h = record {
  balance_key = h;
  trade_key = keyed.trade_key;
  escrow_key = keyed.escrow_key;
  escrow_trade = keyed.escrow_trade;
}

module _ (T : List Trade) (E : List Escrow) (B B' : List TokenBalance) (sound : IsSound T E B)
    (keys : (u k : ℕ) → count_where (is_balance_of u k) B' ≤ 1) where
  -- A new trade without an escrow.
  new_trade-IsSound :
      (t : Trade) → count_where (has_trade_id t.id) T ≡ 0 → IsSound (T ++ t ∷ []) E B'
  new_trade-IsSound t fresh = record {
    keyed = key-balances (T ++ t ∷ []) E B B' (key-insert_trade T E B sound.keyed t fresh) keys;
    linked = link_trade T E B t sound.keyed fresh sound.linked;
  }

  -- A new trade with its escrow.
  new_pair-IsSound :
      (t : Trade) (e : Escrow)
      → count_where (has_trade_id t.id) T ≡ 0
      → count_where (λ f. f.id == e.id || f.trade_id == e.trade_id) E ≡ 0
      → e.trade_id ≡ t.id
      → t.status ≡ trade_status e.status
      → IsSound (T ++ t ∷ []) (E ++ e ∷ []) B'
  unfolding count_where
  new_pair-IsSound t e fresh free own st =
      let one = new_trade-IsSound t fresh in
      record {
        keyed =
            key-insert_escrow (T ++ t ∷ []) E B' one.keyed e
              (omega (
                arith,
                free,
                count_where_mono (is_escrow_of e.trade_id)
                    (λ f. f.id == e.id || f.trade_id == e.trade_id) E (λ f h. ground arith),
              ))
              (rw (own, count_where-append (has_trade_id t.id) T (t ∷ []), ==_refl t.id)
                (omega arith));
        linked = link_escrow T E t e own fresh st one.linked;
      }

-- A trade that is added moves the supply by its share.
supply-new_trade :
    (token : ℕ) (T : List Trade) (B' : List TokenBalance) (t : Trade)
    → supply_in token (T ++ t ∷ []) B' ≡ supply_in token T B' + locked_by token t
unfolding sum_by
supply-new_trade token T B' t = omega (arith, sum_by-append (locked_by token) T (t ∷ []))

module _ (token : ℕ) (s : Stamp) (buy_order sell_order : Order) (quantity price_sat fee_sat : ℕ)
    (T : List Trade) (E : List Escrow) (B : List TokenBalance) (sound : IsSound T E B) where
  -- The balances after the seller's debit, and after the buyer's credit.
  abbrev B1 : List TokenBalance
  B1 =
      update_where (covers sell_order.user_id buy_order.token_id quantity)
        (minus_tokens s.now quantity) B

  abbrev B2 : List TokenBalance
  B2 = upsert_balance s.balance_id s.now buy_order.user_id buy_order.token_id quantity B1

  keys1 : (u k : ℕ) → count_where (is_balance_of u k) B1 ≤ 1
  keys1 u k =
      rw (key-decrement token s.now sell_order.user_id buy_order.token_id quantity B u k)
        (sound.keyed.balance_key u k)

  keys2 : (u k : ℕ) → count_where (is_balance_of u k) B2 ≤ 1
  keys2 u k =
      key-increment token s.now buy_order.user_id buy_order.token_id quantity B1 s.balance_id u k
        (keys1 u k)

  abbrev Debit : Type 0
  Debit =
      (r : TokenBalance) × (fetch_one (
          map (minus_tokens s.now quantity)
            (select_where (covers sell_order.user_id buy_order.token_id quantity) B))
        ≡ some r)

  debit_supply :
      Debit → supply_in token T B1 + part token buy_order.token_id quantity ≡ supply_in token T B
  debit_supply (r, h) = omega (
    arith,
    held-decrement token s.now sell_order.user_id buy_order.token_id quantity B r
        (sound.keyed.balance_key sell_order.user_id buy_order.token_id) h,
  )

  credit_supply :
      supply_in token T B2 ≡ supply_in token T B1 + part token buy_order.token_id quantity
  credit_supply = omega (
    arith,
    held-increment token s.now buy_order.user_id buy_order.token_id quantity B1 s.balance_id
        (keys1 buy_order.user_id buy_order.token_id),
  )

  pub lock_trade-IsKept :
      (k : Keys) (buyer_key seller_key : Text) (d : EscrowDetails)
      → Ensures
          (At T E B)
          (lock_trade s buy_order sell_order quantity price_sat fee_sat k buyer_key seller_key d)
          (λ _ db. IsKept token (supply_in token T B) db)
  unfolding lock_trade
  lock_trade-IsKept k buyer_key seller_key d =
      let t =
        new_trade s buy_order sell_order quantity price_sat fee_sat TradeStatus.pending none in
      let e =
        new_escrow s buy_order sell_order quantity price_sat fee_sat k buyer_key seller_key d in
      Ensures-bind _ _ _
        (decrement_token_balance-At T E B s.now sell_order.user_id buy_order.token_id quantity)
        (λ _. Ensures-fact _ (λ debit.
          after-Leaves T E B1 _ _ (apply_order_fill-Leaves s.now buy_order quantity) (λ _.
            after-Leaves T E B1 _ _ (apply_order_fill-Leaves s.now sell_order quantity) (λ _.
              Ensures-bind _ _ _ (insert_trade-At T E B1 t) (λ _. Ensures-fact _ (λ fresh.
                Ensures-bind _ _ _ (insert_escrow-At (T ++ t ∷ []) E B1 e) (λ _.
                  Ensures-fact _ (λ free.
                    commits token _ (T ++ t ∷ []) (E ++ e ∷ []) B1 _
                      (new_pair-IsSound T E B B1 sound keys1 t e fresh free refl refl)
                      (ground (arith, supply-new_trade token T B1 t, debit_supply debit))))))))))

  -- The token half of a settlement, and the new trade.
  moved :
      (t : Trade)
      → (t.status ≡ TradeStatus.settled)
      → Ensures
          (At T E B)
          (deliver s buy_order sell_order quantity price_sat fee_sat t)
          (λ _ db. IsKept token (supply_in token T B) db)
  unfolding deliver
  moved t st =
      Ensures-bind _ _ _
        (decrement_token_balance-At T E B s.now sell_order.user_id buy_order.token_id quantity)
        (λ _. Ensures-fact _ (λ debit.
          Ensures-bind _ _ _
            (increment_token_balance-At T E B1 s.balance_id s.now buy_order.user_id
              buy_order.token_id quantity)
            (λ _. after-Leaves T E B2 _ _ (apply_order_fill-Leaves s.now buy_order quantity) (λ _.
              after-Leaves T E B2 _ _ (apply_order_fill-Leaves s.now sell_order quantity) (λ _.
                Ensures-bind _ _ _ (insert_trade-At T E B2 t) (λ _. Ensures-fact _ (λ fresh.
                  after-Leaves (T ++ t ∷ []) E B2 _ _
                    (record_trade_fee_income-Leaves s.entry_id s.now t)
                    (λ _.
                      commits token _ (T ++ t ∷ []) E B2 _
                        (new_trade-IsSound T E B B2 sound keys2 t fresh)
                        (ground (
                          arith,
                          supply-new_trade token T B2 t,
                          credit_supply,
                          debit_supply debit,
                        ))))))))))

  pub move_funds-IsKept :
      Ensures
        (At T E B)
        (move_funds s buy_order sell_order quantity price_sat fee_sat)
        (λ _ db. IsKept token (supply_in token T B) db)
  unfolding move_funds get_wallet_by_user_id
  move_funds-IsKept =
      let t =
        new_trade s buy_order sell_order quantity price_sat fee_sat TradeStatus.settled
          (some s.now) in
      after-Leaves T E B _ _ (Moves-query _) (λ found_buyer.
        after-Leaves T E B _ _ (Moves-query _) (λ found_seller.
          after-Leaves T E B _ _ (Moves-or_raise found_buyer _) (λ buyer_wallet.
            after-Leaves T E B _ _ (Moves-or_raise found_seller _) (λ seller_wallet.
              after-Leaves T E B _ _ (debit_wallet_balance-Leaves s.now buyer_wallet _) (λ _.
                after-Leaves T E B _ _ (credit_wallet_balance-Leaves s.now seller_wallet _)
                  (λ _. moved t refl))))))
