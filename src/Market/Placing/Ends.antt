-- ===== src/Market/Placing/Ends.antt =====
-- The handler `place_order` comes to an end, with nothing left to match.
use tokenization.Common.{
  ℕ, zero, suc, ◌+◌, ◌*◌, ◌≤◌, ◌<◌, ◌≡◌, ◌∙◌, refl, ◌⊎◌, inl, inr, true, false, not, ◌||◌, Option,
  none, some, List, [], ◌∷◌, ◌++◌, arith, ◌==◌, is_some, Bool-cases,
}
use tokenization.Common.Table.{
  select_where, fetch_one, count_where, count_where-append, sum_by, sum_by-append,
}
use tokenization.Common.Sums.{count_of_fetch_false}
use tokenization.Database.Model.{Order, Wallet, Db, is_limit}
use tokenization.Database.Tx.{◌>>=◌, pure, query, raise_if, modify, commit, at_rest}
use tokenization.Database.Tx.Atomic.{Reads, read_rules}
use tokenization.Database.Tx.Rests.{
  Rested, Rests, Rests-pure, Rests-if, Rests-bind, Rests-mono, Rests-Reads,
}
use tokenization.Market.Keys.{Keys}
use tokenization.Market.Orders.{
  OrderRequest, new_order, create_order, get_token_by_id, get_reserved_buy_commitment,
  get_reserved_sell_quantity,
}
use tokenization.Market.Balances.{get_wallet_by_user_id, get_token_balance_for_user}
use tokenization.Market.Book.{get_reference_price_for_token}
use tokenization.Market.Trading.{Stamp}
use tokenization.Market.Placing.{
  Progress, get_kyc_status, enforce_kyc_threshold, check_funds, trigger_time, open_order,
}
use tokenization.Market.Placing.Work.{weight, work, has_id, OrdersKeyed}
use tokenization.Market.Placing.Turn.{At}
use tokenization.Market.Placing.Turn.Attempt.{Finished, Turned}
use tokenization.Market.Placing.Turn.Whole.{match_turn-Rests}
use tokenization.Market.Placing.Handler.{match_orders, start, place_order}

check_funds-Reads : (u : ℕ) (b : OrderRequest) (w : Wallet) → Reads (check_funds u b w)
unfolding check_funds get_reserved_buy_commitment get_reserved_sell_quantity
    get_token_balance_for_user
check_funds-Reads u b w = search read_rules depth 40

enforce_kyc_threshold-Reads : (h u v : ℕ) → Reads (enforce_kyc_threshold h u v)
unfolding enforce_kyc_threshold get_kyc_status
enforce_kyc_threshold-Reads h u v = search read_rules depth 40

trigger_time-Reads : (now : ℕ) (b : OrderRequest) (t : Option ℕ) → Reads (trigger_time now b t)
unfolding get_reference_price_for_token
trigger_time-Reads now b none = search read_rules
trigger_time-Reads now b (some t) = search read_rules depth 40

-- The table with the new order.
record Opened (i : ℕ) (body : OrderRequest) (before : List Order) (row : Order) (after : List Order)
    : Type 0 where
  named : row.id ≡ i
  keyed : OrdersKeyed after
  worth : work after ≤ work before + 2 * body.quantity + 1

opened :
    (order_id now user_id : ℕ) (body : OrderRequest) (t : Option ℕ) (orders : List Order)
    → OrdersKeyed orders
    → is_some (fetch_one (select_where (has_id order_id) orders)) ≡ false
    → let row = new_order order_id now user_id body t in
      Opened order_id body orders row (orders ++ row ∷ [])
unfolding count_where sum_by
opened order_id now user_id body t orders key free =
    let row = new_order order_id now user_id body t in
    record {
      named = refl;
      keyed = λ i. elim (Bool-cases (order_id == i)) [
        | inl e ↦
            let same : order_id ≡ i = ground arith in
            let none_has = count_of_fetch_false (has_id order_id) orders free in
            rw (count_where-append (has_id i) orders (row ∷ []), e)
              (omega (arith, rw same at none_has))
        | inr e ↦ rw (count_where-append (has_id i) orders (row ∷ []), e) (omega (arith, key i))
      ];
      worth = omega (arith, sum_by-append weight orders (row ∷ []));
    }

create_order-Rests :
    (order_id now user_id : ℕ) (body : OrderRequest) (t : Option ℕ) (orders : List Order)
    → OrdersKeyed orders
    → Rests
        (At orders)
        (create_order order_id now user_id body t)
        (λ row db. Opened order_id body orders row db.orders)
unfolding create_order ◌>>=◌ query raise_if modify commit pure
create_order-Rests order_id now user_id body t orders key = record {
  at = λ c clean here.
      elim (Bool-cases (is_some (fetch_one (select_where (has_id order_id) c.current.orders)))) [
        | inl taken ↦ rw taken tt
        | inr free ↦
            rw free
              (refl, rw here (opened order_id now user_id body t orders key (rw here at free)))
      ];
}

open_order-Rests :
    (threshold : ℕ) (s : Stamp) (user_id : ℕ) (body : OrderRequest) (orders : List Order)
    → OrdersKeyed orders
    → Rests
        (At orders)
        (open_order threshold s user_id body)
        (λ row db. Opened s.order_id body orders row db.orders)
unfolding open_order get_token_by_id get_wallet_by_user_id
open_order-Rests threshold s user_id body orders key =
    Rests-bind _ _ (λ _. At orders) (Rests-Reads _ (search read_rules))
      (λ token_row.
        Rests-bind _ _ (λ _. At orders) (Rests-Reads _ (search read_rules))
          (λ _.
            Rests-bind _ _ (λ _. At orders) (Rests-Reads _ (search read_rules))
              (λ found_wallet.
                Rests-bind _ _ (λ _. At orders) (Rests-Reads _ (search read_rules))
                  (λ wallet_row.
                    Rests-bind _ _ (λ _. At orders)
                      (Rests-Reads _ (check_funds-Reads user_id body wallet_row))
                      (λ _.
                        Rests-bind _ _ (λ _. At orders)
                          (Rests-Reads _ (enforce_kyc_threshold-Reads _ _ _))
                          (λ _.
                            Rests-bind _ _ (λ _. At orders)
                              (Rests-Reads _ (trigger_time-Reads s.now body body.trigger_price_sat))
                              (λ t.
                                create_order-Rests s.order_id s.now user_id body t orders key)))))))

module _ (k : Keys) (user_id : ℕ) (body : OrderRequest) where
  -- Nothing is left to match the order with, or it waits for its trigger.
  abbrev pub Settled : Order → List Order → Type 0
  Settled order_row orders =
      Finished user_id body order_row.id orders
      ⊎ ((is_limit body.order_type ≡ false) × (order_row.triggered_at ≡ none))

  -- The loop for the order with the identifier is over.
  abbrev pub Ended : ℕ → Progress → Db → Type 0
  Ended i p db = (p.order_row.id ≡ i) × (p.over ≡ true) × Settled p.order_row db.orders

  match_orders-Ends :
      (fuel : ℕ) (stamps : ℕ → Stamp) (p : Progress) (orders : List Order)
      → OrdersKeyed orders
      → ((p.over ≡ true) × Settled p.order_row orders) ⊎ ((p.over ≡ false) × (work orders < fuel))
      → Rests (At orders) (match_orders k user_id body fuel stamps p) (Ended p.order_row.id)
  unfolding match_orders
  match_orders-Ends zero stamps p orders key (inl (over, done)) =
      Rests-pure p (λ db e. (refl, over, rw e done))
  match_orders-Ends zero stamps p orders key (inr (running, enough)) =
      absurd (omega (arith, enough))
  match_orders-Ends (suc fuel) stamps p orders key (inl (over, done)) =
      Rests-if p.over (pure p) _ (λ _. Rests-pure p (λ db e. (refl, over, rw e done)))
        (λ running. absurd (cc))
  match_orders-Ends (suc fuel) stamps p orders key (inr (running, enough)) =
      Rests-if p.over (pure p) _ (λ over. absurd (cc))
        (λ _.
          Rests-bind _ _ (λ q db. Turned user_id body p.order_row.id orders q db)
            (match_turn-Rests k (stamps 0) user_id body p running orders key)
            (λ q. record {
              at = λ c clean t.
                  (Rests-mono _
                      (match_orders-Ends fuel (λ i. stamps (i + 1)) q c.current.orders
                        (λ i. rw (t.counts i) (key i))
                        (elim t.goes [
                          | inl h ↦ inl (h.0, inl (rw t.same h.1))
                          | inr h ↦ inr (h.0, omega (arith, h.1, enough))
                        ]))
                      (λ r db h. (h.0 ∙ t.same, h.1, h.2))).at
                    c clean refl;
            }))

  -- From a new order, in or outside the loop.
  started-Ends :
      (fuel i : ℕ) (stamps : ℕ → Stamp) (before orders : List Order) (row : Order)
      → Opened i body before row orders
      → work before + 2 * body.quantity + 1 < fuel
      → Rests
          (At orders)
          (match_orders k user_id body fuel stamps (start k user_id body row))
          (Ended i)
  started-Ends fuel i stamps before orders row o enough = rw (← o.named) (
      match_orders-Ends fuel stamps (start k user_id body row) orders o.keyed
        (entered row.triggered_at refl))
    where
      entered :
          (t : Option ℕ)
          → row.triggered_at ≡ t
          → ((not (is_some t || is_limit body.order_type) ≡ true) × Settled row orders)
            ⊎ ((not (is_some t || is_limit body.order_type) ≡ false) × (work orders < fuel))
      entered (some t) e = inr (refl, omega (arith, enough, o.worth))
      entered none e = elim (Bool-cases (is_limit body.order_type)) [
        | inl limit ↦ inr (rw limit refl, omega (arith, enough, o.worth))
        | inr stop ↦ inl (rw stop refl, inr (stop, e))
      ]

  -- Placing an order comes to an end: from orders with unique keys and with nothing uncommitted, more turns of
  -- the matching loop than twice what remains of all orders, the new one included, and one for each open order
  -- and the new one, are enough, whatever the wallets, balances and keys are and whatever time the turns take.
  -- Then the handler has raised, or its loop is over with nothing uncommitted, and nothing remains of the new
  -- order, or no order of the book can match it, or it is a stop order that waits for its trigger.
  pub place_order-Ends :
      (fuel threshold : ℕ) (stamps : ℕ → Stamp) (db : Db)
      → OrdersKeyed db.orders
      → work db.orders + 2 * body.quantity + 1 < fuel
      → let out = place_order k user_id body fuel threshold stamps (at_rest db) in
        Rested (Ended (stamps 0).order_id) out.0 out.1
  unfolding place_order
  place_order-Ends fuel threshold stamps db key enough =
      (Rests-bind _ _ (λ row d. Opened (stamps 0).order_id body db.orders row d.orders)
          (open_order-Rests threshold (stamps 0) user_id body db.orders key)
          (λ row. record {
            at = λ c clean o.
                (started-Ends fuel (stamps 0).order_id (λ i. stamps (i + 1)) db.orders
                    c.current.orders row o enough).at
                  c clean refl;
          })).at
        (at_rest db) refl refl
