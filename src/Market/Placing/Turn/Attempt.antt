-- ===== src/Market/Placing/Turn/Attempt.antt =====
-- An attempt to trade in the matching loop: a trade fills two orders, and a failure cancels one.
use tokenization.Common.{
  ℕ, ◌≤◌, ◌<◌, ◌≡◌, ◌∙◌, refl, sym, ◌⊎◌, inl, inr, true, false, Option, none, some, List, min,
  arith, ◌==◌, ==_refl, Member, All, Bool-cases, get_or,
}
use tokenization.Common.Table.{
  select_where, fetch_one, count_where, count_pos, fetch_one-select_where,
}
use tokenization.Common.First.{IsBest}
use tokenization.Database.Model.{Order, Trade, Escrow, Db, is_buy, is_open_status}
use tokenization.Database.Tx.{Result, ok, err, Failure, Conn, ◌>>=◌, catch}
use tokenization.Database.Tx.Rules.{Returned}
use tokenization.Database.Tx.Atomic.{AllOrNothing}
use tokenization.Database.Tx.Rests.{Rested, Rests, Rests-pure, Rests-raise, Rests-query, Rests-bind}
use tokenization.Market.Keys.{Keys}
use tokenization.Market.Orders.{OrderRequest, remaining_quantity, get_order_by_id}
use tokenization.Market.Book.{candidate, precedes}
use tokenization.Market.Trading.{Stamp, create_trade_escrow}
use tokenization.Market.Atomicity.{create_trade_escrow-IsAtomic}
use tokenization.Market.Placing.{
  Progress, Recovery, recovery, reread, recover, after_match, trade_with,
}
use tokenization.Market.Placing.Work.{work, has_id, OrdersKeyed, Tells, Tells-of, Lasts}
use tokenization.Market.Placing.Lightens.{Lightens, create_trade_escrow-Lightens}
use tokenization.Market.Placing.Enough.{IsOther, Spared, create_trade_escrow-Spares}
use tokenization.Market.Placing.Turn.{Rests-given, At, activate-Rests, cancel_order-Rests, rereads}

module _ (user_id : ℕ) (body : OrderRequest) where
  -- Nothing remains of the order, or no order of the book can match it.
  abbrev pub Finished : ℕ → List Order → Type 0
  Finished i orders =
      ((x : Order) → Member x orders → x.id ≡ i → remaining_quantity x ≡ 0)
      ⊎ All (λ o. candidate body.token_id body.side body.price_sat user_id o ≡ false) orders

  -- What a turn leaves: the loop is over, or there is less to match than before.
  pub record Turned (i : ℕ) (before : List Order) (p : Progress) (db : Db) : Type 0 where
    pub same : p.order_row.id ≡ i
    pub counts : (j : ℕ) → count_where (has_id j) db.orders ≡ count_where (has_id j) before
    pub goes :
        ((p.over ≡ true) × Finished i db.orders)
        ⊎ ((p.over ≡ false) × (work db.orders < work before))

-- The row that is read again is a row of the same order.
reread-Rests :
    (p : Progress) (orders : List Order)
    → Rests
        (At orders)
        (reread p)
        (λ q db. (q.order_row.id ≡ p.order_row.id) × (q.over ≡ p.over) × (db.orders ≡ orders))
unfolding reread get_order_by_id
reread-Rests p orders =
    Rests-bind _ _
      (λ found db. (found ≡ fetch_one (select_where (has_id p.order_row.id) orders)) × At orders db)
      (Rests-query _ (λ db e. (rw e refl, e)))
      (λ found. Rests-pure _ (λ db h. (same found h.0, refl, h.1)))
  where
    same :
        (found : Option Order)
        → found ≡ fetch_one (select_where (has_id p.order_row.id) orders)
        → (get_or found p.order_row).id ≡ p.order_row.id
    same none e = refl
    same (some o) e =
        let (hit, m) = fetch_one-select_where (has_id p.order_row.id) orders o (sym e) in
        ground arith

candidate-remains :
    (body : OrderRequest) (user_id : ℕ) (o : Order)
    → candidate body.token_id body.side body.price_sat user_id o ≡ true
    → (remaining_quantity o == 0) ≡ false
unfolding remaining_quantity
candidate-remains body user_id o h = ground arith

module _ (k : Keys) (s : Stamp) (user_id : ℕ) (body : OrderRequest) (p : Progress)
    (running : p.over ≡ false) (orders : List Order) where
  abbrev Goes : Progress → Db → Type 0
  Goes = Turned user_id body p.order_row.id orders

  -- A trade was made: resting stop orders are triggered, and the order is read again.
  traded-Rests :
      (matched buy_order sell_order : Order) (t : Trade) (e : Escrow)
      → Rests
          (λ db. Lightens orders db.orders)
          (after_match s body matched buy_order sell_order p (ok (t, e)))
          Goes
  traded-Rests matched buy_order sell_order t e = Rests-given (Lightens orders) _ (λ between light.
      Rests-bind _ _ (λ _ db. Lasts between db.orders) (activate-Rests _ _ _ between)
        (λ _. Rests-given (Lasts between) _ (λ after lasts. record {
          at = λ c clean here.
              ended between after light lasts _ _ ((reread-Rests _ after).at c clean here);
        })))
    where
      ended :
          (between after : List Order)
          → Lightens orders between
          → Lasts between after
          → (r : Result Progress) (c : Conn)
          → Rested
              (λ q db. (q.order_row.id ≡ p.order_row.id) × (q.over ≡ p.over) × (db.orders ≡ after))
              r
              c
          → Rested Goes r c
      ended between after light lasts (ok q) c (clean, (same, over, here)) = (
        clean,
        record {
          same = same;
          counts = λ i. rw here (lasts.counts i ∙ light.counts i);
          goes = inr (over ∙ running, rw here (omega (arith, light.less, lasts.worth)));
        },
      )
      ended between after light lasts (err x) c h = tt

  -- It was not, and the table is as before: the counterparty is cancelled, or the request ends.
  recovered-Rests :
      (matched : Order) (e : Failure) (r : Recovery)
      → recovery e ≡ r
      → IsOther e
      → Member matched orders
      → is_open_status matched.status ≡ true
      → Rests (At orders) (recover s matched p e r) Goes
  recovered-Rests matched e Recovery.cancels_match h other m live =
      Rests-bind _ _ (λ _ db. Lightens orders db.orders)
        (cancel_order-Rests s.now matched orders m live)
        (λ _. Rests-pure p (λ db light. record {
          same = refl;
          counts = light.counts;
          goes = inr (running, light.less);
        }))
  recovered-Rests matched e Recovery.rereads h other m live = absurd (rereads e h other)
  recovered-Rests matched e Recovery.propagates h other m live = Rests-raise e

  module _ (key : OrdersKeyed orders) (current : Order) (own : current.id ≡ p.order_row.id)
      (tells : Tells current orders) (one : 1 ≤ count_where (has_id current.id) orders) where
    -- The search found an order: what the attempt to trade with it comes to.
    attempted-Rested :
        (matched buy_order sell_order : Order) (c : Conn)
        → c.current ≡ c.committed
        → At orders c.current
        → Member matched orders
        → is_open_status matched.status ≡ true
        → (r : Result (Trade × Escrow)) (d : Conn) → AllOrNothing c r d
        → Returned (λ _ db. Lightens orders db.orders) r d
        → Spared r
        → Rested Goes
            (after_match s body matched buy_order sell_order p r d).0
            (after_match s body matched buy_order sell_order p r d).1
    attempted-Rested matched b o c clean here m live (ok (t, e)) d kept light other =
        (traded-Rests matched b o t e).at d kept light
    attempted-Rested matched b o c clean here m live (err e) d kept light other =
        rw kept ((recovered-Rests matched e (recovery e) refl other m live).at c clean here)

    attempt-Rests :
        (matched buy_order sell_order : Order) (quantity : ℕ)
        → Member matched orders
        → is_open_status matched.status ≡ true
        → Tells buy_order orders
        → Tells sell_order orders
        → 1 ≤ count_where (has_id buy_order.id) orders
        → quantity ≤ remaining_quantity buy_order
        → quantity ≤ remaining_quantity sell_order
        → Rests
            (At orders)
            (catch (create_trade_escrow s buy_order sell_order quantity matched.price_sat 0 k)
              >>= after_match s body matched buy_order sell_order p)
            Goes
    unfolding ◌>>=◌ catch
    attempt-Rests matched b o quantity m live bt ot one' bought sold = record {
      at = λ c clean here.
          attempted-Rested matched b o c clean here m live
            (create_trade_escrow s b o quantity matched.price_sat 0 k c).0
            (create_trade_escrow s b o quantity matched.price_sat 0 k c).1
            ((create_trade_escrow-IsAtomic s b o quantity matched.price_sat 0 k).at c clean)
            ((create_trade_escrow-Lightens s b o quantity matched.price_sat 0 k orders bt ot
                one').at
              c here)
            ((create_trade_escrow-Spares s b o quantity matched.price_sat 0 k bought sold).at c);
    }

    pub trade_with-Rests :
        (matched : Option Order)
        → IsBest
            (candidate body.token_id body.side body.price_sat user_id)
            (precedes body.side)
            orders
            matched
        → Rests (At orders) (trade_with k s user_id body p current matched) Goes
    trade_with-Rests none free =
        Rests-pure _ (λ db e. record {
          same = own;
          counts = λ i. rw e refl;
          goes = inl (refl, inr (rw e free));
        })
    trade_with-Rests (some matched) (m, meets, _) =
        let live : is_open_status matched.status ≡ true = ground arith in
        let their = Tells-of matched orders key m in
        let some_row = count_pos (has_id matched.id) orders matched (==_refl matched.id) m in
        let quantity : ℕ = min (remaining_quantity current) (remaining_quantity matched) in
        let mine : quantity ≤ remaining_quantity current = omega arith in
        let his : quantity ≤ remaining_quantity matched = omega arith in
        rw (candidate-remains body user_id matched meets) (elim (Bool-cases (is_buy body.side)) [
          | inl e ↦
              rw e (attempt-Rests matched current matched quantity m live tells their one mine his)
          | inr e ↦
              rw e (
                attempt-Rests matched matched current quantity m live their tells some_row his mine)
        ])
