-- ===== src/Market/Placing/Turn/Whole.antt =====
-- One turn of the matching loop ends the loop or leaves less to match.
use mathlib.Core.Path.{subst}
use tokenization.Common.{
  ℕ, ◌≤◌, ◌≡◌, ◌∙◌, refl, sym, inl, inr, false, Option, none, some, List, arith, ◌==◌, ==_refl,
  Member, Bool-cases,
}
use tokenization.Common.Table.{
  select_where, fetch_one, count_where, count_of_fetch_none, none_counted, unique_row, count_pos,
  fetch_one-select_where,
}
use tokenization.Common.First.{IsBest}
use tokenization.Database.Model.{Order, Db}
use tokenization.Database.Tx.{◌>>=◌}
use tokenization.Database.Tx.Rests.{Rests, Rests-pure, Rests-query, Rests-bind, Rests-mono}
use tokenization.Market.Keys.{Keys}
use tokenization.Market.Orders.{OrderRequest, remaining_quantity, get_order_by_id}
use tokenization.Market.Book.{candidate, precedes, find_best_match}
use tokenization.Market.Book.Priority.{find_best_match-IsBest}
use tokenization.Market.Trading.{Stamp}
use tokenization.Market.Placing.{Progress, trade_with, continue_with, match_turn}
use tokenization.Market.Placing.Work.{has_id, OrdersKeyed, Tells-of, Lasts}
use tokenization.Market.Placing.Turn.{Rests-given, At, refresh_stops-Rests}
use tokenization.Market.Placing.Turn.Attempt.{Turned, trade_with-Rests}

find_best_match-Rests :
    (user_id : ℕ) (body : OrderRequest) (orders : List Order)
    → Rests (At orders) (find_best_match body.token_id body.side body.price_sat user_id) (λ r db.
      IsBest
        (candidate body.token_id body.side body.price_sat user_id)
        (precedes body.side)
        orders
        r
      × At orders db)
find_best_match-Rests user_id body orders = record {
  at = λ c clean here.
      let (r, e, best) = find_best_match-IsBest body.token_id body.side body.price_sat user_id c in
      rw e (
        clean,
        (
          subst
              (λ os.
                IsBest (candidate body.token_id body.side body.price_sat user_id)
                  (precedes body.side) os r)
              here best,
          here,
        ),
      );
}

-- What a turn leaves, seen from before some orders were triggered.
Turned-Lasts :
    (user_id : ℕ) (body : OrderRequest) (i : ℕ) (before orders : List Order) (q : Progress)
    (db : Db)
    → Lasts before orders
    → Turned user_id body i orders q db
    → Turned user_id body i before q db
Turned-Lasts user_id body i before orders q db lasts t = record {
  same = t.same;
  counts = λ j. t.counts j ∙ lasts.counts j;
  goes = elim t.goes [ inl h ↦ inl h | inr h ↦ inr (h.0, omega (arith, h.1, lasts.worth)) ];
}

module _ (k : Keys) (s : Stamp) (user_id : ℕ) (body : OrderRequest) (p : Progress)
    (running : p.over ≡ false) where
  searched-Rests :
      (before orders : List Order) (current : Order)
      → Lasts before orders
      → OrdersKeyed before
      → Member current before
      → current.id ≡ p.order_row.id
      → Rests
          (At orders)
          (find_best_match body.token_id body.side body.price_sat user_id
            >>= trade_with k s user_id body p current)
          (Turned user_id body p.order_row.id before)
  searched-Rests before orders current lasts key m own =
      let key' : OrdersKeyed orders = λ i. rw (lasts.counts i) (key i) in
      let one : 1 ≤ count_where (has_id current.id) orders =
        rw (lasts.counts current.id)
          (count_pos (has_id current.id) before current (==_refl current.id) m) in
      Rests-mono _
        (Rests-bind _ _ _ (find_best_match-Rests user_id body orders) (λ r. record {
          at = λ c clean h.
              (trade_with-Rests k s user_id body p running orders key' current own
                  (lasts.tells current (Tells-of current before key m)) one r h.0).at
                c clean h.1;
        }))
        (λ q db t. Turned-Lasts user_id body p.order_row.id before orders q db lasts t)

  -- The order is there, in a table with unique keys.
  found-Rests :
      (orders : List Order) (current : Order)
      → OrdersKeyed orders
      → Member current orders
      → current.id ≡ p.order_row.id
      → Rests
          (At orders)
          (continue_with k s user_id body p (some current))
          (Turned user_id body p.order_row.id orders)
  found-Rests orders current key m own = elim (Bool-cases (remaining_quantity current == 0)) [
    | inl e ↦
        let spent : remaining_quantity current ≡ 0 = ground arith in
        let alone : (x : Order)
            → Member x orders
            → x.id ≡ p.order_row.id
            → remaining_quantity x ≡ 0 =
          λ x n same.
            let row : x ≡ current =
              unique_row (has_id current.id) orders x current (key current.id) n m
                (rw (same, ← own) (==_refl current.id)) (==_refl current.id) in
            rw row spent in
        rw e (
          Rests-pure _ (λ db h. record {
            same = own;
            counts = λ i. rw h refl;
            goes = inl (refl, inl (rw h alone));
          }))
    | inr e ↦ rw e (
        Rests-bind _ _ (λ _ db. Lasts orders db.orders) (refresh_stops-Rests s.now body orders)
          (λ _.
            Rests-given (Lasts orders) _
              (λ after lasts. searched-Rests orders after current lasts key m own)))
  ]

  -- A turn from a table with unique keys.
  pub match_turn-Rests :
      (orders : List Order)
      → OrdersKeyed orders
      → Rests
          (At orders)
          (match_turn k s user_id body p)
          (Turned user_id body p.order_row.id orders)
  unfolding match_turn get_order_by_id
  match_turn-Rests orders key =
      Rests-bind _ _
        (λ found db.
          (found ≡ fetch_one (select_where (has_id p.order_row.id) orders)) × At orders db)
        (Rests-query _ (λ db e. (rw e refl, e)))
        (λ found. record { at = λ c clean h. (by_row found (sym h.0)).at c clean h.1 })
    where
      by_row :
          (found : Option Order)
          → fetch_one (select_where (has_id p.order_row.id) orders) ≡ found
          → Rests
              (At orders)
              (continue_with k s user_id body p found)
              (Turned user_id body p.order_row.id orders)
      by_row none e =
          let none_has = count_of_fetch_none (has_id p.order_row.id) orders e in
          Rests-pure _ (λ db h. record {
            same = refl;
            counts = λ i. rw h refl;
            goes = inl (
              refl,
              inl (
                  rw h (λ x m same.
                    absurd
                      (none_counted (has_id p.order_row.id) orders x none_has m (ground arith)))),
            );
          })
      by_row (some current) e =
          let (hit, m) = fetch_one-select_where (has_id p.order_row.id) orders current e in
          found-Rests orders current key m (ground arith)
