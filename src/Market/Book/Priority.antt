-- ===== src/Market/Book/Priority.antt =====
-- Price-time priority of `find_best_match`.
use tokenization.Common.{
  ℕ, ◌≤◌, ◌<◌, ◌≡◌, ◌≢◌, refl, ◌⊎◌, inl, inr, Bool, true, false, ◌&&◌, Option, none, some, List,
  arith, Member, All-at, is_some, ltb, ◌==◌, ◌||◌,
}
use tokenization.Common.Table.{select_where, fetch_one}
use tokenization.Common.First.{IsOrder, IsBest, order_by-IsBest}
use tokenization.Common.Sort.{order_by}
use tokenization.Database.Model.{
  Side, OrderType, OrderStatus, Order, is_open_status, is_buy, is_limit,
}
use tokenization.Database.Tx.{ok, Conn, query}
use tokenization.Market.Book.{acceptable, candidate, precedes, find_best_match}

precedes-IsOrder : (side : Side) → IsOrder (precedes side)
precedes-IsOrder Side.buy = record {
  asym = λ a b h. ground arith;
  skip = λ a b c h k. ground arith;
}
precedes-IsOrder Side.sell = record {
  asym = λ a b h. ground arith;
  skip = λ a b c h k. ground arith;
}

-- The other side of the book, at a price that the incoming order accepts.
abbrev pub Acceptable : Side → ℕ → Order → Type 0
Acceptable Side.buy price o = (o.side ≡ Side.sell) × (o.price_sat ≤ price)
Acceptable Side.sell price o = (o.side ≡ Side.buy) × (price ≤ o.price_sat)

-- An order of the book that an incoming order can trade with.
pub record CanMatch (token : ℕ) (side : Side) (price requester : ℕ) (o : Order) : Type 0 where
  pub token_is : o.token_id ≡ token
  pub live : (o.status ≡ OrderStatus.open_order) ⊎ (o.status ≡ OrderStatus.partially_filled)
  pub foreign : o.user_id ≢ requester
  pub remains : o.filled_quantity < o.quantity
  pub ready : (o.order_type ≡ OrderType.limit) ⊎ (is_some o.triggered_at ≡ true)
  pub accepted : Acceptable side price o

-- The order `r` has the better price for the incoming side, or the same price and is no younger.
abbrev pub NotWorse : Side → Order → Order → Type 0
NotWorse Side.buy r a =
    (r.price_sat ≤ a.price_sat) × (r.price_sat ≡ a.price_sat → r.created_at ≤ a.created_at)
NotWorse Side.sell r a =
    (a.price_sat ≤ r.price_sat) × (r.price_sat ≡ a.price_sat → r.created_at ≤ a.created_at)

-- No order where none can match, and else one that can and that no other is better than.
abbrev pub IsBestMatch : ℕ → Side → ℕ → ℕ → List Order → Option Order → Type 0
IsBestMatch token side price requester orders none =
    (a : Order) → Member a orders → CanMatch token side price requester a → ⊥
IsBestMatch token side price requester orders (some r) =
    Member r orders
    × CanMatch token side price requester r
    × ((a : Order) → Member a orders → CanMatch token side price requester a → NotWorse side r a)

pub live_of :
    (s : OrderStatus)
    → is_open_status s ≡ true
    → (s ≡ OrderStatus.open_order) ⊎ (s ≡ OrderStatus.partially_filled)
live_of OrderStatus.open_order e = inl refl
live_of OrderStatus.partially_filled e = inr refl
live_of OrderStatus.filled e = absurd (ground arith)
live_of OrderStatus.cancelled e = absurd (ground arith)

pub live_back :
    (s : OrderStatus)
    → (s ≡ OrderStatus.open_order) ⊎ (s ≡ OrderStatus.partially_filled)
    → is_open_status s ≡ true
live_back s (inl e) = rw e refl
live_back s (inr e) = rw e refl

limit_of : (t : OrderType) → is_limit t ≡ true → t ≡ OrderType.limit
limit_of OrderType.limit e = refl
limit_of OrderType.stop_limit e = absurd (ground arith)

sell_of : (s : Side) → is_buy s ≡ false → s ≡ Side.sell
sell_of Side.sell e = refl
sell_of Side.buy e = absurd (ground arith)

buy_of : (s : Side) → is_buy s ≡ true → s ≡ Side.buy
buy_of Side.buy e = refl
buy_of Side.sell e = absurd (ground arith)

ready_of :
    (t : OrderType) (b : Bool) → (is_limit t || b) ≡ true → (t ≡ OrderType.limit) ⊎ (b ≡ true)
ready_of OrderType.limit b e = inl refl
ready_of OrderType.stop_limit b e = inr e

ready_back :
    (t : OrderType) (b : Bool) → (t ≡ OrderType.limit) ⊎ (b ≡ true) → (is_limit t || b) ≡ true
ready_back t b (inl e) = rw e refl
ready_back OrderType.limit b (inr e) = refl
ready_back OrderType.stop_limit b (inr e) = e

module _ (token : ℕ) (side : Side) (price requester : ℕ) (o : Order) where
  accepted_of : (s : Side) → acceptable s price o ≡ true → Acceptable s price o
  accepted_of Side.buy e = (sell_of o.side (ground (arith, e)), ground (arith, e))
  accepted_of Side.sell e = (buy_of o.side (ground (arith, e)), ground (arith, e))

  accepted_back : (s : Side) → Acceptable s price o → acceptable s price o ≡ true
  accepted_back Side.buy (e, le) = rw e (ground arith)
  accepted_back Side.sell (e, le) = rw e (ground arith)

  candidate-CanMatch :
      candidate token side price requester o ≡ true → CanMatch token side price requester o
  candidate-CanMatch h = record {
    token_is = ground (arith, h);
    live = live_of o.status (ground (arith, h));
    foreign = ground (arith, h);
    remains = ground (arith, h);
    ready = ready_of o.order_type (is_some o.triggered_at) (ground (arith, h));
    accepted = accepted_of side (ground (arith, h));
  }

  CanMatch-candidate :
      CanMatch token side price requester o → candidate token side price requester o ≡ true
  CanMatch-candidate h =
      let of_token : (o.token_id == token) ≡ true = ground (arith, h.token_is) in
      let own : (o.user_id == requester) ≡ false = ground (arith, h.foreign) in
      let room : ltb o.filled_quantity o.quantity ≡ true = ground (arith, h.remains) in
      rw
        (
          of_token,
          live_back o.status h.live,
          own,
          room,
          ready_back o.order_type (is_some o.triggered_at) h.ready,
          accepted_back side h.accepted,
        )
        refl

not_worse : (side : Side) (r a : Order) → precedes side a r ≡ false → NotWorse side r a
not_worse Side.buy r a e = (ground (arith, e), λ same. ground (arith, e))
not_worse Side.sell r a e = (ground (arith, e), λ same. ground (arith, e))

module _ (token : ℕ) (side : Side) (price requester : ℕ) (orders : List Order) where
  abbrev fits : Order → Bool
  fits = candidate token side price requester

  IsBest-IsBestMatch :
      (r : Option Order)
      → IsBest fits (precedes side) orders r
      → IsBestMatch token side price requester orders r
  IsBest-IsBestMatch none none_fits = λ a m can.
      let no : fits a ≡ false = All-at (λ x. fits x ≡ false) orders a none_fits m in
      absurd (cc (CanMatch-candidate token side price requester a can))
  IsBest-IsBestMatch (some r) (m, hit, best) = (
    m,
    candidate-CanMatch token side price requester r hit,
    λ a n can.
        let k : (fits a && precedes side a r) ≡ false =
          All-at (λ x. (fits x && precedes side x r) ≡ false) orders a best n in
        let yes : fits a ≡ true = CanMatch-candidate token side price requester a can in
        not_worse side r a (rw yes at k),
  )

pub find_best_match-IsBest :
    (token : ℕ) (side : Side) (price requester : ℕ) (c : Conn)
    → (r : Option Order) × (find_best_match token side price requester c ≡ (ok r, c))
      × IsBest (candidate token side price requester) (precedes side) c.current.orders r
unfolding find_best_match query
find_best_match-IsBest token side price requester c = (
  fetch_one (
      order_by (precedes side)
        (select_where (candidate token side price requester) c.current.orders)),
  refl,
  order_by-IsBest (candidate token side price requester) (precedes side) (precedes-IsOrder side)
      c.current.orders,
)

-- The search for a match writes nothing and returns an order exactly when some order of the book can match: one
-- of the token, open or partly filled and with a rest, of another user, on the other side at a price that the
-- incoming order accepts, and no stop order that waits for its trigger. The order that is returned can match,
-- and none that can has a better price for the incoming order, or the same price and an earlier time.
pub find_best_match-IsBestMatch :
    (token : ℕ) (side : Side) (price requester : ℕ) (c : Conn)
    → (r : Option Order) × (find_best_match token side price requester c ≡ (ok r, c))
      × IsBestMatch token side price requester c.current.orders r
find_best_match-IsBestMatch token side price requester c =
    let (r, found, best) = find_best_match-IsBest token side price requester c in
    (r, found, IsBest-IsBestMatch token side price requester c.current.orders r best)
