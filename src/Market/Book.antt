-- ===== src/Market/Book.antt =====
-- Listings, cancelling, the search for a match and stop-order activation
-- (services/marketplace/db.py).
pub mod Priority
pub mod Triggers
use tokenization.Common.{
  ℕ, ◌-◌, Bool, true, false, not, ◌&&◌, ◌||◌, Option, none, some, List, [], ◌∷◌, map, ltb, leb,
  ◌==◌, if◌then◌else◌, is_some, get_or,
}
use tokenization.Common.Table.{select_where, update_where, fetch_one, sum_by}
use tokenization.Common.Sort.{order_by}
use tokenization.Database.Model.{
  Side, OrderType, OrderStatus, TradeStatus, Order, Trade, Db, is_buy, is_limit, is_open_status,
}
use tokenization.Database.Tx.{Tx, ◌>>=◌, ◌>>◌, pure, query, modify, commit, Unit₀}
use tokenization.Market.Orders.{day, or_all, newer_order}

abbrev same_status : OrderStatus → OrderStatus → Bool
same_status OrderStatus.open_order OrderStatus.open_order = true
same_status OrderStatus.partially_filled OrderStatus.partially_filled = true
same_status OrderStatus.filled OrderStatus.filled = true
same_status OrderStatus.cancelled OrderStatus.cancelled = true
same_status _ _ = false

abbrev pub same_side : Side → Side → Bool
same_side Side.buy s = is_buy s
same_side Side.sell s = not (is_buy s)

abbrev listed : Option ℕ → Option Side → Option OrderStatus → Order → Bool
listed token_id side status o =
    or_all token_id (λ t. o.token_id == t)
    && or_all side (λ s. same_side o.side s)
    && or_all status (λ s. same_status o.status s)

unfoldable pub list_orders : Option ℕ → Option Side → Option OrderStatus → Tx (List Order)
list_orders token_id side status =
    query (λ db. order_by newer_order (select_where (listed token_id side status) db.orders))

-- COALESCE(settled_at, created_at)
abbrev pub trade_time : Trade → ℕ
trade_time t = get_or t.settled_at t.created_at

abbrev pub newer_trade : Trade → Trade → Bool
newer_trade a b =
    ltb (trade_time b) (trade_time a) || (trade_time a == trade_time b && ltb b.id a.id)

unfoldable pub list_trades : Option ℕ → Tx (List Trade)
list_trades token_id = query (λ db.
    order_by newer_trade (select_where (λ t. or_all token_id (λ k. t.token_id == k)) db.trades))

abbrev pub cancellable : ℕ → ℕ → Order → Bool
cancellable order_id user_id o = o.id == order_id && o.user_id == user_id && is_open_status o.status

abbrev pub cancelled_at : ℕ → Order → Order
cancelled_at now o = record o { status = OrderStatus.cancelled; updated_at = now }

unfoldable pub cancel_order : ℕ → ℕ → ℕ → Tx (Option Order)
cancel_order now order_id user_id = do
  rows ←
      query (λ db. map (cancelled_at now) (select_where (cancellable order_id user_id) db.orders))
  modify (λ db. record db {
    orders = update_where (cancellable order_id user_id) (cancelled_at now) db.orders;
  })
  commit
  pure (fetch_one rows)

-- The WHERE clause that both sides share.
abbrev pub matchable : ℕ → ℕ → Order → Bool
matchable token_id requester_id o =
    o.token_id == token_id
    && is_open_status o.status
    && not (o.user_id == requester_id)
    && ltb o.filled_quantity o.quantity
    && (is_limit o.order_type || is_some o.triggered_at)

-- The counterparty side at an acceptable price.
abbrev pub acceptable : Side → ℕ → Order → Bool
acceptable Side.buy incoming_price o = not (is_buy o.side) && leb o.price_sat incoming_price
acceptable Side.sell incoming_price o = is_buy o.side && leb incoming_price o.price_sat

abbrev pub earlier : Order → Order → Bool
earlier a b = ltb a.created_at b.created_at || (a.created_at == b.created_at && ltb a.id b.id)

-- The ORDER BY clause for an incoming order of the side.
abbrev pub precedes : Side → Order → Order → Bool
precedes Side.buy a b = ltb a.price_sat b.price_sat || (a.price_sat == b.price_sat && earlier a b)
precedes Side.sell a b = ltb b.price_sat a.price_sat || (a.price_sat == b.price_sat && earlier a b)

abbrev pub candidate : ℕ → Side → ℕ → ℕ → Order → Bool
candidate token_id side price requester_id o =
    matchable token_id requester_id o && acceptable side price o

unfoldable pub find_best_match : ℕ → Side → ℕ → ℕ → Tx (Option Order)
find_best_match token_id incoming_side incoming_price requester_id = query (λ db. fetch_one (
    order_by (precedes incoming_side)
      (select_where (candidate token_id incoming_side incoming_price requester_id) db.orders)))

abbrev pub is_settled : TradeStatus → Bool
is_settled TradeStatus.settled = true
is_settled TradeStatus.pending = false
is_settled TradeStatus.escrowed = false
is_settled TradeStatus.disputed = false
is_settled TradeStatus.cancelled = false

abbrev price_of : Option Trade → Option ℕ
price_of none = none
price_of (some t) = some t.price_sat

unfoldable pub get_last_trade_price_for_token : ℕ → Tx (Option ℕ)
get_last_trade_price_for_token token_id = query (λ db. price_of (
    fetch_one (
      order_by newer_trade
        (select_where (λ t. t.token_id == token_id && is_settled t.status) db.trades))))

-- The price of the latest trade, in whatever state, or else the token's unit price.
unfoldable pub get_reference_price_for_token : ℕ → Tx (Option ℕ)
get_reference_price_for_token token_id = do
  price ← query (λ db.
      price_of
        (fetch_one (order_by newer_trade (select_where (λ t. t.token_id == token_id) db.trades))))
  unit_price ← query (λ db.
      fetch_one (map (λ t. t.unit_price_sat) (select_where (λ t. t.id == token_id) db.tokens)))
  pure (if is_some price then price else unit_price)

-- The trigger test of the UPDATE: a missing trigger price is never reached.
abbrev pub trigger_reached : Side → Option ℕ → ℕ → Bool
trigger_reached side none reference = false
trigger_reached Side.buy (some trigger) reference = leb trigger reference
trigger_reached Side.sell (some trigger) reference = leb reference trigger

abbrev pub triggers : ℕ → ℕ → Order → Bool
triggers token_id reference o =
    o.token_id == token_id
    && is_open_status o.status
    && not (is_limit o.order_type)
    && not (is_some o.triggered_at)
    && trigger_reached o.side o.trigger_price_sat reference

abbrev pub triggered : ℕ → Order → Order
triggered now o = record o { triggered_at = some now; updated_at = now }

-- `if rows: await conn.commit()`
abbrev pub commit_if_any : {A : Type 0} → List A → Tx Unit₀
commit_if_any [] = pure tt
commit_if_any (_ ∷ _) = commit

unfoldable pub activate_triggered_orders : ℕ → ℕ → ℕ → Tx (List Order)
activate_triggered_orders now token_id reference = do
  rows ← query (λ db. map (triggered now) (select_where (triggers token_id reference) db.orders))
  modify (λ db. record db {
    orders = update_where (triggers token_id reference) (triggered now) db.orders;
  })
  commit_if_any rows
  pure rows

unfoldable pub get_trade_volume_24h : ℕ → ℕ → Tx ℕ
get_trade_volume_24h now token_id = query (λ db.
    sum_by (λ t. t.quantity)
      (select_where
        (λ t. t.token_id == token_id && is_settled t.status && leb (now - day) (trade_time t))
        db.trades))
