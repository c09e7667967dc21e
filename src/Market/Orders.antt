-- ===== src/Market/Orders.antt =====
-- The order book: reading, placing, cancelling, matching and filling orders
-- (services/marketplace/db.py).
use tokenization.Common.{
  ℕ, ◌-◌, ◌*◌, Bool, true, not, ◌&&◌, ◌||◌, Option, none, some, [], ◌∷◌, ◌++◌, ltb, ◌==◌, is_some,
}
use tokenization.Common.Table.{select_where, fetch_one, sum_by}
use tokenization.Database.Model.{Side, OrderType, OrderStatus, Order, Trade, is_buy, is_open_status}
use tokenization.Database.Assets.{Token}
use tokenization.Database.Tx.{
  Tx, ◌>>=◌, ◌>>◌, pure, query, raise_if, modify, commit, value_error, integrity_error,
  quantity_must_be_positive, price_sat_must_be_positive, invalid_order_side, token_mismatch,
  order_insufficient_quantity, Unit₀,
}

-- Twenty-four hours, in microseconds.
abbrev pub day : ℕ
day = 86_400_000_000

unfoldable pub remaining_quantity : Order → ℕ
remaining_quantity o = o.quantity - o.filled_quantity

unfoldable pub validate_trade_inputs : Order → Order → ℕ → ℕ → Tx Unit₀
unfolding remaining_quantity
validate_trade_inputs buy_order sell_order quantity price_sat = do
  raise_if (quantity == 0) (value_error quantity_must_be_positive)
  raise_if (price_sat == 0) (value_error price_sat_must_be_positive)
  raise_if (not (is_buy buy_order.side) || is_buy sell_order.side) (value_error invalid_order_side)
  raise_if (not (buy_order.token_id == sell_order.token_id)) (value_error token_mismatch)
  raise_if
      (ltb (remaining_quantity buy_order) quantity || ltb (remaining_quantity sell_order) quantity)
      (value_error order_insufficient_quantity)

unfoldable pub get_order_by_id : ℕ → Tx (Option Order)
get_order_by_id order_id = query (λ db. fetch_one (select_where (λ o. o.id == order_id) db.orders))

unfoldable pub get_token_by_id : ℕ → Tx (Option Token)
get_token_by_id token_id = query (λ db. fetch_one (select_where (λ t. t.id == token_id) db.tokens))

unfoldable pub get_trade_by_id : ℕ → Tx (Option Trade)
get_trade_by_id trade_id = query (λ db. fetch_one (select_where (λ t. t.id == trade_id) db.trades))

-- An open sell order of the user for the token.
abbrev pub reserves_tokens : ℕ → ℕ → Order → Bool
reserves_tokens user_id token_id o =
    o.user_id == user_id && o.token_id == token_id && not (is_buy o.side) && is_open_status o.status

unfoldable pub get_reserved_sell_quantity : ℕ → ℕ → Tx ℕ
get_reserved_sell_quantity user_id token_id = query (λ db.
    sum_by (λ o. o.quantity - o.filled_quantity)
      (select_where (reserves_tokens user_id token_id) db.orders))

abbrev pub reserves_sats : ℕ → Order → Bool
reserves_sats user_id o = o.user_id == user_id && is_buy o.side && is_open_status o.status

unfoldable pub get_reserved_buy_commitment : ℕ → Tx ℕ
get_reserved_buy_commitment user_id = query (λ db.
    sum_by (λ o. (o.quantity - o.filled_quantity) * o.price_sat)
      (select_where (reserves_sats user_id) db.orders))

-- What a client asks for (`OrderCreateRequest`).
pub record OrderRequest : Type 0 where
  pub token_id : ℕ
  pub side : Side
  pub order_type : OrderType
  pub quantity : ℕ
  pub price_sat : ℕ
  pub trigger_price_sat : Option ℕ

abbrev pub new_order : ℕ → ℕ → ℕ → OrderRequest → Option ℕ → Order
new_order order_id now user_id r triggered_at = record {
  id = order_id;
  user_id = user_id;
  token_id = r.token_id;
  side = r.side;
  order_type = r.order_type;
  quantity = r.quantity;
  price_sat = r.price_sat;
  trigger_price_sat = r.trigger_price_sat;
  triggered_at = triggered_at;
  filled_quantity = 0;
  status = OrderStatus.open_order;
  created_at = now;
  updated_at = now;
}

unfoldable pub create_order : ℕ → ℕ → ℕ → OrderRequest → Option ℕ → Tx Order
create_order order_id now user_id r triggered_at = do
  let row = new_order order_id now user_id r triggered_at
  taken ← query (λ db. is_some (fetch_one (select_where (λ o. o.id == order_id) db.orders)))
  raise_if taken integrity_error
  modify (λ db. record db { orders = db.orders ++ row ∷ [] })
  commit
  pure row

-- An optional filter of a listing.
abbrev pub or_all : {A : Type 0} → Option A → (A → Bool) → Bool
or_all none p = true
or_all (some a) p = p a

-- ORDER BY created_at DESC, id DESC
abbrev pub newer_order : Order → Order → Bool
newer_order a b = ltb b.created_at a.created_at || (a.created_at == b.created_at && ltb b.id a.id)
