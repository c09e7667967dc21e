-- ===== src/Market/Book/Triggers.antt =====
-- The two tests of a stop order's trigger: the handler's on a new order, and the WHERE clause's on
-- the resting ones.
use tokenization.Common.{
  ℕ, ◌≤◌, ◌≡◌, refl, ◌⊎◌, inl, inr, true, not, Option, none, some, is_some, List, [], ◌∷◌, arith,
  map, Member, ◌==◌,
}
use tokenization.Common.Table.{update_where, Member-update_where, select_where}
use tokenization.Database.Model.{Side, OrderType, OrderStatus, Order, is_limit}
use tokenization.Database.Tx.{Conn, ◌>>=◌, query, modify, commit, pure}
use tokenization.Market.Book.Priority.{live_of, live_back}
use tokenization.Market.Book.{
  trigger_reached, triggers, triggered, commit_if_any, activate_triggered_orders,
}

-- The orders after the activation, whether or not there was something to commit.
activated_orders :
    (now token reference : ℕ) (c : Conn)
    → (activate_triggered_orders now token reference c).1.current.orders
      ≡ update_where (triggers token reference) (triggered now) c.current.orders
unfolding activate_triggered_orders ◌>>=◌ query modify commit pure
activated_orders now token reference c =
    by_rows (map (triggered now) (select_where (triggers token reference) c.current.orders))
  where
    orders : List Order
    orders = update_where (triggers token reference) (triggered now) c.current.orders

    by_rows :
        (rows : List Order)
        → ((commit_if_any rows >>= λ _. pure rows)
            (record c { current = record c.current { orders = orders } })).1.current.orders
          ≡ orders
    by_rows [] = refl
    by_rows (r ∷ rows) = refl

-- The reference price has come up to the trigger of a buy order, or down to that of a sell order.
abbrev pub Reaches : Side → ℕ → ℕ → Type 0
Reaches Side.buy trigger reference = trigger ≤ reference
Reaches Side.sell trigger reference = reference ≤ trigger

-- A stop order of the token that waits for a trigger that the reference price has reached.
pub record IsDue (token reference : ℕ) (o : Order) : Type 0 where
  pub token_is : o.token_id ≡ token
  pub live : (o.status ≡ OrderStatus.open_order) ⊎ (o.status ≡ OrderStatus.partially_filled)
  pub stop : o.order_type ≡ OrderType.stop_limit
  pub waits : o.triggered_at ≡ none
  pub trigger : ℕ
  pub has_trigger : o.trigger_price_sat ≡ some trigger
  pub reached : Reaches o.side trigger reference

reached_back :
    (side : Side) (trigger reference : ℕ)
    → Reaches side trigger reference
    → trigger_reached side (some trigger) reference ≡ true
reached_back Side.buy trigger reference h = ground (arith, h)
reached_back Side.sell trigger reference h = ground (arith, h)

reached_of :
    (side : Side) (price : Option ℕ) (reference : ℕ)
    → trigger_reached side price reference ≡ true
    → (trigger : ℕ) × (price ≡ some trigger) × Reaches side trigger reference
reached_of side none reference h = absurd (ground arith)
reached_of Side.buy (some trigger) reference h = (trigger, refl, ground (arith, h))
reached_of Side.sell (some trigger) reference h = (trigger, refl, ground (arith, h))

stop_of : (t : OrderType) → not (is_limit t) ≡ true → t ≡ OrderType.stop_limit
stop_of OrderType.stop_limit e = refl
stop_of OrderType.limit e = absurd (ground arith)

none_of : (t : Option ℕ) → not (is_some t) ≡ true → t ≡ none
none_of none e = refl
none_of (some x) e = absurd (ground arith)

module _ (token reference : ℕ) (o : Order) where
  IsDue-triggers : IsDue token reference o → triggers token reference o ≡ true
  IsDue-triggers h =
      let of_token : (o.token_id == token) ≡ true = ground (arith, h.token_is) in
      rw
        (
          of_token,
          live_back o.status h.live,
          h.stop,
          h.waits,
          h.has_trigger,
          reached_back o.side h.trigger reference h.reached,
        )
        refl

  triggers-IsDue : triggers token reference o ≡ true → IsDue token reference o
  triggers-IsDue h =
      let (trigger, has, reached) =
        reached_of o.side o.trigger_price_sat reference (ground (arith, h)) in
      record {
        token_is = ground (arith, h);
        live = live_of o.status (ground (arith, h));
        stop = stop_of o.order_type (ground (arith, h));
        waits = none_of o.triggered_at (ground (arith, h));
        trigger = trigger;
        has_trigger = has;
        reached = reached;
      }

-- Where an order after an activation comes from: it was due and is triggered now, or it was not due and is as
-- before.
pub record IsActivated (now token reference : ℕ) (orders : List Order) (o : Order) : Type 0 where
  pub row : Order
  pub found : Member row orders
  pub change :
      (IsDue token reference row × (o ≡ record row { triggered_at = some now; updated_at = now }))
      ⊎ ((IsDue token reference row → ⊥) × (o ≡ row))

-- After the activation at a reference price, every order is one from before: if it was an open or partly filled
-- stop order of the token that waited, and the price has come up to the trigger of a buy or down to that of a
-- sell, it is triggered now, and otherwise it is as it was. So no order of the token still waits for a trigger
-- that the price has reached.
pub activate_triggered_orders-IsActivated :
    (now token reference : ℕ) (c : Conn) (o : Order)
    → Member o (activate_triggered_orders now token reference c).1.current.orders
    → IsActivated now token reference c.current.orders o × (IsDue token reference o → ⊥)
activate_triggered_orders-IsActivated now token reference c o m =
    let origin =
      Member-update_where (triggers token reference) (triggered now) c.current.orders o
        (rw (activated_orders now token reference c) at m) in
    elim origin.change [
      | inl (hit, o_eq) ↦ (
        record {
          row = origin.row;
          found = origin.found;
          change = inl (triggers-IsDue token reference origin.row hit, o_eq);
        },
        λ due. absurd (cc (due.waits, o_eq)),
      )
      | inr (miss, o_eq) ↦
          let idle : IsDue token reference origin.row → ⊥ =
            λ due. absurd (cc (IsDue-triggers token reference origin.row due)) in
          (
            record { row = origin.row; found = origin.found; change = inr (idle, o_eq) },
            rw o_eq idle,
          )
    ]
