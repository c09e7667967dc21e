-- ===== src/Market/Placing/Turn.antt =====
-- The steps of a turn of the matching loop, by what they leave to match.
pub mod Attempt
pub mod Whole
use tokenization.Common.{ℕ, ◌≡◌, refl, true, Option, none, some, List, [], ◌∷◌, map, Member}
use tokenization.Common.Table.{
  select_where, update_where, fetch_one, count_where-update_where, count_of_fetch_none,
  update_where_unselected,
}
use tokenization.Database.Model.{Order, Db, is_limit, is_open_status}
use tokenization.Database.Tx.{
  Failure, value_error, lookup_error, contract_error, runtime_error, integrity_error, ValueError,
  LookupError, Conn, Tx, ◌>>=◌, ◌>>◌, pure, query, modify, commit,
}
use tokenization.Database.Tx.Rests.{Rested, Rests, Rests-pure, Rests-query, Rests-if, Rests-bind}
use tokenization.Market.Orders.{OrderRequest}
use tokenization.Market.Book.{
  triggers, triggered, commit_if_any, activate_triggered_orders, get_reference_price_for_token,
  cancellable, cancelled_at, cancel_order,
}
use tokenization.Market.Placing.{
  Recovery, recovery, of_value_error, of_lookup_error, activate_at, refresh_stops,
}
use tokenization.Market.Placing.Work.{has_id, Lasts, activated-Lasts, cancelled-lt}
use tokenization.Market.Placing.Lightens.{Lightens}
use tokenization.Market.Placing.Enough.{IsOther}

abbrev pub At : List Order → Db → Type 0
At orders db = db.orders ≡ orders

-- Orders are triggered, and committed if some row was.
module _ (now token reference : ℕ) (orders : List Order) (c : Conn)
    (clean : c.current ≡ c.committed) (here : c.current.orders ≡ orders) where
  activated-Rested :
      (rows : List Order)
      → rows ≡ select_where (triggers token reference) c.current.orders
      → let db = record c.current {
        orders = update_where (triggers token reference) (triggered now) c.current.orders;
      } in
        let out =
          (commit_if_any (map (triggered now) rows) >> pure (map (triggered now) rows))
            (record c { current = db }) in
        Rested (λ _ d. Lasts orders d.orders) out.0 out.1
  unfolding ◌>>=◌ commit pure
  activated-Rested [] e =
      let same = update_where_unselected (triggers token reference) (triggered now) _ e in
      (rw same clean, rw here (activated-Lasts now token reference orders))
  activated-Rested (r ∷ rows) e = (refl, rw here (activated-Lasts now token reference orders))

pub activate-Rests :
    (now token reference : ℕ) (orders : List Order)
    → Rests
        (At orders)
        (activate_triggered_orders now token reference)
        (λ _ db. Lasts orders db.orders)
unfolding activate_triggered_orders ◌>>=◌ query modify
activate-Rests now token reference orders = record {
  at = λ c clean here.
      activated-Rested now token reference orders c clean here
        (select_where (triggers token reference) c.current.orders) refl;
}

pub Lasts-refl : (orders : List Order) → Lasts orders orders
Lasts-refl orders = record { counts = λ i. refl; worth = refl; tells = λ o h. h }

activate_at-Rests :
    (now token : ℕ) (reference : Option ℕ) (orders : List Order)
    → Rests (At orders) (activate_at now token reference) (λ _ db. Lasts orders db.orders)
activate_at-Rests now token none orders = Rests-pure tt (λ db e. rw e (Lasts-refl orders))
activate_at-Rests now token (some r) orders =
    Rests-bind _ _ (λ _ db. Lasts orders db.orders) (activate-Rests now token r orders)
      (λ _. Rests-pure tt (λ db h. h))

get_reference_price-Rests :
    (token : ℕ) (orders : List Order)
    → Rests (At orders) (get_reference_price_for_token token) (λ _. At orders)
unfolding get_reference_price_for_token
get_reference_price-Rests token orders =
    Rests-bind _ _ (λ _. At orders) (Rests-query _ (λ db e. e))
      (λ _.
        Rests-bind _ _ (λ _. At orders) (Rests-query _ (λ db e. e)) (λ _. Rests-pure _ (λ db e. e)))

pub refresh_stops-Rests :
    (now : ℕ) (body : OrderRequest) (orders : List Order)
    → Rests (At orders) (refresh_stops now body) (λ _ db. Lasts orders db.orders)
refresh_stops-Rests now body orders =
    Rests-if (is_limit body.order_type) (pure tt)
      (get_reference_price_for_token body.token_id >>= activate_at now body.token_id)
      (λ _. Rests-pure tt (λ db e. rw e (Lasts-refl orders)))
      (λ _.
        Rests-bind _ _ (λ _. At orders) (get_reference_price-Rests body.token_id orders)
          (λ reference. activate_at-Rests now body.token_id reference orders))

-- Cancelling an order that is open leaves less to match.
pub cancel_order-Rests :
    (now : ℕ) (o : Order) (orders : List Order)
    → Member o orders
    → is_open_status o.status ≡ true
    → Rests (At orders) (cancel_order now o.id o.user_id) (λ _ db. Lightens orders db.orders)
unfolding cancel_order ◌>>=◌ query modify commit pure
cancel_order-Rests now o orders m live = record {
  at = λ c clean e. (
    refl,
    rw e record {
      counts = λ i.
          count_where-update_where (has_id i) (cancellable o.id o.user_id) (cancelled_at now) orders
            (λ x. refl);
      less = cancelled-lt now o orders m live;
    },
  );
}

value_rereads : (e : ValueError) → of_value_error e ≡ Recovery.rereads → IsOther (value_error e) → ⊥
value_rereads ValueError.order_insufficient_quantity h other = other
value_rereads _ h other = absurd (cc)

lookup_rereads : (e : LookupError) → of_lookup_error e ≡ Recovery.rereads → ⊥
lookup_rereads LookupError.wallet_not_found h = absurd (cc)
lookup_rereads _ h = absurd (cc)

-- The loop reads the order again only for a quantity that was insufficient.
pub rereads : (e : Failure) → recovery e ≡ Recovery.rereads → IsOther e → ⊥
rereads (value_error e) h other = value_rereads e h other
rereads (lookup_error e) h other = lookup_rereads e h
rereads (contract_error e) h other = absurd (cc)
rereads runtime_error h other = absurd (cc)
rereads integrity_error h other = absurd (cc)

-- From a table that is known by a fact.
pub Rests-given :
    {A : Type 0} {Q : A → Db → Type 0} (R : List Order → Type 0) (m : Tx A)
    → ((orders : List Order) → R orders → Rests (At orders) m Q)
    → Rests (λ db. R db.orders) m Q
Rests-given R m h = record { at = λ c clean r. (h c.current.orders r).at c clean refl }
