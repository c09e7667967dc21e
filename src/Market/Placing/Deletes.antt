-- ===== src/Market/Placing/Deletes.antt =====
-- Cancelling an order through the handler, by what the table of orders has.
use tokenization.Common.{
  ℕ, ◌≡◌, ◌≢◌, refl, inl, inr, true, false, Option, some, List, arith, ◌==◌, ==_refl, Member,
  Bool-cases, Option-cases,
}
use tokenization.Common.Table.{
  select_where, update_where, fetch_one, count_where, fetch_one-select_where, count_of_fetch_none,
  unique_row,
}
use tokenization.Common.Agree.{select_where_agree, update_where_agree, fetch-map}
use tokenization.Database.Model.{Order, Db, is_open_status}
use tokenization.Database.Tx.{
  Result, ok, err, Conn, contract_error, Refusal, at_rest, ◌>>=◌, pure, query, or_raise, raise_if,
  modify, commit,
}
use tokenization.Market.Orders.{get_order_by_id}
use tokenization.Market.Book.{cancellable, cancelled_at, cancel_order}
use tokenization.Market.Placing.{delete_order}
use tokenization.Market.Placing.Work.{has_id, OrdersKeyed}

-- The table with one order cancelled.
abbrev pub without : ℕ → ℕ → Db → Db
without now order_id db = record db {
  orders = update_where (has_id order_id) (cancelled_at now) db.orders;
}

pub data Deletes (now order_id user_id : ℕ) (db : Db) (out : Result (Option Order) × Conn)
    : Type 0 where
  absent :
      count_where (has_id order_id) db.orders ≡ 0
      → out ≡ (err (contract_error Refusal.order_not_found), at_rest db)
      → Deletes now order_id user_id db out
  foreign :
      (row : Order)
      → Member row db.orders
      → row.id ≡ order_id
      → row.user_id ≢ user_id
      → out ≡ (err (contract_error Refusal.forbidden), at_rest db)
      → Deletes now order_id user_id db out
  closed :
      (row : Order)
      → Member row db.orders
      → row.id ≡ order_id
      → row.user_id ≡ user_id
      → is_open_status row.status ≡ false
      → out ≡ (err (contract_error Refusal.order_state_conflict), at_rest db)
      → Deletes now order_id user_id db out
  cancels :
      (row : Order)
      → Member row db.orders
      → row.id ≡ order_id
      → row.user_id ≡ user_id
      → is_open_status row.status ≡ true
      → out ≡ (ok (some (cancelled_at now row)), at_rest (without now order_id db))
      → Deletes now order_id user_id db out

module _ (order_id user_id : ℕ) (orders : List Order) (key : OrdersKeyed orders) (row : Order)
    (m : Member row orders) (named : row.id ≡ order_id) (own : row.user_id ≡ user_id)
    (live : is_open_status row.status ≡ true) where
  -- The WHERE clause of the UPDATE meets the one row of the order.
  cancellable_agree :
      (x : Order) → Member x orders → cancellable order_id user_id x ≡ has_id order_id x
  cancellable_agree x n = elim (Bool-cases (has_id order_id x)) [
    | inl e ↦
        let here : x ≡ row =
          unique_row (has_id order_id) orders x row (key order_id) n m e
            (rw named (==_refl order_id)) in
        rw here (ground (arith, named, own, live))
    | inr e ↦ rw e refl
  ]

-- On orders with unique keys and with nothing uncommitted, cancelling an order by its identifier ends in one of
-- four ways. If there is no such order, or it is another user's, or it is filled or cancelled, it is refused as
-- unknown, as forbidden or as in conflict, and nothing changes; otherwise that order and no other is cancelled,
-- which is committed, and the cancelled row is the answer.
pub delete_order-Deletes :
    (now order_id user_id : ℕ) (db : Db)
    → OrdersKeyed db.orders
    → Deletes now order_id user_id db (delete_order now order_id user_id (at_rest db))
unfolding delete_order cancel_order get_order_by_id ◌>>=◌ query or_raise raise_if modify commit pure
delete_order-Deletes now order_id user_id db key =
    elim (Option-cases (fetch_one (select_where (has_id order_id) db.orders))) [
      | inl e ↦ Deletes.absent (count_of_fetch_none (has_id order_id) db.orders e) (rw e refl)
      | inr (row, e) ↦
          let (hit, m) = fetch_one-select_where (has_id order_id) db.orders row e in
          let named : row.id ≡ order_id = ground arith in
          elim (Bool-cases (row.user_id == user_id)) [
            | inr other ↦ Deletes.foreign row m named (ground arith) (rw (e, other) refl)
            | inl mine ↦
                let own : row.user_id ≡ user_id = ground arith in
                elim (Bool-cases (is_open_status row.status)) [
                  | inr shut ↦ Deletes.closed row m named own shut (rw (e, mine, shut) refl)
                  | inl live ↦
                      let agree =
                        cancellable_agree order_id user_id db.orders key row m named own live in
                      let read = select_where_agree _ (has_id order_id) db.orders agree in
                      let written =
                        update_where_agree _ (has_id order_id) (cancelled_at now) db.orders agree in
                      let given = fetch-map (cancelled_at now) _ row e in
                      Deletes.cancels row m named own live
                        (rw (e, mine, live) (rw (read, written) (rw given refl)))
                ]
          ]
    ]
