-- ===== src/Market/Placing/Safe.antt =====
-- The steps of placing an order: the tables and the supply.
use tokenization.Common.{ℕ, ap, map, ◌≡◌, ◌∙◌, refl, Option, none, some, List, [], ◌∷◌}
use tokenization.Common.Table.{select_where, update_where, update_where_unselected}
use tokenization.Database.Model.{Side, Order, Trade, Escrow, Wallet, Db}
use tokenization.Database.Tx.{
  Result, ok, err, Conn, Tx, ◌>>=◌, ◌>>◌, pure, query, modify, commit, Failure,
}
use tokenization.Database.Tx.Moves.{Moves, IsPreorder, move_rules}
use tokenization.Market.Keys.{Keys}
use tokenization.Market.Orders.{
  OrderRequest, get_token_by_id, get_order_by_id, get_reserved_buy_commitment,
  get_reserved_sell_quantity, create_order,
}
use tokenization.Market.Balances.{get_wallet_by_user_id, get_token_balance_for_user}
use tokenization.Market.Book.{
  find_best_match, triggers, triggered, commit_if_any, activate_triggered_orders,
  get_reference_price_for_token, cancel_order,
}
use tokenization.Market.Trading.{Stamp, create_trade_escrow}
use tokenization.Market.Atomicity.{create_trade_escrow-IsAtomic}
use tokenization.Market.Integrity.Preserved.{
  IsSettled, SameSupply, IsSettled-of, create_trade_escrow-IsKept,
}
use tokenization.Market.Placing.{
  get_kyc_status, enforce_kyc_threshold, check_funds, trigger_time, open_order, Progress, Recovery,
  recovery, reread, recover, after_match, activate_at, refresh_stops, trade_with, continue_with,
  match_turn, delete_order,
}

-- From sound tables with nothing uncommitted to the same, with the same supplies, whether the step
-- returns or raises.
abbrev Safely : Conn → Conn → Type 0
Safely c d = IsSettled c → IsSettled d × SameSupply c d

instance abbrev safely : IsPreorder Safely
safely = record {
  stay = λ c s. (s, λ token. refl);
  join = λ c d e p q s.
      let (t, same) = p s in let (u, then_same) = q t in (u, λ token. then_same token ∙ same token);
}

abbrev pub Safe : {A : Type 0} → Tx A → Type 0
Safe m = Moves Safely m

-- A write to other tables that is committed at once.
written :
    (c : Conn) (db : Db)
    → IsSettled c
    → c.current.trades ≡ db.trades
    → c.current.escrows ≡ db.escrows
    → c.current.balances ≡ db.balances
    → IsSettled (record { committed = db; current = db })
      × SameSupply c (record { committed = db; current = db })
written c db s t e b =
    (record { clean = refl; sound = rw (← t, ← e, ← b) s.sound }, λ token. rw (← t, ← b) refl)

Safe-write :
    {A : Type 0} (f : Db → Db) (a : A)
    → ((db : Db) → db.trades ≡ (f db).trades)
    → ((db : Db) → db.escrows ≡ (f db).escrows)
    → ((db : Db) → db.balances ≡ (f db).balances)
    → Safe (modify f >> (commit >> pure a))
unfolding ◌>>=◌ modify commit pure
Safe-write f a t e b = record {
  at = λ c s. written c (f c.current) s (t c.current) (e c.current) (b c.current);
}

ruleset safe_rules = (move_rules, safely, Safe-write)

cancel_order-Safe : (now order_id user_id : ℕ) → Safe (cancel_order now order_id user_id)
unfolding cancel_order
cancel_order-Safe now order_id user_id = search safe_rules depth 40

create_order-Safe :
    (i now u : ℕ) (r : OrderRequest) (t : Option ℕ) → Safe (create_order i now u r t)
unfolding create_order
create_order-Safe i now u r t = search safe_rules depth 40

get_reference_price-Safe : (token : ℕ) → Safe (get_reference_price_for_token token)
unfolding get_reference_price_for_token
get_reference_price-Safe token = search safe_rules depth 40

get_order_by_id-Safe : (i : ℕ) → Safe (get_order_by_id i)
unfolding get_order_by_id
get_order_by_id-Safe i = search safe_rules

find_best_match-Safe : (t : ℕ) (d : Side) (p u : ℕ) → Safe (find_best_match t d p u)
unfolding find_best_match
find_best_match-Safe t d p u = search safe_rules

check_funds-Safe : (u : ℕ) (b : OrderRequest) (w : Wallet) → Safe (check_funds u b w)
unfolding check_funds get_reserved_buy_commitment get_reserved_sell_quantity
    get_token_balance_for_user
check_funds-Safe u b w = search safe_rules depth 40

enforce_kyc_threshold-Safe : (h u v : ℕ) → Safe (enforce_kyc_threshold h u v)
unfolding enforce_kyc_threshold get_kyc_status
enforce_kyc_threshold-Safe h u v = search safe_rules depth 40

trigger_time-Safe : (now : ℕ) (b : OrderRequest) (t : Option ℕ) → Safe (trigger_time now b t)
trigger_time-Safe now b none = search safe_rules
trigger_time-Safe now b (some t) = search (safe_rules, get_reference_price-Safe) depth 40

pub open_order-Safe : (h : ℕ) (s : Stamp) (u : ℕ) (b : OrderRequest) → Safe (open_order h s u b)
unfolding open_order get_token_by_id get_wallet_by_user_id
open_order-Safe h s u b =
    search
      (
        safe_rules, check_funds-Safe, enforce_kyc_threshold-Safe, trigger_time-Safe,
        create_order-Safe,
      )
      depth 60

pub delete_order-Safe : (now order_id user_id : ℕ) → Safe (delete_order now order_id user_id)
unfolding delete_order
delete_order-Safe now order_id user_id =
    search (safe_rules, get_order_by_id-Safe, cancel_order-Safe) depth 40

create_trade_escrow-Safe :
    (s : Stamp) (b o : Order) (q p f : ℕ) (k : Keys) → Safe (create_trade_escrow s b o q p f k)
create_trade_escrow-Safe s b o q p f k = record {
  at = λ c settled.
      IsSettled-of (create_trade_escrow s b o q p f k) c settled
        ((create_trade_escrow-IsAtomic s b o q p f k).at c settled.clean)
        (λ token. create_trade_escrow-IsKept token _ _ _ settled.sound s b o q p f k);
}

-- Orders are written, and committed if some row was.
module _ (now token reference : ℕ) (c : Conn) (settled : IsSettled c) where
  abbrev updated_orders : Db
  updated_orders = record c.current {
    orders = update_where (triggers token reference) (triggered now) c.current.orders;
  }

  abbrev after_update : List Order → Conn
  after_update rows =
      ((commit_if_any (map (triggered now) rows) >> pure (map (triggered now) rows))
        (record c { current = updated_orders })).1

  activated :
      (rows : List Order)
      → rows ≡ select_where (triggers token reference) c.current.orders
      → IsSettled (after_update rows) × SameSupply c (after_update rows)
  unfolding ◌>>=◌ commit pure
  activated [] e =
      let same =
        update_where_unselected (triggers token reference) (triggered now) c.current.orders e in
      let kept : record c { current = updated_orders } ≡ c =
        ap (λ os. record c { current = record c.current { orders = os } }) same in
      rw kept (settled, λ token. refl)
  activated (r ∷ rows) e = written c updated_orders settled refl refl refl

activate-Safe : (now token reference : ℕ) → Safe (activate_triggered_orders now token reference)
unfolding activate_triggered_orders ◌>>=◌ query modify
activate-Safe now token reference = record {
  at = λ c s.
      activated now token reference c s (select_where (triggers token reference) c.current.orders)
        refl;
}

activate_at-Safe : (now token : ℕ) (r : Option ℕ) → Safe (activate_at now token r)
activate_at-Safe now token none = search safe_rules
activate_at-Safe now token (some r) = search (safe_rules, activate-Safe)

reread-Safe : (p : Progress) → Safe (reread p)
unfolding reread
reread-Safe p = search safe_rules

recover-Safe :
    (s : Stamp) (m : Order) (p : Progress) (e : Failure) (r : Recovery) → Safe (recover s m p e r)
recover-Safe s m p e Recovery.cancels_match = search (safe_rules, cancel_order-Safe)
recover-Safe s m p e Recovery.rereads = reread-Safe p
recover-Safe s m p e Recovery.propagates = search safe_rules

after_match-Safe :
    (s : Stamp) (body : OrderRequest) (m b o : Order) (p : Progress) (r : Result (Trade × Escrow))
    → Safe (after_match s body m b o p r)
after_match-Safe s body m b o p (ok (t, e)) =
    search (safe_rules, activate-Safe, reread-Safe) depth 40
after_match-Safe s body m b o p (err e) = recover-Safe s m p e (recovery e)

refresh_stops-Safe : (now : ℕ) (body : OrderRequest) → Safe (refresh_stops now body)
refresh_stops-Safe now body =
    search (safe_rules, get_reference_price-Safe, activate_at-Safe) depth 40

module _ (k : Keys) (s : Stamp) (user_id : ℕ) (body : OrderRequest) (p : Progress) where
  trade_with-Safe :
      (current : Order) (m : Option Order) → Safe (trade_with k s user_id body p current m)
  trade_with-Safe current none = search safe_rules
  trade_with-Safe current (some m) =
      search (safe_rules, create_trade_escrow-Safe, after_match-Safe) depth 40

  continue_with-Safe : (found : Option Order) → Safe (continue_with k s user_id body p found)
  continue_with-Safe none = search safe_rules
  continue_with-Safe (some current) =
      search (safe_rules, refresh_stops-Safe, find_best_match-Safe, trade_with-Safe) depth 40

  pub match_turn-Safe : Safe (match_turn k s user_id body p)
  unfolding match_turn
  match_turn-Safe = search (safe_rules, get_order_by_id-Safe, continue_with-Safe) depth 40
