-- ===== src/Market/Placing/Lightens.antt =====
-- What a trade with its escrow does to the orders, and what it cannot raise.
use tokenization.Common.{ℕ, ◌≤◌, ◌<◌, ◌≡◌, ◌∙◌, refl, true, false, List, arith}
use tokenization.Common.Table.{count_where}
use tokenization.Database.Model.{Text, Order, Trade, Escrow, Db, is_buy}
use tokenization.Database.Tx.{Result, ok, err, Conn, Tx, ◌>>=◌, modify, commit, Unit₀}
use tokenization.Database.Tx.Rules.{
  Returned, Ensures, Ensures-pure, Ensures-bind, Ensures-raise_if, Ensures-attempt,
}
use tokenization.Database.Tx.Atomic.{Reads}
use tokenization.Database.Tx.Moves.{Moves, IsPreorder, Moves-or_raise, Moves-raise_if, move_rules}
use tokenization.Market.Keys.{Keys, EscrowDetails}
use tokenization.Market.Orders.{validate_trade_inputs}
use tokenization.Market.Balances.{apply_order_fill, decrement_token_balance}
use tokenization.Market.Trading.{
  Stamp, insert_trade, insert_escrow, lock_trade, create_trade_escrow,
}
use tokenization.Market.Integrity.Steps.{Ensures-fact}
use tokenization.Market.Atomicity.{resolve_escrow_pubkey-Reads, platform_escrow_pubkey-Reads}
use tokenization.Market.Placing.Work.{
  work, has_id, Tells, Fills, apply_order_fill-Fills, Fills-count, Fills-le, Fills-lt, Fills-Tells,
}

-- The orders stay as they are.
abbrev SameOrders : Conn → Conn → Type 0
SameOrders c d = d.current.orders ≡ c.current.orders

instance abbrev same_orders : IsPreorder SameOrders
same_orders = record { stay = λ c. refl; join = λ c d e p q. q ∙ p }

abbrev Skips : {A : Type 0} → Tx A → Type 0
Skips m = Moves SameOrders m

Skips-Reads : {A : Type 0} (m : Tx A) → Reads m → Skips m
Skips-Reads m h = record { at = λ c. rw (h.at c) refl }

Skips-modify : (f : Db → Db) → ((db : Db) → (f db).orders ≡ db.orders) → Skips (modify f)
unfolding modify
Skips-modify f h = record { at = λ c. h c.current }

Skips-commit : Skips commit
unfolding commit
Skips-commit = record { at = λ c. refl }

ruleset skip_rules = (move_rules, same_orders, Skips-modify, Skips-commit)

decrement_token_balance-Skips : (now u t q : ℕ) → Skips (decrement_token_balance now u t q)
unfolding decrement_token_balance
decrement_token_balance-Skips now u t q = search skip_rules depth 40

insert_trade-Skips : (t : Trade) → Skips (insert_trade t)
unfolding insert_trade
insert_trade-Skips t = search skip_rules depth 40

insert_escrow-Skips : (e : Escrow) → Skips (insert_escrow e)
unfolding insert_escrow
insert_escrow-Skips e = search skip_rules depth 40

kept-Returned :
    {A : Type 0} (orders : List Order) (r : Result A) (c : Conn)
    → c.current.orders ≡ orders
    → Returned (λ _ db. db.orders ≡ orders) r c
kept-Returned orders (ok a) c e = e
kept-Returned orders (err x) c e = tt

module _ {A B : Type 0} {Q : B → Db → Type 0} (orders : List Order) where
  skipping :
      (m : Tx A) (f : A → Tx B)
      → Skips m
      → ((a : A) → Ensures (λ db. db.orders ≡ orders) (f a) Q)
      → Ensures (λ db. db.orders ≡ orders) (m >>= f) Q
  skipping m f s h =
      Ensures-bind m f (λ _ db. db.orders ≡ orders)
        (record { at = λ c e. kept-Returned orders (m c).0 (m c).1 (cc (s.at c)) }) h

filling :
    {B : Type 0} {Q : B → Db → Type 0} (orders : List Order) (now : ℕ) (o : Order) (quantity : ℕ)
    (f : Unit₀ → Tx B)
    → ((after : List Order) → Fills o orders after → Ensures (λ db. db.orders ≡ after) (f tt) Q)
    → Ensures (λ db. db.orders ≡ orders) (apply_order_fill now o quantity >>= f) Q
filling orders now o quantity f h =
    Ensures-bind _ f (λ _ db. Fills o orders db.orders)
      (apply_order_fill-Fills now o quantity orders)
      (λ u. record { at = λ c p. (h c.current.orders p).at c refl })

-- The keys are kept and there is less to do.
pub record Lightens (before after : List Order) : Type 0 where
  pub counts : (i : ℕ) → count_where (has_id i) after ≡ count_where (has_id i) before
  pub less : work after < work before

module _ (s : Stamp) (buy_order sell_order : Order) (quantity price_sat fee_sat : ℕ) (k : Keys)
    (orders : List Order) (buys : Tells buy_order orders) (sells : Tells sell_order orders)
    (one : 1 ≤ count_where (has_id buy_order.id) orders) where
  pair-Lightens :
      (between after : List Order)
      → is_buy buy_order.side ≡ true
      → is_buy sell_order.side ≡ false
      → Fills buy_order orders between
      → Fills sell_order between after
      → Lightens orders after
  pair-Lightens between after b o f g =
      let still : Tells sell_order between =
        Fills-Tells buy_order orders between f buys sell_order sells (λ e. cc) in
      record {
        counts = λ i.
            Fills-count sell_order between after g still i
            ∙ Fills-count buy_order orders between f buys i;
        less = omega (
          arith,
          Fills-lt buy_order orders between f buys one,
          Fills-le sell_order between after g still,
        );
      }

  lock_trade-Lightens :
      (buyer_pubkey seller_pubkey : Text) (d : EscrowDetails)
      → is_buy buy_order.side ≡ true
      → is_buy sell_order.side ≡ false
      → Ensures
          (λ db. db.orders ≡ orders)
          (lock_trade s buy_order sell_order quantity price_sat fee_sat k buyer_pubkey seller_pubkey
            d)
          (λ _ db. Lightens orders db.orders)
  unfolding lock_trade
  lock_trade-Lightens buyer_pubkey seller_pubkey d b o =
      skipping orders _ _ (decrement_token_balance-Skips _ _ _ _) (λ _.
        filling orders s.now buy_order quantity _ (λ between f.
          filling between s.now sell_order quantity _ (λ after g.
            skipping after _ _ (insert_trade-Skips _) (λ _.
              skipping after _ _ (insert_escrow-Skips _) (λ _.
                skipping after _ _ Skips-commit
                  (λ _. Ensures-pure _ (λ db e. rw e (pair-Lightens between after b o f g))))))))

  abbrev Sides : Type 0
  Sides = (is_buy buy_order.side ≡ true) × (is_buy sell_order.side ≡ false)

  -- Nothing is locked for orders of the wrong sides.
  validate_trade_inputs-Sides :
      Ensures
        (λ db. db.orders ≡ orders)
        (validate_trade_inputs buy_order sell_order quantity price_sat)
        (λ _ db. Sides × (db.orders ≡ orders))
  unfolding validate_trade_inputs
  validate_trade_inputs-Sides = skipping orders _ _ (Moves-raise_if _ _) (λ _.
      skipping orders _ _ (Moves-raise_if _ _) (λ _.
        Ensures-bind _ _ (λ _ db. Sides × (db.orders ≡ orders))
          (Ensures-raise_if _ _ (λ f db e. ground arith))
          (λ _. Ensures-fact _ (λ sides.
            skipping orders _ _ (Moves-raise_if _ _)
              (λ _. Ensures-raise_if _ _ (λ _ db e. (sides, e)))))))

  pub create_trade_escrow-Lightens :
      Ensures
        (λ db. db.orders ≡ orders)
        (create_trade_escrow s buy_order sell_order quantity price_sat fee_sat k)
        (λ _ db. Lightens orders db.orders)
  unfolding create_trade_escrow
  create_trade_escrow-Lightens =
      Ensures-bind _ _ (λ _ db. Sides × (db.orders ≡ orders)) validate_trade_inputs-Sides
        (λ _. Ensures-fact _ (λ sides.
          skipping orders _ _ (Skips-Reads _ (resolve_escrow_pubkey-Reads _ _)) (λ buyer.
            skipping orders _ _ (Skips-Reads _ (resolve_escrow_pubkey-Reads _ _)) (λ seller.
              skipping orders _ _ (Skips-Reads _ (platform_escrow_pubkey-Reads _)) (λ platform.
                skipping orders _ _ (Moves-or_raise _ _) (λ script.
                  Ensures-attempt _ (lock_trade-Lightens buyer seller _ sides.0 sides.1)))))))
