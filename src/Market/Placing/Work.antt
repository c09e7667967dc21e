-- ===== src/Market/Placing/Work.antt =====
-- How much a table of orders can still do: what remains of its orders, and how many are open.
use tokenization.Common.{
  ℕ, ◌+◌, ◌-◌, ◌*◌, ◌≤◌, ◌<◌, ◌≡◌, ◌≢◌, ap, refl, inl, inr, Bool, true, false, List, arith, ◌==◌,
  ==_refl, if◌then◌else◌, Member, min, leb,
}
use tokenization.Common.Table.{
  update_where, sum_by, count_where, count_where-update_where, sum_by-update_same, unique_row,
  count_pos, Member-update_where,
}
use tokenization.Common.Sums.{sum_by-update_le, sum_by-update_lt}
use tokenization.Database.Model.{OrderStatus, Order, is_buy, is_open_status}
use tokenization.Database.Tx.Rules.{Ensures, Ensures-bind, Ensures-modify, Ensures-raise_if}
use tokenization.Market.Balances.{write_fill, apply_order_fill}
use tokenization.Market.Book.{triggers, triggered, cancellable, cancelled_at}

abbrev pub weight : Order → ℕ
weight o = 2 * (o.quantity - o.filled_quantity) + (if is_open_status o.status then 1 else 0)

abbrev pub work : List Order → ℕ
work orders = sum_by weight orders

abbrev pub has_id : ℕ → Order → Bool
has_id i o = o.id == i

abbrev pub OrdersKeyed : List Order → Type 0
OrdersKeyed orders = (i : ℕ) → count_where (has_id i) orders ≤ 1

-- What two rows of one order agree on while others only trigger it.
pub record Agrees (o x : Order) : Type 0 where
  pub quantity : x.quantity ≡ o.quantity
  pub filled : x.filled_quantity ≡ o.filled_quantity
  pub side : x.side ≡ o.side

-- The row that was read is the row of the table.
abbrev pub Tells : Order → List Order → Type 0
Tells o orders = (x : Order) → Member x orders → x.id ≡ o.id → Agrees o x

pub Tells-of :
    (o : Order) (orders : List Order) → OrdersKeyed orders → Member o orders → Tells o orders
Tells-of o orders key m x n same =
    let e : x ≡ o =
      unique_row (has_id o.id) orders x o (key o.id) n m (rw same (==_refl o.id)) (==_refl o.id) in
    rw e (record { quantity = refl; filled = refl; side = refl })

-- What a fill does to the table.
pub record Fills (o : Order) (before after : List Order) : Type 0 where
  pub now : ℕ
  pub filled : ℕ
  pub status : OrderStatus
  pub more : o.filled_quantity < filled
  pub fits : filled ≤ o.quantity
  pub table : after ≡ update_where (λ x. x.id == o.id) (write_fill now filled status) before

pub apply_order_fill-Fills :
    (now : ℕ) (o : Order) (quantity : ℕ) (orders : List Order)
    → Ensures
        (λ db. db.orders ≡ orders)
        (apply_order_fill now o quantity)
        (λ _ db. Fills o orders db.orders)
unfolding apply_order_fill
apply_order_fill-Fills now o quantity orders =
    let filled : ℕ = min (o.filled_quantity + quantity) o.quantity in
    Ensures-bind _ _ (λ _ db. db.orders ≡ orders) (Ensures-raise_if _ _ (λ _ db e. e))
      (λ _.
        Ensures-bind _ _ (λ _ db. (db.orders ≡ orders) × (leb filled o.filled_quantity ≡ false))
          (Ensures-raise_if _ _ (λ f db e. (e, f)))
          (λ _. Ensures-modify _ (λ db h. record {
            now = now;
            filled = filled;
            status =
                if filled == o.quantity then OrderStatus.filled else OrderStatus.partially_filled;
            more = ground (arith, h.1);
            fits = ground arith;
            table = rw h.0 refl;
          })))

module _ (o : Order) (before after : List Order) (f : Fills o before after)
    (tells : Tells o before) where
  lighter :
      (x : Order)
      → Member x before
      → (x.id == o.id) ≡ true
      → weight (write_fill f.now f.filled f.status x) < weight x
  lighter x m e =
      let a : Agrees o x = tells x m (ground arith) in
      omega (arith, a.quantity, a.filled, f.more, f.fits, bit (is_open_status f.status))
    where
      bit : (b : Bool) → (if b then 1 else 0) ≤ 1
      bit true = omega arith
      bit false = omega arith

  pub Fills-count : (i : ℕ) → count_where (has_id i) after ≡ count_where (has_id i) before
  Fills-count i = rw f.table (
      count_where-update_where (has_id i) (has_id o.id) (write_fill f.now f.filled f.status) before
        (λ x. refl))

  pub Fills-le : work after ≤ work before
  Fills-le =
      rw f.table
        (sum_by-update_le weight (has_id o.id) _ before (λ x m e. omega (arith, lighter x m e)))

  pub Fills-lt : 1 ≤ count_where (has_id o.id) before → work after < work before
  Fills-lt one = rw f.table (sum_by-update_lt weight (has_id o.id) _ before lighter one)

  -- The row of another side is another row, and is as it was.
  pub Fills-Tells : (s : Order) → Tells s before → is_buy s.side ≢ is_buy o.side → Tells s after
  Fills-Tells s other apart x m same =
      let src = Member-update_where (has_id o.id) _ before x (rw f.table at m) in
      elim src.change [
        | inl (hit, e) ↦
            let id : src.row.id ≡ s.id = rw e at same in
            let here : src.row.side ≡ o.side = (tells src.row src.found (ground arith)).side in
            let there : src.row.side ≡ s.side = (other src.row src.found id).side in
            absurd (apart (ap is_buy (cc)))
        | inr (miss, e) ↦ rw e (other src.row src.found (rw e at same))
      ]

-- The orders after something that changed no more than when they were triggered.
pub record Lasts (before after : List Order) : Type 0 where
  pub counts : (i : ℕ) → count_where (has_id i) after ≡ count_where (has_id i) before
  pub worth : work after ≡ work before
  pub tells : (o : Order) → Tells o before → Tells o after

pub activated-Lasts :
    (now token reference : ℕ) (orders : List Order)
    → Lasts orders (update_where (triggers token reference) (triggered now) orders)
activated-Lasts now token reference orders = record {
  counts = λ i.
      count_where-update_where (has_id i) (triggers token reference) (triggered now) orders
        (λ x. refl);
  worth = sum_by-update_same weight _ _ orders (λ x. refl);
  tells = λ o h x m same.
      let src = Member-update_where (triggers token reference) (triggered now) orders x m in
      elim src.change [
        | inl (hit, e) ↦
            let old : Agrees o src.row = h src.row src.found (rw e at same) in
            rw e (record { quantity = old.quantity; filled = old.filled; side = old.side })
        | inr (miss, e) ↦ rw e (h src.row src.found (rw e at same))
      ];
}

-- Cancelling an open order leaves less to do.
cancelled-lighter :
    (now order_id user_id : ℕ) (x : Order)
    → cancellable order_id user_id x ≡ true
    → weight (cancelled_at now x) < weight x
cancelled-lighter now order_id user_id x e =
    let is_open : is_open_status x.status ≡ true = ground arith in rw is_open (omega arith)

pub cancelled-lt :
    (now : ℕ) (o : Order) (orders : List Order)
    → Member o orders
    → is_open_status o.status ≡ true
    → work (update_where (cancellable o.id o.user_id) (cancelled_at now) orders) < work orders
cancelled-lt now o orders m e =
    sum_by-update_lt weight (cancellable o.id o.user_id) (cancelled_at now) orders
      (λ x _. cancelled-lighter now o.id o.user_id x)
      (count_pos _ orders o (ground (arith, ==_refl o.id, ==_refl o.user_id)) m)

pub cancelled-keyed :
    (now order_id user_id : ℕ) (orders : List Order)
    → OrdersKeyed orders
    → OrdersKeyed (update_where (cancellable order_id user_id) (cancelled_at now) orders)
cancelled-keyed now order_id user_id orders key i =
    rw
      (count_where-update_where (has_id i) (cancellable order_id user_id) (cancelled_at now) orders
        (λ x. refl))
      (key i)
