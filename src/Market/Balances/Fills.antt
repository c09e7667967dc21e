-- ===== src/Market/Balances/Fills.antt =====
-- The fill of an order and its status, under fills and reverts.
use tokenization.Common.{
  ℕ, ◌+◌, ◌-◌, ◌≤◌, ◌<◌, ◌≡◌, refl, inl, inr, min, true, false, List, [], ◌∷◌, arith, ltb, leb,
  ◌==◌, if◌then◌else◌, Member, All, Bool-cases, ◌∙◌, ap, ==_refl,
}
use tokenization.Common.Table.{update_where, Member-update_where, count_where, unique_row}
use tokenization.Common.Agree.{update_where-values}
use tokenization.Database.Model.{OrderStatus, Order, is_open_status}
use tokenization.Database.Tx.{Conn, ◌>>=◌, raise_if, modify}
use tokenization.Market.Balances.{write_fill, apply_order_fill, reverted_status, revert_order_fill}

-- The status of an order by how much of it is filled; a cancelled order keeps any fill.
abbrev pub FillFits : OrderStatus → ℕ → ℕ → Type 0
FillFits OrderStatus.open_order filled quantity = (filled ≡ 0) × (0 < quantity)
FillFits OrderStatus.partially_filled filled quantity = (0 < filled) × (filled < quantity)
FillFits OrderStatus.filled filled quantity = filled ≡ quantity
FillFits OrderStatus.cancelled filled quantity = filled ≤ quantity

abbrev pub IsFit : Order → Type 0
IsFit o = FillFits o.status o.filled_quantity o.quantity

-- A write of a fill keeps the statuses in step if it fits the quantities of the rows it meets.
update-IsFit :
    (i now filled : ℕ) (status : OrderStatus) (orders : List Order)
    → ((x : Order) → Member x orders → (x.id == i) ≡ true → FillFits status filled x.quantity)
    → All IsFit orders
    → All IsFit (update_where (λ o. o.id == i) (write_fill now filled status) orders)
unfolding update_where
update-IsFit i now filled status [] h all = tt
update-IsFit i now filled status (x ∷ orders) h all =
    let rest = update-IsFit i now filled status orders (λ y m. h y (inr m)) all.1 in
    elim (Bool-cases (x.id == i)) [
      | inl e ↦ rw e (h x (inl refl) e, rest)
      | inr e ↦ rw e (all.0, rest)
    ]

applied-FillFits :
    (quantity filled add : ℕ)
    → leb (min (filled + add) quantity) filled ≡ false
    → FillFits
        (if min (filled + add) quantity == quantity
          then OrderStatus.filled
          else OrderStatus.partially_filled)
        (min (filled + add) quantity)
        quantity
applied-FillFits quantity filled add h =
    elim (Bool-cases (min (filled + add) quantity == quantity)) [
      | inl e ↦ rw e (ground arith)
      | inr e ↦ rw e (ground arith)
    ]

reverted-FillFits :
    (o : Order) (sub : ℕ)
    → (sub == 0) ≡ false
    → o.filled_quantity ≤ o.quantity
    → 0 < o.quantity
    → FillFits (reverted_status (o.filled_quantity - sub) o) (o.filled_quantity - sub) o.quantity
      × (is_open_status (reverted_status (o.filled_quantity - sub) o) ≡ true)
reverted-FillFits o sub h le pos = elim (Bool-cases (o.filled_quantity - sub == 0)) [
  | inl e ↦ rw e (ground arith)
  | inr e ↦
      let lt : ltb (o.filled_quantity - sub) o.quantity ≡ true = ground arith in
      rw (e, lt) (ground arith)
]

-- Filling an order keeps every order's status in step with its fill, whether it returns or raises,
-- if the row that was passed in has the quantity of the rows with its identifier.
pub apply_order_fill-IsFit :
    (now : ℕ) (o : Order) (quantity : ℕ) (c : Conn)
    → ((x : Order) → Member x c.current.orders → x.id ≡ o.id → x.quantity ≡ o.quantity)
    → All IsFit c.current.orders
    → All IsFit (apply_order_fill now o quantity c).1.current.orders
unfolding apply_order_fill ◌>>=◌ raise_if modify
apply_order_fill-IsFit now o quantity c read all = elim (Bool-cases (quantity == 0)) [
  | inl e ↦ rw e all
  | inr e ↦
      elim (Bool-cases (leb (min (o.filled_quantity + quantity) o.quantity) o.filled_quantity)) [
        | inl full ↦ rw (e, full) all
        | inr room ↦
            rw (e, room)
              (update-IsFit o.id now _ _ c.current.orders
                (λ x m same.
                  rw (read x m (ground arith))
                    (applied-FillFits o.quantity o.filled_quantity quantity room))
                all)
      ]
]

-- Reverting a fill keeps every order's status in step with its fill, whether it returns or raises,
-- if the row that was passed in has the quantity of the rows with its identifier and is not
-- overfilled.
pub revert_order_fill-IsFit :
    (now : ℕ) (o : Order) (quantity : ℕ) (c : Conn)
    → ((x : Order) → Member x c.current.orders → x.id ≡ o.id → x.quantity ≡ o.quantity)
    → o.filled_quantity ≤ o.quantity
    → 0 < o.quantity
    → All IsFit c.current.orders
    → All IsFit (revert_order_fill now o quantity c).1.current.orders
unfolding revert_order_fill ◌>>=◌ raise_if modify
revert_order_fill-IsFit now o quantity c read le pos all = elim (Bool-cases (quantity == 0)) [
  | inl e ↦ rw e all
  | inr e ↦ rw e (
      update-IsFit o.id now _ _ c.current.orders
        (λ x m same. rw (read x m (ground arith)) (reverted-FillFits o quantity e le pos).0) all)
]

-- Reverting a fill puts the order back in the book, whatever its status was: every row with the
-- identifier of the order that was passed in is open afterwards, a cancelled one too.
pub revert_order_fill-reopens :
    (now : ℕ) (o : Order) (quantity : ℕ) (c : Conn) (x : Order)
    → 0 < quantity
    → o.filled_quantity ≤ o.quantity
    → 0 < o.quantity
    → Member x (revert_order_fill now o quantity c).1.current.orders
    → x.id ≡ o.id
    → is_open_status x.status ≡ true
unfolding revert_order_fill ◌>>=◌ raise_if modify
revert_order_fill-reopens now o quantity c x some_quantity le pos m same =
    let e : (quantity == 0) ≡ false = ground arith in
    let filled = o.filled_quantity - quantity in
    let status = reverted_status filled o in
    let origin =
      Member-update_where (λ y. y.id == o.id) (write_fill now filled status) c.current.orders x
        (rw e at m) in
    elim origin.change [
      | inl (hit, x_eq) ↦ rw x_eq (reverted-FillFits o quantity e le pos).1
      | inr (miss, x_eq) ↦ absurd (ground (arith, rw x_eq at same))
    ]

-- The order as the fill leaves it.
abbrev filled_order : ℕ → ℕ → Order → Order
filled_order now quantity o =
    write_fill now (o.filled_quantity + quantity)
      (if o.filled_quantity + quantity == o.quantity
        then OrderStatus.filled
        else OrderStatus.partially_filled)
      o

update_twice :
    (i : ℕ) (g h k : Order → Order) (orders : List Order)
    → ((x : Order) → (g x).id ≡ x.id)
    → ((x : Order) → h (g x) ≡ k x)
    → update_where (λ o. o.id == i) h (update_where (λ o. o.id == i) g orders)
      ≡ update_where (λ o. o.id == i) k orders
unfolding update_where
update_twice i g h k [] ids same = refl
update_twice i g h k (x ∷ orders) ids same = elim (Bool-cases (x.id == i)) [
  | inl e ↦
      let e' : ((g x).id == i) ≡ true = rw (ids x) e in
      rw (e, e', same x, update_twice i g h k orders ids same) refl
  | inr e ↦ rw (e, e, update_twice i g h k orders ids same) refl
]

reverted_to :
    (o : Order)
    → is_open_status o.status ≡ true
    → IsFit o
    → reverted_status o.filled_quantity o ≡ o.status
reverted_to o live fit = by_status o.status live fit
  where
    by_status :
        (s : OrderStatus)
        → is_open_status s ≡ true
        → FillFits s o.filled_quantity o.quantity
        → reverted_status o.filled_quantity o ≡ s
    by_status OrderStatus.open_order l f =
        let e : (o.filled_quantity == 0) ≡ true = ground arith in rw e refl
    by_status OrderStatus.partially_filled l f =
        let e : (o.filled_quantity == 0) ≡ false = ground arith in
        let e' : ltb o.filled_quantity o.quantity ≡ true = ground arith in rw (e, e') refl
    by_status OrderStatus.filled l f = absurd (ground arith)
    by_status OrderStatus.cancelled l f = absurd (ground arith)

revert_filled_order :
    (now later : ℕ) (o : Order) (quantity : ℕ) (c : Conn)
    → 0 < quantity
    → o.filled_quantity + quantity ≤ o.quantity
    → is_open_status o.status ≡ true
    → IsFit o
    → (revert_order_fill later
        (filled_order now quantity o)
        quantity
        (apply_order_fill now o quantity c).1).1.current.orders
      ≡ update_where
          (λ x. x.id == o.id)
          (write_fill later o.filled_quantity o.status)
          c.current.orders
unfolding revert_order_fill apply_order_fill ◌>>=◌ raise_if modify
revert_filled_order now later o quantity c some_quantity room live fit =
    let e : (quantity == 0) ≡ false = ground arith in
    let m : min (o.filled_quantity + quantity) o.quantity ≡ o.filled_quantity + quantity =
      ground arith in
    let l : leb (o.filled_quantity + quantity) o.filled_quantity ≡ false = ground arith in
    let d : o.filled_quantity + quantity - quantity ≡ o.filled_quantity = omega arith in
    rw (e, m, l, d, reverted_to o live fit)
      (update_twice o.id _ _ (write_fill later o.filled_quantity o.status) c.current.orders
        (λ x. refl) (λ x. refl))

-- The row that the table has of the order after the fill.
filled_row :
    (now : ℕ) (o : Order) (quantity : ℕ) (c : Conn) (x : Order)
    → ((y : Order) → Member y c.current.orders → (y.id == o.id) ≡ true → y ≡ o)
    → 0 < quantity
    → o.filled_quantity + quantity ≤ o.quantity
    → Member x (apply_order_fill now o quantity c).1.current.orders
    → x.id ≡ o.id
    → x ≡ filled_order now quantity o
unfolding apply_order_fill ◌>>=◌ raise_if modify
filled_row now o quantity c x mine some_quantity room m same =
    let e : (quantity == 0) ≡ false = ground arith in
    let t : min (o.filled_quantity + quantity) o.quantity ≡ o.filled_quantity + quantity =
      ground arith in
    let l : leb (o.filled_quantity + quantity) o.filled_quantity ≡ false = ground arith in
    let g : Order → Order = write_fill now (o.filled_quantity + quantity) (
      if o.filled_quantity + quantity == o.quantity
      then OrderStatus.filled
      else OrderStatus.partially_filled) in
    let origin = Member-update_where (λ y. y.id == o.id) g c.current.orders x (rw (e, t, l) at m) in
    elim origin.change [
      | inl (hit, x_eq) ↦ x_eq ∙ ap g (mine origin.row origin.found hit)
      | inr (miss, x_eq) ↦ absurd (ground (arith, rw x_eq at same))
    ]

-- A fill of at most what remains of an open order, on a table with unique keys, and then reverted on the row that
-- the table has of that order after the fill: every order is as before, its fill and its status too, except for
-- the time of the last change.
pub revert_order_fill-apply_order_fill :
    (now later : ℕ) (o : Order) (quantity : ℕ) (c : Conn) (x : Order)
    → count_where (λ y. y.id == o.id) c.current.orders ≤ 1
    → Member o c.current.orders
    → 0 < quantity
    → o.filled_quantity + quantity ≤ o.quantity
    → is_open_status o.status ≡ true
    → IsFit o
    → Member x (apply_order_fill now o quantity c).1.current.orders
    → x.id ≡ o.id
    → (revert_order_fill later x quantity (apply_order_fill now o quantity c).1).1.current.orders
      ≡ update_where (λ y. y.id == o.id) (λ y. record y { updated_at = later }) c.current.orders
revert_order_fill-apply_order_fill now later o quantity c x key there some_quantity room live fit m
      same =
    let mine : (y : Order) → Member y c.current.orders → (y.id == o.id) ≡ true → y ≡ o =
      λ y n e. unique_row (λ z. z.id == o.id) c.current.orders y o key n there e (==_refl o.id) in
    let x_eq : x ≡ filled_order now quantity o =
      filled_row now o quantity c x mine some_quantity room m same in
    rw x_eq (
      revert_filled_order now later o quantity c some_quantity room live fit
      ∙ update_where-values (λ y. y.id == o.id) (write_fill later o.filled_quantity o.status)
          (λ y. record y { updated_at = later }) c.current.orders (λ y n e. rw (mine y n e) refl))
