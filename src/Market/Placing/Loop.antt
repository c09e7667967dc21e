-- ===== src/Market/Placing/Loop.antt =====
-- The matching loop of `place_order` as a relation: each turn is `match_turn` on the connection that the step
-- before left, with new identifiers and a later time. Between its turns nothing is uncommitted, and other
-- requests run: the writing operations of the marketplace, orders that are placed, and cancellations.
use tokenization.Common.{ℕ, ◌≡◌, ◌∙◌, refl, false}
use tokenization.Database.Model.{Order}
use tokenization.Database.Tx.{Result, ok, Conn, Tx}
use tokenization.Market.Keys.{Keys}
use tokenization.Market.Orders.{OrderRequest}
use tokenization.Market.Trading.{Stamp}
use tokenization.Market.Operation.{Operation, perform}
use tokenization.Market.Integrity.Preserved.{Fits, IsSettled, SameSupply, perform-IsSettled}
use tokenization.Market.Placing.{Progress, open_order, match_turn, delete_order}
use tokenization.Market.Placing.Handler.{start}
use tokenization.Market.Placing.Safe.{Safe, open_order-Safe, match_turn-Safe, delete_order-Safe}

-- What the loop has come to, from the new order on: the variables or the exception, and the
-- connection.
pub data Loops (k : Keys) (user_id : ℕ) (body : OrderRequest) (order_row : Order) (c : Conn)
    : Result Progress → Conn → Type 0 where
  enters : Loops k user_id body order_row c (ok (start k user_id body order_row)) c
  turns :
      {p : Progress} {d : Conn}
      → Loops k user_id body order_row c (ok p) d
      → p.over ≡ false
      → (s : Stamp)
      → Loops k user_id body order_row c
          (match_turn k s user_id body p d).0
          (match_turn k s user_id body p d).1
  performs :
      {r : Result Progress} {d : Conn}
      → Loops k user_id body order_row c r d
      → (op : Operation) → Fits op d.current
      → Loops k user_id body order_row c r (perform op d).1
  places :
      {r : Result Progress} {d : Conn}
      → Loops k user_id body order_row c r d
      → (threshold : ℕ) (s : Stamp) (other : ℕ) (request : OrderRequest)
      → Loops k user_id body order_row c r (open_order threshold s other request d).1
  deletes :
      {r : Result Progress} {d : Conn}
      → Loops k user_id body order_row c r d
      → (now order_id other : ℕ)
      → Loops k user_id body order_row c r (delete_order now order_id other d).1

-- One more safe step.
after-Safe :
    {A : Type 0} (c d : Conn) (m : Tx A)
    → Safe m
    → IsSettled d × SameSupply c d
    → IsSettled (m d).1 × SameSupply c (m d).1
after-Safe c d m safe (t, same) =
    let (u, then_same) = safe.at d t in (u, λ token. then_same token ∙ same token)

Loops-IsSettled :
    (k : Keys) (user_id : ℕ) (body : OrderRequest) (order_row : Order) (c d : Conn)
    (r : Result Progress)
    → IsSettled c
    → Loops k user_id body order_row c r d
    → IsSettled d × SameSupply c d
Loops-IsSettled k user_id body order_row c _ _ settled Loops.enters = (settled, λ token. refl)
Loops-IsSettled k user_id body order_row c _ _ settled (Loops.turns {p} {d} before running s) =
    after-Safe c d _ (match_turn-Safe k s user_id body p)
      (Loops-IsSettled k user_id body order_row c d (ok p) settled before)
Loops-IsSettled k user_id body order_row c _ _ settled (Loops.performs {r} {d} before op fits) =
    let (t, same) = Loops-IsSettled k user_id body order_row c d r settled before in
    let (u, then_same) = perform-IsSettled op d t fits in (u, λ token. then_same token ∙ same token)
Loops-IsSettled k user_id body order_row c _ _ settled (Loops.places {r} {d} before h s u request) =
    after-Safe c d _ (open_order-Safe h s u request)
      (Loops-IsSettled k user_id body order_row c d r settled before)
Loops-IsSettled k user_id body order_row c _ _ settled (Loops.deletes {r} {d} before now i u) =
    after-Safe c d _ (delete_order-Safe now i u)
      (Loops-IsSettled k user_id body order_row c d r settled before)

-- Placing an order from sound tables with nothing uncommitted: after its checks and any number of
-- turns of the matching loop, whatever they matched, cancelled, triggered or raised, and whatever writing
-- operations, on rows that fit the tables when each starts, new orders and cancellations of other requests
-- ran between them, nothing is uncommitted, the tables are sound and each token's supply is what it was.
pub place_order-IsSettled :
    (threshold : ℕ) (s : Stamp) (k : Keys) (user_id : ℕ) (body : OrderRequest) (order_row : Order)
    (c d : Conn) (r : Result Progress)
    → IsSettled c
    → Loops k user_id body order_row (open_order threshold s user_id body c).1 r d
    → IsSettled d × SameSupply c d
place_order-IsSettled threshold s k user_id body order_row c d r settled loops =
    let (t, same) = (open_order-Safe threshold s user_id body).at c settled in
    let (u, then_same) = Loops-IsSettled k user_id body order_row _ d r t loops in
    (u, λ token. then_same token ∙ same token)
