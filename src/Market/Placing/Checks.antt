-- ===== src/Market/Placing/Checks.antt =====
-- The checks of the order handlers.
use tokenization.Common.{
  ℕ, ◌<◌, List, Member, ◌≡◌, refl, inl, inr, Bool, true, false, Option, none, some, is_some,
  ==_refl, arith, Bool-cases, if◌then◌else◌,
}
use tokenization.Database.Model.{KycRecord, KycStatus, Side, Order, is_limit}
use tokenization.Database.Tx.{Result, ok, err, Conn, ◌>>=◌, pure}
use tokenization.Market.Orders.{OrderRequest, new_order}
use tokenization.Market.Book.{get_reference_price_for_token, triggers, trigger_reached}
use tokenization.Market.Placing.{stop_order_triggered, trigger_time}

-- The test of a new stop order is the WHERE clause's test of a resting one.
stop_order_triggered-trigger_reached :
    (side : Side) (trigger reference : ℕ)
    → stop_order_triggered side trigger (some reference)
      ≡ trigger_reached side (some trigger) reference
unfolding stop_order_triggered
stop_order_triggered-trigger_reached Side.buy trigger reference = refl
stop_order_triggered-trigger_reached Side.sell trigger reference = refl

-- What the UPDATE would do to the order at the reference price, if there is one.
abbrev pub would_trigger : Option ℕ → Order → Bool
would_trigger none o = false
would_trigger (some reference) o = triggers o.token_id reference o

module _ (order_id now user_id : ℕ) (body : OrderRequest) where
  abbrev resting : Order
  resting = new_order order_id now user_id body none

  no_price : (r : Option ℕ) → body.trigger_price_sat ≡ none → false ≡ would_trigger r resting
  no_price none e = refl
  no_price (some r) e = rw e (ground arith)

  limit_order : (r : Option ℕ) → is_limit body.order_type ≡ true → false ≡ would_trigger r resting
  limit_order none e = refl
  limit_order (some r) e = rw e (ground arith)

  stop_order :
      (price : ℕ) (r : Option ℕ)
      → body.trigger_price_sat ≡ some price
      → is_limit body.order_type ≡ false
      → is_some (if stop_order_triggered body.side price r then some now else none)
        ≡ would_trigger r resting
  unfolding stop_order_triggered
  stop_order price none e stop = refl
  stop_order price (some r) e stop =
      rw
        (e, stop, ==_refl body.token_id, ← (stop_order_triggered-trigger_reached body.side price r))
        (told (stop_order_triggered body.side price (some r)))
    where
      told : (b : Bool) → is_some (if b then some now else none) ≡ b
      told true = refl
      told false = refl

  -- Reading the trigger of an order request writes nothing, and the order starts triggered exactly if the
  -- activation of resting orders at the reference price of its token would trigger it: a limit order never does,
  -- nor does an order without a trigger price or for a token without a reference price.
  pub trigger_time-would_trigger :
      (c : Conn) (reference : Option ℕ)
      → get_reference_price_for_token body.token_id c ≡ (ok reference, c)
      → (t : Option ℕ) × (trigger_time now body body.trigger_price_sat c ≡ (ok t, c))
        × (is_some t ≡ would_trigger reference resting)
  unfolding ◌>>=◌ pure
  trigger_time-would_trigger c reference read = by_price body.trigger_price_sat refl
    where
      by_price :
          (price : Option ℕ)
          → body.trigger_price_sat ≡ price
          → (t : Option ℕ) × (trigger_time now body price c ≡ (ok t, c))
            × (is_some t ≡ would_trigger reference resting)
      by_price none e = (none, refl, no_price reference e)
      by_price (some price) e = elim (Bool-cases (is_limit body.order_type)) [
        | inl limit ↦ (none, rw limit refl, limit_order reference limit)
        | inr stop ↦ (_, rw (stop, read) refl, stop_order price reference e stop)
      ]

abbrev pub is_ok : {A : Type 0} → Result A → Bool
is_ok (ok a) = true
is_ok (err e) = false

-- The user has a record of a verification that was approved.
pub record IsVerified (user_id : ℕ) (kyc : List KycRecord) : Type 0 where
  pub row : KycRecord
  pub found : Member row kyc
  pub own : row.user_id ≡ user_id
  pub approved : row.status ≡ KycStatus.verified

-- Why an order passes the identity check.
pub data IsAllowed (threshold user_id value : ℕ) (kyc : List KycRecord) : Type 0 where
  switched_off : threshold ≡ 0 → IsAllowed threshold user_id value kyc
  small : value < threshold → IsAllowed threshold user_id value kyc
  verified : IsVerified user_id kyc → IsAllowed threshold user_id value kyc
