-- ===== src/Market/Placing/Handler.antt =====
-- The handler `place_order` of services/marketplace/main.py as a whole, its loop on fuel.
use tokenization.Common.{ℕ, zero, suc, ◌+◌, not, ◌||◌, [], is_some, if◌then◌else◌}
use tokenization.Database.Model.{Order, is_limit}
use tokenization.Database.Tx.{Tx, ◌>>=◌, pure}
use tokenization.Market.Keys.{Keys}
use tokenization.Market.Orders.{OrderRequest}
use tokenization.Market.Trading.{Stamp}
use tokenization.Market.Placing.{Progress, open_order, match_turn}

module _ (k : Keys) (user_id : ℕ) (body : OrderRequest) where
  -- Turn `i` draws `stamps i`.
  unfoldable pub match_orders : ℕ → (ℕ → Stamp) → Progress → Tx Progress
  match_orders zero stamps p = pure p
  match_orders (suc fuel) stamps p =
      if p.over
      then pure p
      else match_turn k (stamps 0) user_id body p >>= match_orders fuel (λ i. stamps (i + 1))

  -- `while triggered_at is not None or body.order_type == "limit"`, whose test does not change.
  abbrev pub start : Order → Progress
  start order_row = record {
    order_row = order_row;
    published = [];
    over = not (is_some order_row.triggered_at || is_limit body.order_type);
  }

  unfoldable pub place_order : ℕ → ℕ → (ℕ → Stamp) → Tx Progress
  unfolding match_orders
  place_order fuel threshold stamps = do
    order_row ← open_order threshold (stamps 0) user_id body
    match_orders fuel (λ i. stamps (i + 1)) (start order_row)
