-- ===== src/Wallet/Yield/Tests.antt =====
-- The yield of one holder, accrued a second time after three days.
use tokenization.Common.{ℕ, ◌+◌, ◌*◌, ◌≤◌, arith, [], ◌∷◌, none, some}
use tokenization.Common.Table.{count_where}
use tokenization.Database.Assets.{Asset, Category, AssetStatus, Token, YieldAccrual}
use tokenization.Database.Model.{Db}
use tokenization.Database.Tx.{at_rest}
use tokenization.Assets.Store.{holds}
use tokenization.Market.Fixture.{matched}
use tokenization.Market.Orders.{day}
use tokenization.Wallet.Yield.{accrue_pending_yield_for_user}
use tokenization.Wallet.Yield.Periods.{Chained, accrue_pending_yield-Chained}

abbrev house : Asset
house = record {
  id = 70;
  owner_id = 20;
  name = [];
  description = [];
  category = Category.other;
  valuation_sat = 1;
  documents_url = none;
  ai_score = some 8000;
  ai_analysis = none;
  projected_roi = some 700;
  status = AssetStatus.tokenized;
  created_at = 1;
  updated_at = 1;
}

abbrev shares : Token
shares = record {
  id = 7;
  asset_id = 70;
  liquid_asset_id = [];
  total_supply = 1000;
  circulating_supply = 1000;
  unit_price_sat = 4000;
  minted_at = 1;
}

abbrev first_accrual : YieldAccrual
first_accrual = record {
  id = 1;
  user_id = 20;
  token_id = 7;
  annual_rate_pct = 700;
  quantity_held = 17;
  reference_price_sat = 4000;
  amount_sat = 26;
  accrued_from = 110;
  accrued_to = 110 + 2 * day;
  created_at = 2 * day;
}

abbrev invested : Db
invested = record matched {
  assets = house ∷ [];
  tokens = shares ∷ [];
  accruals = first_accrual ∷ [];
}

invested-keys : (u t : ℕ) → count_where (holds u t) invested.balances ≤ 1
unfolding count_where
invested-keys u t = ground arith

invested-Chained : Chained invested.accruals
invested-Chained = (omega arith, (tt, tt))

accrue_pending_yield-Chained_example :
    Chained
      (accrue_pending_yield_for_user (λ b. b) 20 (5 * day) (at_rest invested)).1.current.accruals
accrue_pending_yield-Chained_example =
    accrue_pending_yield-Chained (λ b. b) 20 (5 * day) invested invested-keys invested-Chained
