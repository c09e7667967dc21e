-- ===== src/Database/Assets.antt =====
-- Rows of the tables `assets` and `tokens` (services/common/db/metadata.py), with the analysis that an
-- evaluation stores. Scores and returns are in hundredths, as their columns NUMERIC(5, 2) hold them.
use tokenization.Common.{ℕ, Option, List}
use tokenization.Database.Rows.{Text}

pub data Category : Type 0 where
  real_estate commodity invoice art other : Category

pub data AssetStatus : Type 0 where
  pending evaluating approved rejected tokenized : AssetStatus

pub data RiskLevel : Type 0 where
  low moderate high : RiskLevel

pub data MarketTiming : Type 0 where
  favorable watchlist cautious : MarketTiming

pub data Strength : Type 0 where
  documentation_available enough_detail conservative_valuation : Strength
  positive_indicators : List Text → Strength

pub data Concern : Type 0 where
  documentation_missing thin_description large_valuation : Concern
  risk_indicators : List Text → Concern

-- The entries of `ai_analysis` that are not made up of the others.
pub record Analysis : Type 0 where
  pub risk_level : RiskLevel
  pub market_timing : MarketTiming
  pub projected_roi_annual : ℕ
  pub strengths : List Strength
  pub concerns : List Concern

pub record Asset : Type 0 where
  pub id : ℕ
  pub owner_id : ℕ
  pub name : Text
  pub description : Text
  pub category : Category
  pub valuation_sat : ℕ
  pub documents_url : Option Text
  pub ai_score : Option ℕ
  pub ai_analysis : Option Analysis
  pub projected_roi : Option ℕ
  pub status : AssetStatus
  pub created_at : ℕ
  pub updated_at : ℕ

pub record Token : Type 0 where
  pub id : ℕ
  pub asset_id : ℕ
  pub liquid_asset_id : Text
  pub total_supply : ℕ
  pub circulating_supply : ℕ
  pub unit_price_sat : ℕ
  pub minted_at : ℕ

-- A yield that was credited for a period; the rate is in hundredths of a percent.
pub record YieldAccrual : Type 0 where
  pub id : ℕ
  pub user_id : ℕ
  pub token_id : ℕ
  pub annual_rate_pct : ℕ
  pub quantity_held : ℕ
  pub reference_price_sat : ℕ
  pub amount_sat : ℕ
  pub accrued_from : ℕ
  pub accrued_to : ℕ
  pub created_at : ℕ
