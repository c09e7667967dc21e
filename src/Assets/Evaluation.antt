-- ===== src/Assets/Evaluation.antt =====
-- The heuristic evaluation of an asset (services/tokenization/evaluation.py). The terms of the score are
-- multiples of 1/180: a word gives 0.55 = 99/180, a letter of the title 1/18 = 10/180. Terms with a
-- minus are subtracted last, so that a sum below 0 is 0, which is what the clamp makes of it. Two
-- decimals of a multiple of 1/180, or of 1/1500, are never a tie, so rounding them is exact.
pub mod Bounds
use tokenization.Common.{
  ℕ, ◌+◌, ◌-◌, ◌*◌, ◌/◌, min, max, Bool, true, false, Option, none, some, List, [], ◌∷◌, ◌++◌, leb,
  if◌then◌else◌, length,
}
use tokenization.Common.Table.{select_where}
use tokenization.Common.Sort.{order_by}
use tokenization.Common.Text.{strip, lower, contains, count_words, text_before}
use tokenization.Database.Rows.{Text}
use tokenization.Database.Assets.{
  Asset, Category, AssetStatus, RiskLevel, MarketTiming, Strength, Concern, Analysis,
}

abbrev category_score_baseline : Category → ℕ
category_score_baseline Category.real_estate = 72
category_score_baseline Category.commodity = 65
category_score_baseline Category.invoice = 69
category_score_baseline Category.art = 58
category_score_baseline Category.other = 55

-- In hundredths.
abbrev category_roi_baseline : Category → ℕ
category_roi_baseline Category.real_estate = 640
category_roi_baseline Category.commodity = 710
category_roi_baseline Category.invoice = 880
category_roi_baseline Category.art = 520
category_roi_baseline Category.other = 600

abbrev positive_keywords : List Text
positive_keywords =
    (b'a' ∷ b'u' ∷ b'd' ∷ b'i' ∷ b't' ∷ b'e' ∷ b'd' ∷ [])
    ∷ (b'i' ∷ b'n' ∷ b's' ∷ b'u' ∷ b'r' ∷ b'e' ∷ b'd' ∷ [])
    ∷ (b'l' ∷ b'e' ∷ b'a' ∷ b's' ∷ b'e' ∷ b'd' ∷ [])
    ∷ (b'o' ∷ b'c' ∷ b'c' ∷ b'u' ∷ b'p' ∷ b'i' ∷ b'e' ∷ b'd' ∷ [])
    ∷ (b'v' ∷ b'e' ∷ b'r' ∷ b'i' ∷ b'f' ∷ b'i' ∷ b'e' ∷ b'd' ∷ [])
    ∷ (b'r' ∷ b'e' ∷ b'c' ∷ b'u' ∷ b'r' ∷ b'r' ∷ b'i' ∷ b'n' ∷ b'g' ∷ b' ' ∷ b'r' ∷ b'e' ∷ b'v'
        ∷ b'e' ∷ b'n' ∷ b'u' ∷ b'e' ∷ [])
    ∷ []

abbrev negative_keywords : List Text
negative_keywords =
    (b'd' ∷ b'e' ∷ b'f' ∷ b'a' ∷ b'u' ∷ b'l' ∷ b't' ∷ [])
    ∷ (b'd' ∷ b'i' ∷ b's' ∷ b'p' ∷ b'u' ∷ b't' ∷ b'e' ∷ [])
    ∷ (b'l' ∷ b'a' ∷ b'w' ∷ b's' ∷ b'u' ∷ b'i' ∷ b't' ∷ [])
    ∷ (b'v' ∷ b'a' ∷ b'c' ∷ b'a' ∷ b'n' ∷ b't' ∷ [])
    ∷ (b'v' ∷ b'o' ∷ b'l' ∷ b'a' ∷ b't' ∷ b'i' ∷ b'l' ∷ b'e' ∷ [])
    ∷ (b'd' ∷ b'e' ∷ b'l' ∷ b'i' ∷ b'n' ∷ b'q' ∷ b'u' ∷ b'e' ∷ b'n' ∷ b't' ∷ [])
    ∷ []

-- `_clamp`
abbrev pub clamp : ℕ → ℕ → ℕ → ℕ
clamp value minimum maximum = max minimum (min maximum value)

-- What the valuation adds, and what it takes.
abbrev pub valuation_bonus : ℕ → ℕ
valuation_bonus valuation_sat =
    if leb valuation_sat 5000000 then 6 else if leb valuation_sat 25000000 then 3 else 0

abbrev pub valuation_malus : ℕ → ℕ
valuation_malus valuation_sat =
    if leb valuation_sat 150000000 then 0 else if leb valuation_sat 500000000 then 4 else 8

-- Of a score in hundredths.
abbrev pub risk_level : ℕ → RiskLevel
risk_level score =
    if leb 8200 score
    then RiskLevel.low
    else if leb 6500 score
    then RiskLevel.moderate
    else RiskLevel.high

abbrev pub market_timing : ℕ → MarketTiming
market_timing score =
    if leb 7500 score
    then MarketTiming.favorable
    else if leb 6000 score
    then MarketTiming.watchlist
    else MarketTiming.cautious

-- `if documents_url`
abbrev pub is_given : Option Text → Bool
is_given none = false
is_given (some []) = false
is_given (some (_ ∷ _)) = true

abbrev pub is_nonempty : List Text → Bool
is_nonempty [] = false
is_nonempty (_ ∷ _) = true

-- The keywords in a text, sorted.
unfoldable pub hits_of : List Text → Text → List Text
hits_of keywords text = order_by text_before (select_where (λ k. contains k text) keywords)

-- What the evaluation reads off a submission.
pub record Features : Type 0 where
  pub category : Category
  pub valuation_sat : ℕ
  pub documented : Bool
  pub words : ℕ
  pub title_length : ℕ
  pub positive_hits : List Text
  pub negative_hits : List Text

unfoldable pub features_of : Asset → Features
unfolding hits_of
features_of row =
    let name = strip row.name in
    let description = strip row.description in
    let text = lower (name ++ b' ' ∷ description) in
    record {
      category = row.category;
      valuation_sat = row.valuation_sat;
      documented = is_given row.documents_url;
      words = count_words false description;
      title_length = length name;
      positive_hits = hits_of positive_keywords text;
      negative_hits = hits_of negative_keywords text;
    }

-- The terms of the score that add, and those that take, in 1/180.
abbrev pub merits : Features → ℕ
merits f =
    category_score_baseline f.category * 180
    + (if f.documented then 1440 else 0)
    + min (f.words * 99) 2160
    + min (f.title_length * 10) 720
    + min (length f.positive_hits * 450) 1440
    + valuation_bonus f.valuation_sat * 180

abbrev pub faults : Features → ℕ
faults f =
    (if f.documented then 0 else 2160)
    + min (length f.negative_hits * 630) 2520
    + valuation_malus f.valuation_sat * 180

-- In hundredths.
unfoldable pub score_of : Features → ℕ
score_of f = (clamp (merits f - faults f) 0 18000 * 10 + 9) / 18

-- In hundredths, from the score; the terms are in 1/1500.
unfoldable pub roi_of : Features → ℕ → ℕ
roi_of f score =
    let gains = category_roi_baseline f.category * 15 + score * 2 + length f.positive_hits * 375 in
    let losses = 12000 + length f.negative_hits * 525 in
    (clamp (gains - losses) 2250 36000 * 2 + 15) / 30

abbrev pub strengths_of : Features → List Strength
strengths_of f =
    (if f.documented then Strength.documentation_available ∷ [] else [])
    ++ (if leb 25 f.words then Strength.enough_detail ∷ [] else [])
    ++ (if is_nonempty f.positive_hits
        then Strength.positive_indicators f.positive_hits ∷ []
        else [])
    ++ (if leb f.valuation_sat 25000000 then Strength.conservative_valuation ∷ [] else [])

abbrev pub concerns_of : Features → List Concern
concerns_of f =
    (if f.documented then [] else Concern.documentation_missing ∷ [])
    ++ (if leb 25 f.words then [] else Concern.thin_description ∷ [])
    ++ (if is_nonempty f.negative_hits then Concern.risk_indicators f.negative_hits ∷ [] else [])
    ++ (if leb 500000000 f.valuation_sat then Concern.large_valuation ∷ [] else [])

-- `AssetEvaluationResult`
pub record EvaluationResult : Type 0 where
  pub ai_score : ℕ
  pub ai_analysis : Analysis
  pub projected_roi : ℕ
  pub status : AssetStatus

unfoldable pub evaluate_features : Features → EvaluationResult
unfolding score_of roi_of
evaluate_features f =
    let ai_score = score_of f in
    let projected_roi = roi_of f ai_score in
    record {
      ai_score = ai_score;
      ai_analysis = record {
        risk_level = risk_level ai_score;
        market_timing = market_timing ai_score;
        projected_roi_annual = projected_roi;
        strengths = strengths_of f;
        concerns = concerns_of f;
      };
      projected_roi = projected_roi;
      status = if leb 7000 ai_score then AssetStatus.approved else AssetStatus.rejected;
    }

unfoldable pub evaluate_asset_submission : Asset → EvaluationResult
unfolding features_of evaluate_features
evaluate_asset_submission row = evaluate_features (features_of row)
