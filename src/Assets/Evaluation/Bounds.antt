-- ===== src/Assets/Evaluation/Bounds.antt =====
-- The range of scores and returns.
use tokenization.Common.{
  ℕ, ◌+◌, ◌≤◌, ◌≡◌, refl, ◌↔◌, ◌≢◌, ◌⊎◌, inl, inr, arith, Bool, List, [], ◌∷◌, length, Bool-cases,
}
use tokenization.Common.Table.{select_where}
use tokenization.Common.Sort.{insert_row, order_by}
use tokenization.Database.Rows.{Text}
use tokenization.Database.Assets.{Asset, AssetStatus, RiskLevel, Category}
use tokenization.Assets.Evaluation.{
  Features, features_of, hits_of, score_of, roi_of, EvaluationResult, evaluate_features,
  evaluate_asset_submission, category_score_baseline, category_roi_baseline, positive_keywords,
  negative_keywords, merits, faults,
}

module _ {A : Type 0} where
  length-select_where : (p : A → Bool) (xs : List A) → length (select_where p xs) ≤ length xs
  unfolding select_where
  length-select_where p [] = omega arith
  length-select_where p (x ∷ xs) = elim (Bool-cases (p x)) [
    | inl e ↦ rw e (omega (arith, length-select_where p xs))
    | inr e ↦ rw e (omega (arith, length-select_where p xs))
  ]

  length-insert_row :
      (before : A → A → Bool) (x : A) (ys : List A)
      → length (insert_row before x ys) ≡ length (x ∷ ys)
  length-insert_row before x [] = refl
  length-insert_row before x (y ∷ ys) = elim (Bool-cases (before y x)) [
    | inl e ↦ rw e (omega (arith, length-insert_row before x ys))
    | inr e ↦ rw e refl
  ]

  length-order_by : (before : A → A → Bool) (xs : List A) → length (order_by before xs) ≡ length xs
  unfolding order_by
  length-order_by before [] = refl
  length-order_by before (x ∷ xs) =
      omega (arith, length-insert_row before x (order_by before xs), length-order_by before xs)

length-hits_of :
    (keywords : List Text) (text : Text) → length (hits_of keywords text) ≤ length keywords
unfolding hits_of
length-hits_of keywords text =
    omega (arith, length-order_by _ (select_where _ keywords), length-select_where _ keywords)

-- Each list of keywords has six.
pub record SixKeywords (f : Features) : Type 0 where
  pub positive : length f.positive_hits ≤ 6
  pub negative : length f.negative_hits ≤ 6

features_of-SixKeywords : (row : Asset) → SixKeywords (features_of row)
unfolding features_of
features_of-SixKeywords row = record {
  positive = length-hits_of positive_keywords _;
  negative = length-hits_of negative_keywords _;
}

baseline_least : (c : Category) → 55 ≤ category_score_baseline c
baseline_least c = ground arith

roi_baseline_most : (c : Category) → category_roi_baseline c ≤ 880
roi_baseline_most c = ground arith

-- Every submission keeps 21 points.
merits_exceed_faults : (f : Features) → faults f + 3780 ≤ merits f
merits_exceed_faults f = elim (Bool-cases f.documented) [
  | inl e ↦ rw e (ground (arith, baseline_least f.category))
  | inr e ↦ rw e (ground (arith, baseline_least f.category))
]

score_at_least : (f : Features) → 2100 ≤ score_of f
unfolding score_of
score_at_least f = omega (arith, merits_exceed_faults f)

score_at_most : (f : Features) → score_of f ≤ 10000
unfolding score_of
score_at_most f = omega arith

roi_at_least : (f : Features) (score : ℕ) → 150 ≤ roi_of f score
unfolding roi_of
roi_at_least f score = omega arith

roi_at_most : (f : Features) (score : ℕ) → SixKeywords f → score ≤ 10000 → roi_of f score ≤ 1563
unfolding roi_of
roi_at_most f score six most = omega (arith, most, six.positive, roi_baseline_most f.category)

-- What an evaluation result promises: scores and returns in range, and a decision that follows the score.
pub record IsSound (r : EvaluationResult) : Type 0 where
  pub score_least : 2100 ≤ r.ai_score
  pub score_most : r.ai_score ≤ 10000
  pub roi_least : 150 ≤ r.projected_roi
  pub roi_most : r.projected_roi ≤ 1563
  pub decided : (r.status ≡ AssetStatus.approved) ⊎ (r.status ≡ AssetStatus.rejected)
  pub approved_iff : (r.status ≡ AssetStatus.approved) ↔ (7000 ≤ r.ai_score)
  pub not_risky : r.status ≡ AssetStatus.approved → r.ai_analysis.risk_level ≢ RiskLevel.high

evaluate_features-IsSound : (f : Features) → SixKeywords f → IsSound (evaluate_features f)
unfolding evaluate_features
evaluate_features-IsSound f six = record {
  score_least = score_at_least f;
  score_most = score_at_most f;
  roi_least = roi_at_least f (score_of f);
  roi_most = roi_at_most f (score_of f) six (score_at_most f);
  decided = ground arith;
  approved_iff = ground arith;
  not_risky = ground arith;
}

-- Whatever an asset's title, description, category, valuation and documents are, its evaluation gives a
-- score between 21.00 and 100.00 and a return between 1.50 and 15.63, so that neither clamp of the score
-- at 0 nor of the return at 24 ever acts; it approves or rejects, approves exactly from a score of 70 on,
-- and approves nothing whose risk level is high.
pub evaluate_asset_submission-IsSound : (row : Asset) → IsSound (evaluate_asset_submission row)
unfolding evaluate_asset_submission
evaluate_asset_submission-IsSound row =
    evaluate_features-IsSound (features_of row) (features_of-SixKeywords row)
