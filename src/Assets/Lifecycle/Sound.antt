-- ===== src/Assets/Lifecycle/Sound.antt =====
-- Every step keeps the tables of the service sound.
use tokenization.Common.{ℕ, ◌≡◌, refl, sym, inl, inr, arith, Bool, true, false, Member, ==_refl}
use tokenization.Common.Table.{unique_row}
use tokenization.Database.Assets.{Asset, AssetStatus}
use tokenization.Database.Tx.{◌>>=◌, query, modify, commit, pure}
use tokenization.Assets.Evaluation.{EvaluationResult, evaluate_asset_submission}
use tokenization.Assets.Evaluation.Bounds.{evaluate_asset_submission-IsSound}
use tokenization.Assets.Store.{
  is_asset, is_evaluable, moved, evaluated, can_begin, under_evaluation, update_assets,
  update_returning, begin_asset_evaluation, complete_asset_evaluation, reset_asset_evaluation,
}
use tokenization.Assets.Lifecycle.{
  World, after, Same, Passes, IsVetted, IsSound, is_tokenized, is_accepted, is_tokenized_asset,
}
use tokenization.Assets.Lifecycle.Updates.{
  Passes-Same, count_where-update_gain, updated-asset_key, updated-IsVetted, updated-IsKnown,
}

-- An update that moves no asset to or from `tokenized`, and vets what it accepts.
update-IsSound :
    (w : World) (p : Asset → Bool) (g : Asset → Asset)
    → ((x : Asset) → Same x (g x))
    → ((x : Asset)
        → p x ≡ true
        → (is_tokenized x.status ≡ false) × (is_tokenized (g x).status ≡ false))
    → ((x : Asset) → Member x w.db.assets → p x ≡ true → IsVetted (g x))
    → IsSound w
    → IsSound (record w { db = update_assets p g w.db })
update-IsSound w p g same keeps vets s = record {
  asset_key = updated-asset_key p g same w.db s.asset_key;
  liquid_key = s.liquid_key;
  one_token = λ k.
      let gain =
        count_where-update_gain p g (is_tokenized_asset k) false w.db.assets
          (λ x e. let (a, b) = keeps x e in (rw a (ground arith), rw b (ground arith))) in
      omega (arith, gain, s.one_token k);
  vetted = updated-IsVetted p g same w.db vets s.vetted;
  known = λ row m. updated-IsKnown p g same w.db row (s.known row m);
}

pub Same-moved : (status : AssetStatus) (now : ℕ) (x : Asset) → Same x (moved status now x)
Same-moved status now x = record {
  id = refl;
  name = refl;
  description = refl;
  category = refl;
  valuation_sat = refl;
  documents_url = refl;
}

pub Same-evaluated : (r : EvaluationResult) (now : ℕ) (x : Asset) → Same x (evaluated r now x)
Same-evaluated r now x = record {
  id = refl;
  name = refl;
  description = refl;
  category = refl;
  valuation_sat = refl;
  documents_url = refl;
}

-- What was read of an asset is what is there.
known_submission :
    (w : World) (row x : Asset)
    → IsSound w
    → Member row w.seen
    → Member x w.db.assets
    → is_asset row.id x ≡ true
    → Same row x
known_submission w row x s seen m e =
    let k = s.known row seen in
    let own : is_asset row.id k.now ≡ true = rw (sym k.same.id) (==_refl row.id) in
    let one =
      unique_row (is_asset row.id) w.db.assets k.now x (s.asset_key row.id) k.found m own e in
    rw one at k.same

pub begins-IsSound :
    (w : World) (now asset_id owner_id : ℕ)
    → IsSound w
    → IsSound (after w (begin_asset_evaluation now asset_id owner_id))
unfolding begin_asset_evaluation update_returning ◌>>=◌ query modify commit pure
begins-IsSound w now asset_id owner_id =
    update-IsSound w (can_begin asset_id owner_id) (moved AssetStatus.evaluating now)
      (Same-moved AssetStatus.evaluating now) (λ x e. (ground arith, refl))
      (λ x m e h. absurd (ground arith))

accepted_approved :
    (row : Asset) → is_accepted (evaluate_asset_submission row).status ≡ true → Passes row
accepted_approved row h = elim (evaluate_asset_submission-IsSound row).decided [
  | inl e ↦ e
  | inr e ↦ absurd (ground (arith, rw e at h))
]

decision_not_tokenized : (row : Asset) → is_tokenized (evaluate_asset_submission row).status ≡ false
decision_not_tokenized row = elim (evaluate_asset_submission-IsSound row).decided [
  | inl e ↦ rw e refl
  | inr e ↦ rw e refl
]

pub completes-IsSound :
    (w : World) (now : ℕ) (row : Asset)
    → Member row w.seen
    → IsSound w
    → IsSound (after w (complete_asset_evaluation now row.id (evaluate_asset_submission row)))
unfolding complete_asset_evaluation update_returning ◌>>=◌ query modify commit pure
completes-IsSound w now row seen s =
    let r = evaluate_asset_submission row in
    update-IsSound w (under_evaluation row.id) (evaluated r now) (Same-evaluated r now)
      (λ x e. (ground arith, decision_not_tokenized row))
      (λ x m e h.
        let same = known_submission w row x s seen m (ground arith) in
        Passes-Same x (evaluated r now x) (Same-evaluated r now x)
          (Passes-Same row x same (accepted_approved row h)))
      s

pub resets-IsSound :
    (w : World) (now : ℕ) (row : Asset)
    → Member row w.seen
    → is_evaluable row.status ≡ true
    → IsSound w
    → IsSound (after w (reset_asset_evaluation now row.id row.status))
unfolding reset_asset_evaluation update_returning ◌>>=◌ query modify commit pure
resets-IsSound w now row seen evaluable s =
    update-IsSound w (under_evaluation row.id) (moved row.status now) (Same-moved row.status now)
      (λ x e. (ground arith, ground arith))
      (λ x m e h.
        let same = known_submission w row x s seen m (ground arith) in
        Passes-Same x (moved row.status now x) (Same-moved row.status now x)
          (Passes-Same row x same ((s.known row seen).vetted h)))
      s
