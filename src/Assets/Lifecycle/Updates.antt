-- ===== src/Assets/Lifecycle/Updates.antt =====
-- An UPDATE of the table `assets` that leaves the submissions alone.
use tokenization.Common.{
  ℕ, ◌+◌, ◌≤◌, ◌≡◌, refl, sym, ◌∙◌, inl, inr, arith, Bool, true, false, List, [], ◌∷◌, Member,
  Bool-cases, if◌then◌else◌,
}
use tokenization.Common.Table.{
  update_where, count_where, count_where-update_where, Member-update_where,
}
use tokenization.Database.Assets.{Asset}
use tokenization.Database.Model.{Db}
use tokenization.Assets.Evaluation.{features_of, evaluate_asset_submission}
use tokenization.Assets.Store.{is_asset, update_assets}
use tokenization.Assets.Lifecycle.{Same, Passes, IsVetted, IsKnown}

pub Same-trans : (a b c : Asset) → Same a b → Same b c → Same a c
Same-trans a b c s t = record {
  id = s.id ∙ t.id;
  name = s.name ∙ t.name;
  description = s.description ∙ t.description;
  category = s.category ∙ t.category;
  valuation_sat = s.valuation_sat ∙ t.valuation_sat;
  documents_url = s.documents_url ∙ t.documents_url;
}

-- The evaluation reads nothing but the submission.
pub Passes-Same : (a b : Asset) → Same a b → Passes a → Passes b
unfolding evaluate_asset_submission features_of
Passes-Same a b s h =
    rw (sym s.name, sym s.description, sym s.category, sym s.valuation_sat, sym s.documents_url) h

module _ {A : Type 0} (p : A → Bool) (g : A → A) where
  pub Member-update :
      (xs : List A) (x : A) → Member x xs → Member (if p x then g x else x) (update_where p g xs)
  unfolding update_where
  Member-update [] x m = elim m [ ]
  Member-update (y ∷ ys) x (inl e) = inl (rw e refl)
  Member-update (y ∷ ys) x (inr m) = inr (Member-update ys x m)

  -- A row that the update does not select stays.
  pub Member-unselected :
      (xs : List A) (x : A) → p x ≡ false → Member x xs → Member x (update_where p g xs)
  Member-unselected xs x e m = rw e at (Member-update xs x m)

  -- Rows of a kind, when those that are updated were not of it and now are, or are not.
  pub count_where-update_gain :
      (q : A → Bool) (b : Bool) (xs : List A)
      → ((x : A) → p x ≡ true → (q x ≡ false) × (q (g x) ≡ b))
      → count_where q (update_where p g xs) ≡ count_where q xs + (if b then count_where p xs else 0)
  unfolding count_where update_where
  count_where-update_gain q b [] h = ground arith
  count_where-update_gain q b (x ∷ xs) h = elim (Bool-cases (p x)) [
    | inl e ↦
        let (before, now) = h x e in
        rw (e, before, now) (ground (arith, count_where-update_gain q b xs h))
    | inr e ↦ rw e (ground (arith, count_where-update_gain q b xs h))
  ]

module _ (p : Asset → Bool) (g : Asset → Asset) (same : (x : Asset) → Same x (g x)) (db : Db) where
  pub updated-asset_key :
      ((k : ℕ) → count_where (is_asset k) db.assets ≤ 1)
      → (k : ℕ) → count_where (is_asset k) (update_assets p g db).assets ≤ 1
  updated-asset_key keys k =
      rw (count_where-update_where (is_asset k) p g db.assets (λ x. rw (sym (same x).id) refl))
        (keys k)

  pub updated-IsVetted :
      ((x : Asset) → Member x db.assets → p x ≡ true → IsVetted (g x))
      → ((x : Asset) → Member x db.assets → IsVetted x)
      → (y : Asset) → Member y (update_assets p g db).assets
      → IsVetted y
  updated-IsVetted vets old y m =
      let o = Member-update_where p g db.assets y m in
      elim o.change [
        | inl (e, to) ↦ rw to (vets o.row o.found e)
        | inr (e, to) ↦ rw to (old o.row o.found)
      ]

  pub updated-IsKnown : (row : Asset) → IsKnown db row → IsKnown (update_assets p g db) row
  updated-IsKnown row k = record {
    vetted = k.vetted;
    now = if p k.now then g k.now else k.now;
    found = Member-update p g db.assets k.now k.found;
    same = elim (Bool-cases (p k.now)) [
      | inl e ↦ rw e (Same-trans row k.now (g k.now) k.same (same k.now))
      | inr e ↦ rw e k.same
    ];
  }
