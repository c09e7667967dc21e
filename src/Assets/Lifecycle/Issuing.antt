-- ===== src/Assets/Lifecycle/Issuing.antt =====
-- Submitting an asset and issuing its token keep the tables of the service sound.
use tokenization.Common.{
  ℕ, ◌+◌, ◌≤◌, ◌≡◌, refl, inl, inr, arith, Option, List, [], ◌∷◌, ◌++◌, Member, ◌==◌, Bool-cases,
  if◌then◌else◌,
}
use tokenization.Common.Table.{count_where, count_where_mono, count_where-append, Member-append_one}
use tokenization.Database.Rows.{Text, same_text, same_text_eq}
use tokenization.Database.Assets.{Asset, Token, AssetStatus}
use tokenization.Database.Tx.{◌>>=◌, modify, commit, pure, Result, Conn, at_rest}
use tokenization.Assets.Store.{
  Submission, Issue, is_asset, is_token_of, is_issued, create_asset, new_asset, moved, can_tokenize,
  new_token, create_asset_token,
}
use tokenization.Assets.Minting.{
  Minting, refused, clashed, minted, minted_db, create_asset_token-Minting,
}
use tokenization.Assets.Lifecycle.{World, after, IsKnown, IsSound, is_tokenized_asset}
use tokenization.Assets.Lifecycle.Updates.{
  Passes-Same, count_where-update_gain, updated-asset_key, updated-IsVetted, updated-IsKnown,
}
use tokenization.Assets.Lifecycle.Sound.{Same-moved}

pub Member-append : {A : Type 0} (xs ys : List A) (x : A) → Member x xs → Member x (xs ++ ys)
Member-append [] ys x m = elim m [ ]
Member-append (z ∷ zs) ys x (inl e) = inl e
Member-append (z ∷ zs) ys x (inr m) = inr (Member-append zs ys x m)

pub submits-IsSound :
    (w : World) (asset_id now : ℕ) (sub : Submission)
    → count_where (is_asset asset_id) w.db.assets ≡ 0
    → IsSound w
    → IsSound (after w (create_asset asset_id now sub))
unfolding create_asset ◌>>=◌ modify commit pure count_where
submits-IsSound w asset_id now sub fresh s =
    let row = new_asset asset_id now sub in
    record {
      asset_key = λ k. elim (Bool-cases (asset_id == k)) [
        | inl e ↦
            let same : asset_id ≡ k = ground arith in
            rw (count_where-append (is_asset k) w.db.assets (row ∷ []), e)
              (omega (arith, rw same at fresh))
        | inr e ↦
            rw (count_where-append (is_asset k) w.db.assets (row ∷ []), e)
              (omega (arith, s.asset_key k))
      ];
      liquid_key = s.liquid_key;
      one_token = λ k.
          ground (
            arith,
            s.one_token k,
            count_where-append (is_tokenized_asset k) w.db.assets (row ∷ []),
          );
      vetted = λ a m. elim (Member-append_one w.db.assets row a m) [
        | inl old ↦ s.vetted a old
        | inr e ↦ λ h. absurd (ground (arith, rw e at h))
      ];
      known = λ seen m.
          let k = s.known seen m in
          record {
            vetted = k.vetted;
            now = k.now;
            found = Member-append w.db.assets (row ∷ []) k.now k.found;
            same = k.same;
          };
    }

pub reads-IsSound :
    (w : World) (row : Asset)
    → Member row w.db.assets
    → IsSound w
    → IsSound (record w { seen = row ∷ w.seen })
reads-IsSound w row m s = record {
  asset_key = s.asset_key;
  liquid_key = s.liquid_key;
  one_token = s.one_token;
  vetted = s.vetted;
  known = known_more;
}
  where
    known_more : (r : Asset) → Member r (row ∷ w.seen) → IsKnown w.db r
    known_more r (inl e) = rw e (record {
      vetted = s.vetted row m;
      now = row;
      found = m;
      same = record {
        id = refl;
        name = refl;
        description = refl;
        category = refl;
        valuation_sat = refl;
        documents_url = refl;
      };
    })
    known_more r (inr seen) = s.known r seen

module _ (w : World) (now : ℕ) (i : Issue) (s : IsSound w) where
  issued_gain :
      (k : ℕ)
      → count_where (is_tokenized_asset k) (minted_db now i w.db).assets
        ≡ count_where (is_tokenized_asset k) w.db.assets
          + (if i.asset_id == k then count_where (can_tokenize i) w.db.assets else 0)
  issued_gain k =
      count_where-update_gain (can_tokenize i) (moved AssetStatus.tokenized now)
        (is_tokenized_asset k) (i.asset_id == k) w.db.assets (λ x e. (ground arith, ground arith))

  at_most_one : count_where (can_tokenize i) w.db.assets ≤ 1
  at_most_one = omega (
    arith,
    s.asset_key i.asset_id,
    count_where_mono (can_tokenize i) (is_asset i.asset_id) w.db.assets (λ x e. ground arith),
  )

  new_liquid_key :
      count_where (is_issued i.liquid_asset_id) w.db.tokens ≡ 0
      → (t : Text) → count_where (is_issued t) (minted_db now i w.db).tokens ≤ 1
  unfolding count_where
  new_liquid_key free t = elim (Bool-cases (same_text i.liquid_asset_id t)) [
    | inl e ↦
        let same = same_text_eq i.liquid_asset_id t e in
        rw (count_where-append (is_issued t) w.db.tokens (new_token now i ∷ []), e)
          (omega (arith, rw same at free))
    | inr e ↦
        rw (count_where-append (is_issued t) w.db.tokens (new_token now i ∷ []), e)
          (omega (arith, s.liquid_key t))
  ]

  minted-IsSound :
      1 ≤ count_where (can_tokenize i) w.db.assets
      → count_where (is_issued i.liquid_asset_id) w.db.tokens ≡ 0
      → IsSound (record w { db = minted_db now i w.db })
  unfolding count_where
  minted-IsSound there free =
      let g = moved AssetStatus.tokenized now in
      let same = Same-moved AssetStatus.tokenized now in
      record {
        asset_key = updated-asset_key (can_tokenize i) g same w.db s.asset_key;
        liquid_key = new_liquid_key free;
        one_token = λ k. ground (
          arith,
          issued_gain k,
          at_most_one,
          s.one_token k,
          count_where-append (is_token_of k) w.db.tokens (new_token now i ∷ []),
        );
        vetted =
            updated-IsVetted (can_tokenize i) g same w.db
              (λ x m e h. Passes-Same x (g x) (same x) (s.vetted x m (ground arith))) s.vetted;
        known = λ row m.
            let k = updated-IsKnown (can_tokenize i) g same w.db row (s.known row m) in
            record { vetted = k.vetted; now = k.now; found = k.found; same = k.same };
      }

  ended-IsSound :
      (out : Result (Option (Asset × Option Token)) × Conn)
      → Minting now i w.db out
      → IsSound (record w { db = out.1.committed })
  ended-IsSound _ (refused none_found) = s
  ended-IsSound _ (clashed there taken) = s
  ended-IsSound _ (minted there free new) = minted-IsSound there free

  pub mints-IsSound : IsSound (after w (create_asset_token now i))
  mints-IsSound =
      ended-IsSound (create_asset_token now i (at_rest w.db))
        (create_asset_token-Minting now i w.db)
