-- ===== src/Assets/Lifecycle/Reached.antt =====
-- What holds after any sequence of steps.
use tokenization.Common.{ℕ, ◌≡◌, refl, ◌⊎◌, inl, inr, arith, Bool, true, Option, Member}
use tokenization.Common.Table.{count_where, Member-update_where, Member-append_one}
use tokenization.Database.Assets.{Asset, Token, AssetStatus}
use tokenization.Database.Model.{Db}
use tokenization.Database.Tx.{◌>>=◌, query, modify, commit, pure, Result, Conn}
use tokenization.Assets.Evaluation.{evaluate_asset_submission}
use tokenization.Assets.Evaluation.Bounds.{evaluate_asset_submission-IsSound}
use tokenization.Assets.Store.{
  Issue, is_asset, is_evaluable, is_evaluating, is_approved, create_asset, moved, evaluated,
  can_begin, under_evaluation, can_tokenize, update_assets, update_returning,
  begin_asset_evaluation, complete_asset_evaluation, reset_asset_evaluation,
}
use tokenization.Assets.Minting.{Minting, refused, clashed, minted, create_asset_token-Minting}
use tokenization.Assets.Lifecycle.{
  World, ◌⇒◌, submits, reads, begins, completes, resets, mints, ◌⇒*◌, here, then, Same, IsSound,
}
use tokenization.Assets.Lifecycle.Updates.{Member-unselected}
use tokenization.Assets.Lifecycle.Sound.{
  Same-moved, Same-evaluated, begins-IsSound, completes-IsSound, resets-IsSound,
}
use tokenization.Assets.Lifecycle.Issuing.{
  Member-append, submits-IsSound, reads-IsSound, mints-IsSound,
}

⇒-IsSound : {u v : World} → u ⇒ v → IsSound u → IsSound v
⇒-IsSound {u = u} (submits asset_id now s fresh) h = submits-IsSound u asset_id now s fresh h
⇒-IsSound {u = u} (reads row m) h = reads-IsSound u row m h
⇒-IsSound {u = u} (begins now asset_id owner_id) h = begins-IsSound u now asset_id owner_id h
⇒-IsSound {u = u} (completes now row seen) h = completes-IsSound u now row seen h
⇒-IsSound {u = u} (resets now row seen e) h = resets-IsSound u now row seen e h
⇒-IsSound {u = u} (mints now i) h = mints-IsSound u now i h

-- Whatever requests and evaluation tasks run from sound tables, in whatever order their statements
-- interleave: asset identifiers and Liquid assets stay unique; an asset has a token exactly if it is
-- tokenized, and then one; and no asset is approved or tokenized whose evaluation does not approve it, not
-- even when an evaluation fails and the status falls back to what a request read earlier.
pub ⇒*-IsSound : {u v : World} → u ⇒* v → IsSound u → IsSound v
⇒*-IsSound here h = h
⇒*-IsSound (then step rest) h = ⇒*-IsSound rest (⇒-IsSound step h)

-- The statuses of an asset, and how it moves between them.
infix 40 ◌⟶◌
pub data ◌⟶◌ : AssetStatus → AssetStatus → Type 0 where
  begin_pending : AssetStatus.pending ⟶ AssetStatus.evaluating
  begin_approved : AssetStatus.approved ⟶ AssetStatus.evaluating
  begin_rejected : AssetStatus.rejected ⟶ AssetStatus.evaluating
  approve : AssetStatus.evaluating ⟶ AssetStatus.approved
  reject : AssetStatus.evaluating ⟶ AssetStatus.rejected
  give_up : AssetStatus.evaluating ⟶ AssetStatus.pending
  tokenize : AssetStatus.approved ⟶ AssetStatus.tokenized

-- A row is one from before, or one from before that moved along an edge, as it was submitted.
pub record Descends (db : Db) (y : Asset) : Type 0 where
  pub row : Asset
  pub found : Member row db.assets
  pub same : Same row y
  pub change : (y ≡ row) ⊎ (row.status ⟶ y.status)

Same-refl : (x : Asset) → Same x x
Same-refl x = record {
  id = refl;
  name = refl;
  description = refl;
  category = refl;
  valuation_sat = refl;
  documents_url = refl;
}

unchanged-Descends : (db : Db) (y : Asset) → Member y db.assets → Descends db y
unchanged-Descends db y m = record { row = y; found = m; same = Same-refl y; change = inl refl }

update-Descends :
    (db : Db) (p : Asset → Bool) (g : Asset → Asset)
    → ((x : Asset) → Same x (g x))
    → ((x : Asset) → p x ≡ true → x.status ⟶ (g x).status)
    → (y : Asset) → Member y (update_assets p g db).assets
    → Descends db y
update-Descends db p g same edge y m =
    let o = Member-update_where p g db.assets y m in
    elim o.change [
      | inl (e, to) ↦
          rw to (record {
            row = o.row;
            found = o.found;
            same = same o.row;
            change = inr (edge o.row e);
          })
      | inr (e, to) ↦ rw to (unchanged-Descends db o.row o.found)
    ]

ruleset edges = (begin_pending, begin_approved, begin_rejected, approve, reject, give_up, tokenize)

begin_edge : (s : AssetStatus) → is_evaluable s ≡ true → s ⟶ AssetStatus.evaluating
begin_edge s e = grind (arith, edges)

end_edge : (s t : AssetStatus) → is_evaluating s ≡ true → is_evaluable t ≡ true → s ⟶ t
end_edge s t e d = grind (arith, edges)

tokenize_edge : (s : AssetStatus) → is_approved s ≡ true → s ⟶ AssetStatus.tokenized
tokenize_edge s e = grind (arith, edges)

decision_evaluable : (row : Asset) → is_evaluable (evaluate_asset_submission row).status ≡ true
decision_evaluable row = elim (evaluate_asset_submission-IsSound row).decided [
  | inl e ↦ rw e refl
  | inr e ↦ rw e refl
]

-- A new asset, which waits for its evaluation, or one that descends from an asset before.
abbrev pub IsFollowed : Db → Asset → Type 0
IsFollowed db y =
    ((y.status ≡ AssetStatus.pending) × (count_where (is_asset y.id) db.assets ≡ 0)) ⊎ Descends db y

minted-Descends :
    (now : ℕ) (i : Issue) (db : Db) (out : Result (Option (Asset × Option Token)) × Conn)
    → Minting now i db out
    → (y : Asset) → Member y out.1.committed.assets
    → Descends db y
minted-Descends now i db _ (refused none_found) y m = unchanged-Descends db y m
minted-Descends now i db _ (clashed there taken) y m = unchanged-Descends db y m
minted-Descends now i db _ (minted there free new) y m =
    update-Descends db (can_tokenize i) (moved AssetStatus.tokenized now)
      (Same-moved AssetStatus.tokenized now) (λ x e. tokenize_edge x.status (ground arith)) y m

-- After any statement of the service, every asset is either new and pending, or an asset from before as it
-- was submitted, whose row is untouched or whose status moved along an edge of the diagram.
pub ⇒-IsFollowed : {u v : World} → u ⇒ v → (y : Asset) → Member y v.db.assets → IsFollowed u.db y
unfolding create_asset begin_asset_evaluation complete_asset_evaluation reset_asset_evaluation
    update_returning ◌>>=◌ query modify commit pure
⇒-IsFollowed {u = u} (submits asset_id now s fresh) y m =
    elim (Member-append_one u.db.assets _ y m) [
      | inl old ↦ inr (unchanged-Descends u.db y old)
      | inr e ↦ rw e (inl (refl, fresh))
    ]
⇒-IsFollowed {u = u} (reads row seen) y m = inr (unchanged-Descends u.db y m)
⇒-IsFollowed {u = u} (begins now asset_id owner_id) y m = inr (
    update-Descends u.db (can_begin asset_id owner_id) (moved AssetStatus.evaluating now)
      (Same-moved AssetStatus.evaluating now) (λ x e. begin_edge x.status (ground arith)) y m)
⇒-IsFollowed {u = u} (completes now row seen) y m =
    let r = evaluate_asset_submission row in
    inr (
      update-Descends u.db (under_evaluation row.id) (evaluated r now) (Same-evaluated r now)
        (λ x e. end_edge x.status r.status (ground arith) (decision_evaluable row)) y m)
⇒-IsFollowed {u = u} (resets now row seen evaluable) y m = inr (
    update-Descends u.db (under_evaluation row.id) (moved row.status now)
      (Same-moved row.status now) (λ x e. end_edge x.status row.status (ground arith) evaluable) y
      m)
⇒-IsFollowed {u = u} (mints now i) y m =
    inr (minted-Descends now i u.db _ (create_asset_token-Minting now i u.db) y m)

minted-stays :
    (now : ℕ) (i : Issue) (db : Db) (out : Result (Option (Asset × Option Token)) × Conn)
    → Minting now i db out
    → (x : Asset) → x.status ≡ AssetStatus.tokenized
    → Member x db.assets
    → Member x out.1.committed.assets
minted-stays now i db _ (refused none_found) x e m = m
minted-stays now i db _ (clashed there taken) x e m = m
minted-stays now i db _ (minted there free new) x e m =
    Member-unselected (can_tokenize i) (moved AssetStatus.tokenized now) db.assets x
      (rw e (ground arith)) m

⇒-stays :
    {u v : World}
    → u ⇒ v
    → (x : Asset) → x.status ≡ AssetStatus.tokenized
    → Member x u.db.assets
    → Member x v.db.assets
unfolding create_asset begin_asset_evaluation complete_asset_evaluation reset_asset_evaluation
    update_returning ◌>>=◌ query modify commit pure
⇒-stays {u = u} (submits asset_id now s fresh) x e m = Member-append u.db.assets _ x m
⇒-stays {u = u} (reads row seen) x e m = m
⇒-stays {u = u} (begins now asset_id owner_id) x e m =
    Member-unselected _ _ u.db.assets x (rw e (ground arith)) m
⇒-stays {u = u} (completes now row seen) x e m =
    Member-unselected _ _ u.db.assets x (rw e (ground arith)) m
⇒-stays {u = u} (resets now row seen evaluable) x e m =
    Member-unselected _ _ u.db.assets x (rw e (ground arith)) m
⇒-stays {u = u} (mints now i) x e m =
    minted-stays now i u.db _ (create_asset_token-Minting now i u.db) x e m

-- A tokenized asset is final: whatever runs afterwards, its row stays in the table as it is, score and
-- owner included.
pub ⇒*-stays :
    {u v : World}
    → u ⇒* v
    → (x : Asset) → x.status ≡ AssetStatus.tokenized
    → Member x u.db.assets
    → Member x v.db.assets
⇒*-stays here x e m = m
⇒*-stays (then step rest) x e m = ⇒*-stays rest x e (⇒-stays step x e m)
