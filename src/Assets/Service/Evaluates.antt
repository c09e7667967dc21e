-- ===== src/Assets/Service/Evaluates.antt =====
-- An evaluation from its request to its end.
use tokenization.Common.{ℕ, ◌≡◌, ◌≢◌, refl, inl, inr, arith, true, false, ◌==◌, Bool-cases}
use tokenization.Database.Assets.{Asset, AssetStatus}
use tokenization.Database.Model.{Db}
use tokenization.Database.Tx.{
  Result, ok, Conn, ◌>>=◌, pure, query, raise, or_raise, raise_if, catch, modify, commit, rollback,
  connected, at_rest,
}
use tokenization.Assets.Evaluation.{evaluate_asset_submission}
use tokenization.Assets.Evaluation.Bounds.{evaluate_asset_submission-IsSound}
use tokenization.Assets.Store.{
  is_evaluable, is_evaluating, moved, evaluated, can_begin, under_evaluation, update_assets,
  get_asset_by_id, update_returning, begin_asset_evaluation, complete_asset_evaluation,
  reset_asset_evaluation,
}
use tokenization.Assets.Lifecycle.{is_tokenized}
use tokenization.Assets.Service.Pinned.{Pinned, fetch-Pinned, selected-Pinned, update-Pinned}
use tokenization.Assets.Service.{
  Moment, Principal, Task, Course, may_issue, require_seller_or_admin, queue_evaluation, dispatch,
  request_asset_evaluation, run_asset_evaluation,
}

-- The database once the evaluation is queued, and the row then.
abbrev begun : ℕ → ℕ → ℕ → Db → Db
begun now asset_id owner_id db =
    update_assets (can_begin asset_id owner_id) (moved AssetStatus.evaluating now) db

module _ (asset_id : ℕ) (x : Asset) (principal : Principal) (db : Db) (h : Pinned asset_id x db)
    (role : may_issue principal.role ≡ true) (owner : x.owner_id ≡ principal.id)
    (ready : is_evaluable x.status ≡ true) where
  can_begin_here : can_begin asset_id principal.id x ≡ true
  can_begin_here = rw (h.own, owner, ready) (ground arith)

  abbrev queued : ℕ → Asset
  queued now = moved AssetStatus.evaluating now x

  queued-Pinned : (now : ℕ) → Pinned asset_id (queued now) (begun now asset_id principal.id db)
  queued-Pinned now = rw can_begin_here at (
      update-Pinned asset_id x db (can_begin asset_id principal.id)
        (moved AssetStatus.evaluating now) (λ y. refl) h)

  request-runs :
      (at : Moment)
      → request_asset_evaluation true at asset_id principal (at_rest db) ≡ (
        ok (record { asset_id = asset_id; fallback_status = x.status }),
        at_rest (begun at.now asset_id principal.id db),
      )
  unfolding request_asset_evaluation queue_evaluation dispatch require_seller_or_admin
      get_asset_by_id begin_asset_evaluation update_returning connected ◌>>=◌ query modify commit
      rollback or_raise raise_if raise pure
  request-runs at =
      let read = fetch-Pinned asset_id x db h in
      let same : (x.owner_id == principal.id) ≡ true = ground arith in
      let idle : is_evaluating x.status ≡ false = ground arith in
      let unsold : is_tokenized x.status ≡ false = ground arith in
      let wrote =
        selected-Pinned asset_id x db (can_begin asset_id principal.id)
          (moved AssetStatus.evaluating at.now) h can_begin_here in
      elim (Bool-cases at.audited) [
        | inl e ↦ rw (role, read, same, idle, unsold, wrote, e, wrote) refl
        | inr e ↦ rw (role, read, same, idle, unsold, wrote, e, wrote) refl
      ]

-- How an evaluation ends: with the task returned, nothing uncommitted, and this row.
pub record Ends (asset_id : ℕ) (q : Asset) (r : Result Unit) (c : Conn) : Type 0 where
  pub returned : r ≡ ok tt
  pub settled : c ≡ at_rest c.committed
  pub pinned : Pinned asset_id q c.committed

-- The row at the end: the stored result, or the status from before.
abbrev pub ended : Course → ℕ → AssetStatus → Asset → Asset
ended Course.completes now fallback q = evaluated (evaluate_asset_submission q) now q
ended Course.fails_early now fallback q = moved fallback now q
ended Course.fails_late now fallback q = evaluated (evaluate_asset_submission q) now q
ended Course.cancelled now fallback q = q

decided : (q : Asset) → is_evaluating (evaluate_asset_submission q).status ≡ false
decided q = elim (evaluate_asset_submission-IsSound q).decided [
  | inl e ↦ rw e refl
  | inr e ↦ rw e refl
]

module _ (asset_id now : ℕ) (fallback : AssetStatus) (q : Asset) (db : Db)
    (h : Pinned asset_id q db) (busy : is_evaluating q.status ≡ true) where
  abbrev task : Task
  task = record { asset_id = asset_id; fallback_status = fallback }

  selected : under_evaluation asset_id q ≡ true
  selected = rw (h.own, busy) refl

  stored-Pinned :
      (g : Asset → Asset)
      → ((x : Asset) → (g x).id ≡ x.id)
      → Pinned asset_id (g q) (update_assets (under_evaluation asset_id) g db)
  stored-Pinned g same =
      rw selected at (update-Pinned asset_id q db (under_evaluation asset_id) g same h)

  completed-Pinned :
      let r = evaluate_asset_submission q in
      Pinned asset_id (evaluated r now q) (
        update_assets
          (under_evaluation asset_id)
          (moved fallback now)
          (update_assets (under_evaluation asset_id) (evaluated r now) db))
  completed-Pinned =
      let r = evaluate_asset_submission q in
      let p =
        update-Pinned asset_id (evaluated r now q)
          (update_assets (under_evaluation asset_id) (evaluated r now) db)
          (under_evaluation asset_id) (moved fallback now) (λ x. refl)
          (stored-Pinned (evaluated r now) (λ x. refl)) in
      rw (h.own, decided q) at p

  run-Ends :
      (course : Course)
      → course ≢ Course.cancelled
      → let (r, c) = run_asset_evaluation course now task (at_rest db) in
        Ends asset_id (ended course now fallback q) r c
  unfolding run_asset_evaluation get_asset_by_id complete_asset_evaluation reset_asset_evaluation
      update_returning connected catch ◌>>=◌ query modify commit raise_if raise pure
  run-Ends Course.cancelled alive = absurd (alive refl)
  run-Ends Course.completes alive =
      rw
        (
          fetch-Pinned asset_id q db h,
          selected-Pinned asset_id q db (under_evaluation asset_id)
              (evaluated (evaluate_asset_submission q) now) h selected,
        )
        (record {
          returned = refl;
          settled = refl;
          pinned = stored-Pinned (evaluated (evaluate_asset_submission q) now) (λ x. refl);
        })
  run-Ends Course.fails_early alive = record {
    returned = refl;
    settled = refl;
    pinned = stored-Pinned (moved fallback now) (λ x. refl);
  }
  run-Ends Course.fails_late alive =
      rw
        (
          fetch-Pinned asset_id q db h,
          selected-Pinned asset_id q db (under_evaluation asset_id)
              (evaluated (evaluate_asset_submission q) now) h selected,
        )
        (record { returned = refl; settled = refl; pinned = completed-Pinned })

decision_evaluable : (q : Asset) → is_evaluable (evaluate_asset_submission q).status ≡ true
decision_evaluable q = elim (evaluate_asset_submission-IsSound q).decided [
  | inl e ↦ rw e refl
  | inr e ↦ rw e refl
]

ended_evaluable :
    (course : Course) (now : ℕ) (fallback : AssetStatus) (q : Asset)
    → course ≢ Course.cancelled
    → is_evaluable fallback ≡ true
    → is_evaluable (ended course now fallback q).status ≡ true
ended_evaluable Course.cancelled now fallback q alive e = absurd (alive refl)
ended_evaluable Course.completes now fallback q alive e = decision_evaluable q
ended_evaluable Course.fails_early now fallback q alive e = e
ended_evaluable Course.fails_late now fallback q alive e = decision_evaluable q

-- If the only asset with an identifier is pending, approved or rejected, and its owner, as a seller or an
-- administrator, asks for its evaluation with nothing uncommitted, the request is accepted, and the task that
-- it starts, unless it is cancelled, leaves the asset with its result stored, or, if it fails before, with
-- the status it had; in each case the asset is no longer under evaluation, can be evaluated again, and
-- nothing is uncommitted.
pub evaluation-Ends :
    (at : Moment) (later asset_id : ℕ) (x : Asset) (principal : Principal) (course : Course)
    (db : Db)
    → Pinned asset_id x db
    → may_issue principal.role ≡ true
    → x.owner_id ≡ principal.id
    → is_evaluable x.status ≡ true
    → course ≢ Course.cancelled
    → let q = ended course later x.status (moved AssetStatus.evaluating at.now x) in
      let (r, c) =
        (request_asset_evaluation true at asset_id principal >>= run_asset_evaluation course later)
          (at_rest db) in
      Ends asset_id q r c × (is_evaluable q.status ≡ true)
unfolding ◌>>=◌
evaluation-Ends at later asset_id x principal course db h role owner ready alive =
    rw (request-runs asset_id x principal db h role owner ready at) (
      run-Ends asset_id later x.status (moved AssetStatus.evaluating at.now x)
          (begun at.now asset_id principal.id db)
          (queued-Pinned asset_id x principal db h role owner ready at.now) refl course alive,
      ended_evaluable course later x.status (moved AssetStatus.evaluating at.now x) alive ready,
    )
