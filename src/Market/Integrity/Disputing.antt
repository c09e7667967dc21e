-- ===== src/Market/Integrity/Disputing.antt =====
-- Expiring an escrow, and opening and resolving a dispute: the tables and the supply.
use tokenization.Common.{
  ◌∙◌, sym, ℕ, ◌≡◌, refl, Bool, true, ◌&&◌, Option, none, some, List, [], ◌∷◌, arith, ◌==◌, ==_iff,
  Member,
}
use tokenization.Common.Table.{
  select_where, update_where, fetch_one, unique_row, fetch_one-select_where,
}
use tokenization.Database.Model.{
  Text, TradeStatus, Resolution, Order, Trade, Escrow, Dispute, TokenBalance, Metadata, Signatures,
  time, Db,
}
use tokenization.Database.Tx.{
  Failure, ◌>>=◌, pure, raise, commit, escrow_update_failed, trade_update_failed, ◌>>◌,
}
use tokenization.Database.Tx.Rules.{
  Ensures, Ensures-raise, Ensures-if, Ensures-pure, Ensures-bind, Ensures-attempt, Ensures-query,
}
use tokenization.Market.Balances.{upsert_balance}
use tokenization.Market.Orders.{get_order_by_id, get_trade_by_id}
use tokenization.Market.Trading.{Stamp}
use tokenization.Market.Escrows.{
  is_created, is_funded, is_disputed, is_pending, get_escrow_by_trade_id, update_escrow,
  update_trade, set_status, mark_expired, expire_unfunded_escrow, merge_settlement_metadata,
}
use tokenization.Market.Disputes.{
  is_escrowed, dispute_escrow, open_dispute, resolved_escrow, resolved_trade, beneficiary,
  require_row, resolve_dispute, record_fee_on_release, update_dispute, is_open_dispute,
  close_dispute,
}
use tokenization.Market.Integrity.{locked_by, supply_in, trade_status, IsSound, IsKept}
use tokenization.Market.Integrity.Rows.{held-increment}
use tokenization.Market.Integrity.Pair.{Together, pair-IsSound, pair_moves, credit-IsSound}
use tokenization.Market.Integrity.Closing.{Keeps}
use tokenization.Market.Integrity.Matching.{after-Leaves, commits}
use tokenization.Market.Integrity.Leaves.{
  same_tables, At, revert_order_fill-Leaves, record_fee_on_release-Leaves, insert_dispute-Leaves,
  update_dispute-Leaves,
}
use tokenization.Market.Integrity.Steps.{
  Ensures-fact, increment_token_balance-At, update_trade-At, update_escrow-At,
}
use tokenization.Database.Tx.Moves.{Moves-query, Moves-or_raise, Moves-raise_if}

module _ (token : ℕ) (T : List Trade) (E : List Escrow) (B : List TokenBalance)
    (sound : IsSound T E B) where
  pub expire_unfunded_escrow-IsKept :
      (s : Stamp) (y : Trade) (x : Escrow) (b o : Order)
      → ((e : Escrow) → Member e E → e.id ≡ x.id → e.trade_id ≡ y.id)
      → ((t : Trade)
          → Member t T
          → t.id ≡ y.id
          → (t.token_id ≡ y.token_id) × (t.quantity ≡ y.quantity))
      → Keeps token T E B sound (expire_unfunded_escrow s y x b o)
  unfolding expire_unfunded_escrow
  expire_unfunded_escrow-IsKept s y x b o own read =
      let metadata =
        merge_settlement_metadata x.settlement_metadata (("expired_at", time s.now) ∷ []) in
      let p : Trade → Bool = λ t. t.id == y.id && is_pending t.status in
      let g = set_status TradeStatus.cancelled in
      let q : Escrow → Bool = λ e. e.id == x.id && is_created e.status in
      let h = mark_expired s.now metadata in
      let pair : Together y.id E p g q h = record {
        p_id = λ t e. ground arith;
        g_id = λ t. refl;
        q_id = λ e me f. own e me (ground arith);
        h_id = λ e. refl;
        fits = λ t e. refl;
      } in
      let B' = upsert_balance s.balance_id s.now o.user_id y.token_id y.quantity B in
      after-Leaves T E B _ _ (Moves-raise_if _ _) (λ _. Ensures-attempt _ (
        Ensures-bind _ _ _
          (increment_token_balance-At T E B s.balance_id s.now o.user_id y.token_id y.quantity)
          (λ _. after-Leaves T E B' _ _ (revert_order_fill-Leaves s.now b y.quantity) (λ _.
            after-Leaves T E B' _ _ (revert_order_fill-Leaves s.now o y.quantity) (λ _.
              Ensures-bind _ _ _ (update_escrow-At T E B' q h _) (λ u. Ensures-fact _ (λ ue.
                Ensures-bind _ _ _ (update_trade-At T (update_where q h E) B' p g _) (λ r.
                  Ensures-fact _ (λ ut.
                    let (st, mv) = pair_moves token y.id T E B sound p g q h pair r u ut ue in
                    let meets = ut.meets in
                    let (tok, qty) = read ut.old ut.found (pair.p_id ut.old meets) in
                    commits token _ (update_where p g T) (update_where q h E) B' _
                      (credit-IsSound token (update_where p g T) (update_where q h E) B s.balance_id
                        s.now o.user_id y.token_id y.quantity
                        (pair-IsSound token y.id T E B sound p g q h pair r u ut ue))
                      (grind (
                        arith,
                        held-increment token s.now o.user_id y.token_id y.quantity B s.balance_id
                            (sound.keyed.balance_key o.user_id y.token_id),
                      )))))))))))

  pub open_dispute-IsKept :
      (s : Stamp) (k opened_by : ℕ) (reason : Text)
      → Keeps token T E B sound (open_dispute s k opened_by reason)
  unfolding open_dispute
  open_dispute-IsKept s k opened_by reason =
      let p : Trade → Bool = λ t. t.id == k && is_escrowed t.status in
      let g = set_status TradeStatus.disputed in
      let q : Escrow → Bool = λ e. e.trade_id == k && is_funded e.status in
      let h = dispute_escrow s.now in
      let pair : Together k E p g q h = record {
        p_id = λ t e. ground arith;
        g_id = λ t. refl;
        q_id = λ e me f. ground arith;
        h_id = λ e. refl;
        fits = λ t e. refl;
      } in
      Ensures-attempt _ (
        Ensures-bind _ _ _ (update_trade-At T E B p g _) (λ r. Ensures-fact _ (λ ut.
          Ensures-bind _ _ _ (update_escrow-At (update_where p g T) E B q h _) (λ u.
            Ensures-fact _ (λ ue.
              let (st, mv) = pair_moves token k T E B sound p g q h pair r u ut ue in
              let meets = ut.meets in
              after-Leaves (update_where p g T) (update_where q h E) B _ _ (insert_dispute-Leaves _)
                (λ _.
                  commits token _ (update_where p g T) (update_where q h E) B _
                    (pair-IsSound token k T E B sound p g q h pair r u ut ue) (ground arith)))))))

-- A row that `require_row` lets through is the one that was read, and meets the test.
require_row-Ensures :
    {A : Type 0} {P : Db → Type 0} (p : A → Bool) (x : Failure) (o : Option A)
    → Ensures P (require_row p (raise x) o) (λ a db. ((o ≡ some a) × (p a ≡ true)) × P db)
require_row-Ensures p x none = Ensures-raise x
require_row-Ensures p x (some a) =
    Ensures-if (p a) _ _ (λ e. Ensures-pure a (λ db h. ((refl, e), h))) (λ e. Ensures-raise x)

resolved_id : (r : Resolution) (now : ℕ) (t : Trade) → (resolved_trade r now t).id ≡ t.id
resolved_id Resolution.release now t = refl
resolved_id Resolution.refund now t = refl

resolved_lands :
    (token : ℕ) (r : Resolution) (now : ℕ) (t : Trade)
    → locked_by token (resolved_trade r now t) ≡ 0
resolved_lands token Resolution.release now t = ground arith
resolved_lands token Resolution.refund now t = ground arith

resolved_trade_id :
    (r : Resolution) (now : ℕ) (txid : Text) (c : Signatures) (m : Metadata) (e : Escrow)
    → (resolved_escrow r now txid c m e).trade_id ≡ e.trade_id
resolved_trade_id Resolution.release now txid c m e = refl
resolved_trade_id Resolution.refund now txid c m e = refl

resolved_fits :
    (r : Resolution) (now : ℕ) (txid : Text) (c : Signatures) (m : Metadata) (t : Trade)
    (e : Escrow)
    → (resolved_trade r now t).status ≡ trade_status (resolved_escrow r now txid c m e).status
resolved_fits Resolution.release now txid c m t e = refl
resolved_fits Resolution.refund now txid c m t e = refl

module _ (token : ℕ) (T : List Trade) (E : List Escrow) (B : List TokenBalance)
    (sound : IsSound T E B) where
  -- The writes of a resolution, from the trade row that was read.
  ending :
      (s : Stamp) (k by u : ℕ) (res : Resolution) (txid : Text) (c : Signatures) (m : Metadata)
      (y : Trade)
      → Member y T
      → y.id ≡ k
      → Ensures {A = Dispute × Trade × Escrow}
          (At T E (upsert_balance s.balance_id s.now u y.token_id y.quantity B))
          (do
            new_escrow ←
                update_escrow
                  (λ e. e.trade_id == k && is_disputed e.status)
                  (resolved_escrow res s.now txid c m)
                  escrow_update_failed
            new_trade ← update_trade (λ t. t.id == k) (resolved_trade res s.now) trade_update_failed
            record_fee_on_release res s new_trade
            dispute_row ←
                update_dispute
                  (λ d. d.trade_id == k && is_open_dispute d.status)
                  (close_dispute s.now by res)
            commit
            pure (dispute_row, new_trade, new_escrow))
          (λ _ db. IsKept token (supply_in token T B) db)
  ending s k by u res txid c m y found own =
      let p : Trade → Bool = λ t. t.id == k in
      let g = resolved_trade res s.now in
      let q : Escrow → Bool = λ e. e.trade_id == k && is_disputed e.status in
      let h = resolved_escrow res s.now txid c m in
      let B' = upsert_balance s.balance_id s.now u y.token_id y.quantity B in
      let pair : Together k E p g q h = record {
        p_id = λ t e. ground arith;
        g_id = λ t. resolved_id res s.now t;
        q_id = λ e me f. ground arith;
        h_id = λ e. resolved_trade_id res s.now txid c m e;
        fits = λ t e. resolved_fits res s.now txid c m t e;
      } in
      Ensures-bind _ _ _ (update_escrow-At T E B' q h _) (λ x. Ensures-fact _ (λ ue.
        Ensures-bind _ _ _ (update_trade-At T (update_where q h E) B' p g _) (λ r.
          Ensures-fact _ (λ ut.
            let (st, mv) = pair_moves token k T E B sound p g q h pair r x ut ue in
            let meets = ue.meets in
            let one : ut.old ≡ y =
              unique_row (λ t. t.id == k) T ut.old y (sound.keyed.trade_key k) ut.found found
                ut.meets ((==_iff y.id k).1 own) in
            let lands = resolved_lands token res s.now ut.old in
            after-Leaves (update_where p g T) (update_where q h E) B' _ _
              (record_fee_on_release-Leaves res s r)
              (λ _.
                after-Leaves (update_where p g T) (update_where q h E) B' _ _
                  (update_dispute-Leaves _ _)
                  (λ d.
                    commits token _ (update_where p g T) (update_where q h E) B' _
                      (credit-IsSound token (update_where p g T) (update_where q h E) B s.balance_id
                        s.now u y.token_id y.quantity
                        (pair-IsSound token k T E B sound p g q h pair r x ut ue))
                      (grind (
                        arith,
                        rw one at mv,
                        rw one at st,
                        rw one at lands,
                        held-increment token s.now u y.token_id y.quantity B s.balance_id
                            (sound.keyed.balance_key u y.token_id),
                      ))))))))

  pub resolve_dispute-IsKept :
      (s : Stamp) (k by : ℕ) (res : Resolution) (txid : Text) (c : Signatures) (m : Metadata)
      → Keeps token T E B sound (resolve_dispute s k by res txid c m)
  unfolding resolve_dispute get_trade_by_id get_escrow_by_trade_id get_order_by_id
  resolve_dispute-IsKept s k by res txid c m = Ensures-attempt _ (
      Ensures-bind _ _ (λ o db. (o ≡ fetch_one (select_where (λ t. t.id == k) T)) × At T E B db)
        (Ensures-query _ (λ db h. (rw h.0 refl, h)))
        (λ o. Ensures-fact _ (λ read. Ensures-bind _ _ _ (require_row-Ensures _ _ o) (λ y.
          Ensures-fact _ (λ was. after-Leaves T E B _ _ (Moves-query _) (λ found_escrow.
            Ensures-bind _ _ _ (require_row-Ensures _ _ found_escrow) (λ x. Ensures-fact _ (λ _.
              after-Leaves T E B _ _ (Moves-query _) (λ found_buy.
                after-Leaves T E B _ _ (Moves-query _) (λ found_sell.
                  after-Leaves T E B _ _ (Moves-or_raise found_buy _) (λ b.
                    after-Leaves T E B _ _ (Moves-or_raise found_sell _) (λ o2.
                      Ensures-bind _ _ _
                        (increment_token_balance-At T E B s.balance_id s.now (beneficiary res b o2)
                          y.token_id y.quantity)
                        (λ _.
                          ending s k by (beneficiary res b o2) res txid c _ y
                            (fetch_one-select_where _ T y (sym read ∙ was.0)).1
                            ((==_iff y.id k).0
                              (fetch_one-select_where (λ t. t.id == k) T y
                                (sym read ∙ was.0)).0))))))))))))))
