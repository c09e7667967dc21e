-- ===== src/Market/Integrity/Closing.antt =====
-- Funding, signing, releasing, expiring, disputing and resolving: the tables and the supply.
use Prim.Native.String.{String}
use tokenization.Common.{
  ℕ, ◌≡◌, refl, Bool, true, ◌&&◌, ◌||◌, List, arith, ◌==◌, if◌then◌else◌, Member,
}
use tokenization.Common.Table.{update_where}
use tokenization.Database.Model.{
  Text, TradeStatus, EscrowStatus, Order, Trade, Escrow, TokenBalance, Metadata, Signatures,
  SignatureRecord,
}
use tokenization.Database.Tx.{Tx}
use tokenization.Database.Tx.Rules.{Ensures, Ensures-bind, Ensures-attempt}
use tokenization.Market.Trading.{Stamp}
use tokenization.Market.Escrows.{
  is_created, is_funded, is_inspection_pending, is_disputed, mark_funded, set_status,
  mark_escrow_funded, write_signature, record_escrow_signature, mark_released, mark_settled,
  process_escrow_signature, merge_settlement_metadata, updated_signature_payload,
}
use tokenization.Market.Integrity.{supply_in, IsSound, IsKept}
use tokenization.Market.Integrity.Rows.{held-increment}
use tokenization.Market.Integrity.Link.{relink_escrow, key-update_escrow}
use tokenization.Market.Integrity.Pair.{Together, pair-IsSound, pair_moves, credit-IsSound}
use tokenization.Market.Integrity.Matching.{after-Leaves, commits}
use tokenization.Market.Integrity.Leaves.{At, record_trade_fee_income-Leaves}
use tokenization.Market.Integrity.Steps.{
  Ensures-fact, increment_token_balance-At, update_trade-At, update_escrow-At,
}

module _ (token : ℕ) (T : List Trade) (E : List Escrow) (B : List TokenBalance)
    (sound : IsSound T E B) where
  abbrev pub Keeps : {A : Type 0} → Tx A → Type 0
  Keeps m = Ensures (At T E B) m (λ _ db. IsKept token (supply_in token T B) db)

  pub mark_escrow_funded-IsKept :
      (now k : ℕ) (txid : Text) (m : Metadata) → Keeps (mark_escrow_funded now k txid m)
  unfolding mark_escrow_funded
  mark_escrow_funded-IsKept now k txid m =
      let p : Trade → Bool = λ t. t.id == k in
      let g = set_status TradeStatus.escrowed in
      let q : Escrow → Bool = λ e. e.trade_id == k && is_created e.status in
      let h = mark_funded now txid m in
      let pair : Together k E p g q h = record {
        p_id = λ t e. ground arith;
        g_id = λ t. refl;
        q_id = λ e me f. ground arith;
        h_id = λ e. refl;
        fits = λ t e. refl;
      } in
      Ensures-attempt _ (
        Ensures-bind _ _ _ (update_escrow-At T E B q h _) (λ s. Ensures-fact _ (λ ue.
          Ensures-bind _ _ _ (update_trade-At T (update_where q h E) B p g _) (λ r.
            Ensures-fact _ (λ ut.
              let (st, mv) = pair_moves token k T E B sound p g q h pair r s ut ue in
              let meets = ue.meets in
              commits token _ (update_where p g T) (update_where q h E) B _
                (pair-IsSound token k T E B sound p g q h pair r s ut ue) (ground arith))))))

  pub record_escrow_signature-IsKept :
      (now : ℕ) (x : Escrow) (role path : String) (r : SignatureRecord) (m : Metadata)
      → (is_funded x.status || is_inspection_pending x.status) ≡ true
      → Keeps (record_escrow_signature now x role path r m)
  unfolding record_escrow_signature
  record_escrow_signature-IsKept now x role path r m signable =
      let q : Escrow → Bool =
        λ e. e.id == x.id && (is_funded e.status || is_inspection_pending e.status) in
      let h =
        write_signature now (updated_signature_payload x.collected_signatures path role r)
          (merge_settlement_metadata x.settlement_metadata m)
          (if is_funded x.status then EscrowStatus.inspection_pending else x.status) in
      Ensures-attempt _ (
        Ensures-bind _ _ _ (update_escrow-At T E B q h _) (λ s. Ensures-fact _ (λ ue.
          commits token _ T (update_where q h E) B _
            (record {
              keyed = key-update_escrow T E B sound.keyed q h (λ e. refl);
              linked = relink_escrow T E q h (λ e. refl) (λ e f. ground arith) sound.linked;
            })
            refl)))

  pub process_escrow_signature-IsKept :
      (s : Stamp) (x : Escrow) (y : Trade) (b o : Order) (c : Signatures) (txid : Text)
      (m : Metadata)
      → ((e : Escrow) → Member e E → e.id ≡ x.id → e.trade_id ≡ y.id)
      → Keeps (process_escrow_signature s x y b o c txid m)
  unfolding process_escrow_signature
  process_escrow_signature-IsKept s x y b o c txid m own =
      let p : Trade → Bool = λ t. t.id == y.id in
      let g = mark_settled s.now in
      let q : Escrow → Bool =
        λ e. e.id == x.id && (is_inspection_pending e.status || is_disputed e.status) in
      let h = mark_released s.now c (merge_settlement_metadata x.settlement_metadata m) txid in
      let pair : Together y.id E p g q h = record {
        p_id = λ t e. ground arith;
        g_id = λ t. refl;
        q_id = λ e me f. own e me (ground arith);
        h_id = λ e. refl;
        fits = λ t e. refl;
      } in
      Ensures-attempt _ (
        Ensures-bind _ _ _ (update_escrow-At T E B q h _) (λ u. Ensures-fact _ (λ ue.
          Ensures-bind _ _ _ (update_trade-At T (update_where q h E) B p g _) (λ r.
            Ensures-fact _ (λ ut.
              let (st, mv) = pair_moves token y.id T E B sound p g q h pair r u ut ue in
              let meets = ue.meets in
              let ret = ut.returned in
              Ensures-bind _ _ _
                (increment_token_balance-At (update_where p g T) (update_where q h E) B s.balance_id
                  s.now b.user_id r.token_id r.quantity)
                (λ _.
                  after-Leaves (update_where p g T) (update_where q h E) _ _ _
                    (record_trade_fee_income-Leaves s.entry_id s.now r)
                    (λ _.
                      commits token _ (update_where p g T) (update_where q h E) _ _
                        (credit-IsSound token (update_where p g T) (update_where q h E) B
                          s.balance_id s.now b.user_id r.token_id r.quantity
                          (pair-IsSound token y.id T E B sound p g q h pair r u ut ue))
                        (grind (
                          arith,
                          held-increment token s.now b.user_id r.token_id r.quantity B s.balance_id
                              (sound.keyed.balance_key b.user_id r.token_id),
                        )))))))))
