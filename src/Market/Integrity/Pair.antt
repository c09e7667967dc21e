-- ===== src/Market/Integrity/Pair.antt =====
-- An escrow and its trade that one operation updates together.
use tokenization.Common.{ℕ, ◌+◌, ◌≡◌, Bool, true, List, ==_iff, Member}
use tokenization.Common.Table.{update_where, sum_by, Updated}
use tokenization.Database.Model.{Trade, Escrow, TokenBalance}
use tokenization.Market.Balances.{upsert_balance}
use tokenization.Market.Integrity.{locked_by, trade_status, IsSound}
use tokenization.Market.Integrity.Rows.{key-increment}
use tokenization.Market.Integrity.Link.{relink, locked-update, key-update_trade, key-update_escrow}
use tokenization.Market.Integrity.Matching.{key-balances}

-- Both updates are of the trade `k`, keep its number, and write statuses that go together.
pub record Together (k : ℕ) (E : List Escrow) (p : Trade → Bool) (g : Trade → Trade)
    (q : Escrow → Bool) (h : Escrow → Escrow) : Type 0 where
  pub p_id : (t : Trade) → p t ≡ true → t.id ≡ k
  pub g_id : (t : Trade) → (g t).id ≡ t.id
  pub q_id : (e : Escrow) → Member e E → q e ≡ true → e.trade_id ≡ k
  pub h_id : (e : Escrow) → (h e).trade_id ≡ e.trade_id
  pub fits : (t : Trade) (e : Escrow) → (g t).status ≡ trade_status (h e).status

module _ (token k : ℕ) (T : List Trade) (E : List Escrow) (B : List TokenBalance)
    (sound : IsSound T E B) (p : Trade → Bool) (g : Trade → Trade) (q : Escrow → Bool)
    (h : Escrow → Escrow) (m : Together k E p g q h) (r : Trade) (s : Escrow) (ut : Updated p g T r)
    (ue : Updated q h E s) where
  pub pair-IsSound : IsSound (update_where p g T) (update_where q h E) B
  pair-IsSound = record {
    keyed =
        key-update_escrow (update_where p g T) E B (key-update_trade T E B sound.keyed p g m.g_id) q
          h m.h_id;
    linked =
        relink k T E p g q h m.p_id m.g_id m.q_id m.h_id m.fits r s (sound.keyed.trade_key k)
          (sound.keyed.escrow_key k) sound.linked ut ue;
  }

  -- The trade's status before the update, by its escrow's, and the change of the locked tokens.
  pub pair_moves :
      (ut.old.status ≡ trade_status ue.old.status)
      × (sum_by (locked_by token) (update_where p g T) + locked_by token ut.old
          ≡ sum_by (locked_by token) T + locked_by token (g ut.old))
  pair_moves = (
    sound.linked ue.old ue.found ut.old ut.found
        (cc (m.p_id ut.old ut.meets, m.q_id ue.old ue.found ue.meets)),
    locked-update token k T p g r (λ t e. (==_iff t.id k).1 (m.p_id t e)) (sound.keyed.trade_key k)
        ut,
  )

-- A credit to a user keeps the tables sound.
pub credit-IsSound :
    (token : ℕ) (T : List Trade) (E : List Escrow) (B : List TokenBalance) (i now u k quantity : ℕ)
    → IsSound T E B
    → IsSound T E (upsert_balance i now u k quantity B)
credit-IsSound token T E B i now u k quantity sound = record {
  keyed =
      key-balances T E B (upsert_balance i now u k quantity B) sound.keyed
        (λ v j. key-increment token now u k quantity B i v j (sound.keyed.balance_key v j));
  linked = sound.linked;
}
