-- ===== src/Market/Integrity/Tests.antt =====
-- The invariant at a matched trade: its escrow expires, and a second attempt to expire it raises.
use tokenization.Common.{refl, inl, inr, arith}
use tokenization.Common.Table.{count_where}
use tokenization.Market.Fixture.{
  at_most_one, stamp, bid, ask, trade, escrow, seller_tokens, matched, opened,
}
use tokenization.Market.Balances.{is_balance_of}
use tokenization.Market.Operation.{Operation, perform}
use tokenization.Market.Atomicity.{perform-AllOrNothing}
use tokenization.Database.Tx.Atomic.{AllOrNothing}
use tokenization.Market.Integrity.{has_trade_id, is_escrow_of, IsSound}
use tokenization.Market.Integrity.Preserved.{
  Fits, IsSettled, SameSupply, perform-IsSettled, Reaches, Reaches-IsSettled,
}

matched-IsSound : IsSound matched.trades matched.escrows matched.balances
unfolding count_where
matched-IsSound = record {
  keyed = record {
    balance_key = λ u k. at_most_one (is_balance_of u k) seller_tokens;
    trade_key = λ k. at_most_one (has_trade_id k) trade;
    escrow_key = λ k. at_most_one (is_escrow_of k) escrow;
    escrow_trade = λ e m. elim m [ inl h ↦ rw h (omega arith) | inr h ↦ absurd h ];
  };
  linked = λ e m t n ids. elim m [
    | inl h ↦ elim n [ inl i ↦ rw (h, i) refl | inr i ↦ absurd i ]
    | inr h ↦ absurd h
  ];
}

pub matched-IsSettled : IsSettled (opened matched)
matched-IsSettled = record { clean = refl; sound = matched-IsSound }

abbrev expiry : Operation
expiry = Operation.expires stamp trade escrow bid ask

expiry-Fits : Fits expiry matched
expiry-Fits = (
  λ e m h. elim m [ inl i ↦ rw i refl | inr i ↦ absurd i ],
  λ t m h. elim m [ inl i ↦ rw i (refl, refl) | inr i ↦ absurd i ],
)

perform-AllOrNothing_example :
    AllOrNothing
      (opened matched)
      (perform expiry (opened matched)).0
      (perform expiry (opened matched)).1
perform-AllOrNothing_example = perform-AllOrNothing expiry (opened matched) refl

perform-IsSettled_example :
    IsSettled (perform expiry (opened matched)).1
    × SameSupply (opened matched) (perform expiry (opened matched)).1
perform-IsSettled_example = perform-IsSettled expiry (opened matched) matched-IsSettled expiry-Fits

Reaches-IsSettled_example :
    IsSettled (perform expiry (opened matched)).1
    × SameSupply (opened matched) (perform expiry (opened matched)).1
Reaches-IsSettled_example =
    Reaches-IsSettled (opened matched) _ matched-IsSettled
      (Reaches.next Reaches.start expiry expiry-Fits)
