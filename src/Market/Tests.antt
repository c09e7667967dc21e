-- ===== src/Market/Tests.antt =====
-- The marketplace's theorems at concrete rows.
use tokenization.Common.{
  ◌+◌, ◌≤◌, false, ◌-◌, ◌≡◌, refl, inl, inr, arith, true, false, Option, none, some, [], ◌∷◌, ◌==◌,
  Member, All,
}
use tokenization.Common.Table.{count_where, update_where, select_where}
use tokenization.Database.Model.{
  KycStatus, Side, OrderType, OrderStatus, Order, SignatureRecord, Escrow, EscrowStatus, Db,
  is_open_status,
}
use tokenization.Database.Tx.{
  Result, ok, err, ◌>>=◌, raise_if, or_raise, attempt, modify, query, pure, commit,
}
use tokenization.Market.Balances.{
  write_fill, apply_order_fill, revert_order_fill, debited, debit_wallet_balance,
}
use tokenization.Market.Balances.Fills.{
  IsFit, apply_order_fill-IsFit, revert_order_fill-IsFit, revert_order_fill-reopens,
  revert_order_fill-apply_order_fill,
}
use tokenization.Market.Balances.Debits.{debit_wallet_balance-exact}
use tokenization.Market.Book.{find_best_match, activate_triggered_orders}
use tokenization.Market.Book.Priority.{IsBestMatch, find_best_match-IsBestMatch}
use tokenization.Market.Book.Triggers.{IsDue, IsActivated, activate_triggered_orders-IsActivated}
use tokenization.Market.Treasury.{record_trade_fee_income}
use tokenization.Market.Treasury.Once.{record_trade_fee_income_again}
use tokenization.Market.Escrows.{update_escrow, merge_settlement_metadata, record_escrow_signature}
use tokenization.Market.Escrows.Signed.{is_row, Records, record_escrow_signature-Records}
use tokenization.Market.Fixture.{
  at_most_one, escrow, bid, ask, trade, buyer_wallet, matched, opened,
}

find_best_match-IsBestMatch_example :
    (r : Option Order) × (find_best_match 7 Side.buy 160 10 (opened matched)
      ≡ (ok r, opened matched))
    × IsBestMatch 7 Side.buy 160 10 matched.orders r
find_best_match-IsBestMatch_example = find_best_match-IsBestMatch 7 Side.buy 160 10 (opened matched)

-- The buyer's verification was approved.
abbrev known : Db
known = record matched {
  kyc =
      record {
        user_id = 10;
        status = KycStatus.verified;
        reviewed_by = some 1;
        reviewed_at = some 90;
        created_at = 80;
        updated_at = 90;
      }
      ∷ [];
}

-- A stop order that sells the token below 140.
abbrev stop : Order
stop = record ask {
  id = 3;
  order_type = OrderType.stop_limit;
  trigger_price_sat = some 140;
  filled_quantity = 0;
  status = OrderStatus.open_order;
}

abbrev woken : Order
woken = record stop { triggered_at = some 1000; updated_at = 1000 }

activate_triggered_orders-IsActivated_example :
    IsActivated 1000 7 130 (stop ∷ []) woken × (IsDue 7 130 woken → ⊥)
unfolding activate_triggered_orders ◌>>=◌ modify query pure commit select_where update_where
activate_triggered_orders-IsActivated_example =
    activate_triggered_orders-IsActivated 1000 7 130
      (opened (record matched { orders = stop ∷ [] })) woken (inl refl)

matched-IsFit : All IsFit matched.orders
matched-IsFit = ((omega arith, omega arith), ((omega arith, omega arith), tt))

bid_read : (x : Order) → Member x matched.orders → x.id ≡ 1 → x.quantity ≡ 5
bid_read x m same = elim m [
  | inl e ↦ rw e refl
  | inr n ↦ elim n [ inl e ↦ absurd (ground (arith, rw e at same)) | inr n ↦ absurd n ]
]

apply_order_fill-IsFit_example :
    All IsFit (apply_order_fill 1000 bid 2 (opened matched)).1.current.orders
apply_order_fill-IsFit_example =
    apply_order_fill-IsFit 1000 bid 2 (opened matched) bid_read matched-IsFit

revert_order_fill-IsFit_example :
    All IsFit (revert_order_fill 1000 bid 3 (opened matched)).1.current.orders
revert_order_fill-IsFit_example =
    revert_order_fill-IsFit 1000 bid 3 (opened matched) bid_read (omega arith) (omega arith)
      matched-IsFit

-- The buyer has cancelled the rest of the order while its first trade waits for its funding.
abbrev dropped : Order
dropped = record bid { status = OrderStatus.cancelled }

revert_order_fill-reopens_example :
    is_open_status (write_fill 1000 0 OrderStatus.open_order dropped).status ≡ true
unfolding revert_order_fill ◌>>=◌ raise_if modify update_where
revert_order_fill-reopens_example =
    revert_order_fill-reopens 1000 dropped 3 (opened (record matched { orders = dropped ∷ [] }))
      (write_fill 1000 0 OrderStatus.open_order dropped) (omega arith) (omega arith) (omega arith)
      (inl refl) refl

abbrev refilled : Order
refilled = write_fill 1000 5 OrderStatus.filled bid

bid_once : count_where (λ x. x.id == 1) matched.orders ≤ 1
unfolding count_where
bid_once = omega arith

revert_order_fill-apply_order_fill_example :
    (revert_order_fill 1001 refilled 2
      (apply_order_fill 1000 bid 2 (opened matched)).1).1.current.orders
    ≡ update_where (λ x. x.id == 1) (λ x. record x { updated_at = 1001 }) matched.orders
unfolding apply_order_fill ◌>>=◌ raise_if modify update_where
revert_order_fill-apply_order_fill_example =
    revert_order_fill-apply_order_fill 1000 1001 bid 2 (opened matched) refilled bid_once (inl refl)
      (omega arith) (omega arith) refl (omega arith, omega arith) (inl refl) refl

debit_wallet_balance-exact_example :
    (0 + 750 + 450 ≡ 300 + 900) × (0 ≡ 300 - 450) × (750 + (450 - 300) ≡ 900)
unfolding debit_wallet_balance debited ◌>>=◌ raise_if modify update_where
debit_wallet_balance-exact_example =
    debit_wallet_balance-exact 1000 450 buyer_wallet
      (record buyer_wallet {
        onchain_balance_sat = 0;
        lightning_balance_sat = 750;
        updated_at = 1000;
      })
      (opened matched) refl (inl refl) refl

record_trade_fee_income_again_example :
    (record_trade_fee_income 95 1010 trade
      (record_trade_fee_income 94 1000 trade (opened matched)).1).1
    ≡ (record_trade_fee_income 94 1000 trade (opened matched)).1
record_trade_fee_income_again_example =
    record_trade_fee_income_again 94 95 1000 1010 trade (opened matched)

abbrev signature : SignatureRecord
signature = record { actor_id = some 10; signature = 1 ∷ []; source = []; signed_at = 1000 }

-- The escrow once the seller's funding has arrived.
abbrev paid_in : Escrow
paid_in = record escrow { status = EscrowStatus.funded }

abbrev to_sign : Db
to_sign = record matched { escrows = paid_in ∷ [] }

-- The seller's signature is recorded, and the escrow waits for the buyer.
abbrev signed_status : Result Escrow → Option EscrowStatus
signed_status (ok e) = some e.status
signed_status (err _) = none

seller_signs :
    signed_status
      (record_escrow_signature 1000 paid_in "seller" "release" signature [] (opened to_sign)).0
    ≡ some EscrowStatus.inspection_pending
unfolding record_escrow_signature update_escrow merge_settlement_metadata attempt ◌>>=◌ query
    or_raise modify commit pure select_where update_where
seller_signs = refl

record_escrow_signature-Records_example :
    Records 1000 paid_in "seller" "release" signature [] to_sign
      (record_escrow_signature 1000 paid_in "seller" "release" signature [] (opened to_sign))
record_escrow_signature-Records_example =
    record_escrow_signature-Records 1000 paid_in "seller" "release" signature [] to_sign
      (at_most_one (is_row paid_in) paid_in)
