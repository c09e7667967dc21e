-- ===== src/Market/Treasury/Once.antt =====
-- Recording a trade's fee again.
use tokenization.Common.{
  ℕ, get_or, ◌≡◌, refl, inl, inr, Bool, true, none, some, List, [], ◌∷◌, ◌++◌, arith, ◌==◌,
  Bool-cases, Option-cases, ==_refl,
}
use tokenization.Common.Table.{
  select_where, fetch_one, count_where, count_where-append, count_of_fetch_none,
}
use tokenization.Common.Sort.{order_by}
use tokenization.Common.Int.{pos, ◌+ℤ◌}
use tokenization.Database.Model.{EntryType, Trade, TreasuryEntry}
use tokenization.Database.Tx.{Conn, ◌>>=◌, pure, query, raise_if, modify}
use tokenization.Market.Treasury.{
  newer_entry, balance_after, get_latest_treasury_entry, treasury_balance_delta,
  create_treasury_entry, is_fee_of, or_create, record_trade_fee_income,
}

-- A row that meets the test is found after it is appended.
found_after :
    {A : Type 0} (p : A → Bool) (rows : List A) (r : A)
    → p r ≡ true
    → (a : A) × (fetch_one (select_where p (rows ++ r ∷ [])) ≡ some a)
unfolding count_where
found_after p rows r e = elim (Option-cases (fetch_one (select_where p (rows ++ r ∷ [])))) [
  | inl none_found ↦
      let z = count_of_fetch_none p (rows ++ r ∷ []) none_found in
      let n = count_where-append p rows (r ∷ []) in absurd (grind arith)
  | inr found ↦ found
]

-- Recording the fee of a trade a second time, at whatever time, changes nothing.
pub record_trade_fee_income_again :
    (i j now later : ℕ) (t : Trade) (c : Conn)
    → (record_trade_fee_income j later t (record_trade_fee_income i now t c).1).1
      ≡ (record_trade_fee_income i now t c).1
unfolding record_trade_fee_income create_treasury_entry get_latest_treasury_entry
    treasury_balance_delta ◌>>=◌ query pure modify raise_if
record_trade_fee_income_again i j now later t c = elim (Bool-cases (t.fee_sat == 0)) [
  | inl free ↦ rw free refl
  | inr fee ↦ elim (Option-cases (fetch_one (select_where (is_fee_of t.id) c.current.treasury))) [
    | inl first ↦
        let row : TreasuryEntry = record {
          id = i;
          source_trade_id = some t.id;
          source_referral_reward_id = none;
          entry_type = EntryType.fee_income;
          amount_sat = t.fee_sat;
          balance_after_sat =
              balance_after (fetch_one (order_by newer_entry c.current.treasury)) +ℤ pos t.fee_sat;
          created_at = get_or t.settled_at now;
        } in
        let (e, again) =
          found_after (is_fee_of t.id) c.current.treasury row (rw (==_refl t.id) refl) in
        rw (fee, first, or_create, fee, again) refl
    | inr (e, again) ↦ rw (fee, again, again) refl
  ]
]
