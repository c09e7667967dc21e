-- ===== src/Market/Treasury.antt =====
-- The treasury's running balance (services/marketplace/db.py).
pub mod Once
use tokenization.Common.{
  ℕ, Bool, true, false, ◌&&◌, ◌||◌, Option, none, some, List, [], ◌∷◌, ◌++◌, ltb, ◌==◌,
  if◌then◌else◌, get_or,
}
use tokenization.Common.Int.{ℤ, pos, ◌+ℤ◌, ◌-ℤ◌}
use tokenization.Common.Table.{select_where, fetch_one}
use tokenization.Common.Sort.{order_by}
use tokenization.Database.Model.{EntryType, Trade, TreasuryEntry, Db}
use tokenization.Database.Tx.{
  Result, ok, err, Tx, ◌>>=◌, ◌>>◌, pure, query, raise, raise_if, modify, value_error,
  treasury_amount_must_be_positive, invalid_treasury_entry_type, Unit₀,
}

-- ORDER BY created_at DESC, id DESC
abbrev pub newer_entry : TreasuryEntry → TreasuryEntry → Bool
newer_entry a b = ltb b.created_at a.created_at || (a.created_at == b.created_at && ltb b.id a.id)

unfoldable pub get_latest_treasury_entry : Tx (Option TreasuryEntry)
get_latest_treasury_entry = query (λ db. fetch_one (order_by newer_entry db.treasury))

-- The amount with the sign of the entry; a type that the function does not know is refused.
abbrev pub signed_amount : EntryType → ℕ → Tx ℤ
signed_amount EntryType.fee_income amount_sat = pure (pos amount_sat)
signed_amount EntryType.disbursement amount_sat = pure (pos 0 -ℤ pos amount_sat)
signed_amount EntryType.adjustment amount_sat = pure (pos amount_sat)
signed_amount EntryType.referral_reward amount_sat = raise (value_error invalid_treasury_entry_type)

unfoldable pub treasury_balance_delta : EntryType → ℕ → Tx ℤ
treasury_balance_delta entry_type amount_sat = do
  raise_if (amount_sat == 0) (value_error treasury_amount_must_be_positive)
  signed_amount entry_type amount_sat

abbrev pub balance_after : Option TreasuryEntry → ℤ
balance_after none = pos 0
balance_after (some e) = e.balance_after_sat

unfoldable pub create_treasury_entry :
    ℕ → ℕ → EntryType → ℕ → Option ℕ → Option ℕ → Tx TreasuryEntry
unfolding get_latest_treasury_entry treasury_balance_delta
create_treasury_entry entry_id now entry_type amount_sat source_trade_id created_at = do
  latest_entry ← get_latest_treasury_entry
  delta ← treasury_balance_delta entry_type amount_sat
  let row : TreasuryEntry = record {
    id = entry_id;
    source_trade_id = source_trade_id;
    source_referral_reward_id = none;
    entry_type = entry_type;
    amount_sat = amount_sat;
    balance_after_sat = balance_after latest_entry +ℤ delta;
    created_at = get_or created_at now;
  }
  modify (λ db. record db { treasury = db.treasury ++ row ∷ [] })
  pure row

abbrev pub is_fee_income : EntryType → Bool
is_fee_income EntryType.fee_income = true
is_fee_income EntryType.disbursement = false
is_fee_income EntryType.adjustment = false
is_fee_income EntryType.referral_reward = false

abbrev pub is_id : Option ℕ → ℕ → Bool
is_id none k = false
is_id (some j) k = j == k

-- A fee entry of the trade.
abbrev pub is_fee_of : ℕ → TreasuryEntry → Bool
is_fee_of trade_id e = is_fee_income e.entry_type && is_id e.source_trade_id trade_id

abbrev pub or_create : ℕ → ℕ → Trade → Option TreasuryEntry → Tx (Option TreasuryEntry)
or_create entry_id now trade_row (some existing_entry) = pure (some existing_entry)
or_create entry_id now trade_row none = do
  entry ←
      create_treasury_entry entry_id now EntryType.fee_income trade_row.fee_sat (some trade_row.id)
        trade_row.settled_at
  pure (some entry)

abbrev find_or_create : ℕ → ℕ → Trade → Tx (Option TreasuryEntry)
find_or_create entry_id now trade_row = do
  existing_entry ← query (λ db. fetch_one (select_where (is_fee_of trade_row.id) db.treasury))
  or_create entry_id now trade_row existing_entry

unfoldable pub record_trade_fee_income : ℕ → ℕ → Trade → Tx (Option TreasuryEntry)
unfolding create_treasury_entry
record_trade_fee_income entry_id now trade_row =
    if trade_row.fee_sat == 0 then pure none else find_or_create entry_id now trade_row
