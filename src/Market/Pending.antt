-- ===== src/Market/Pending.antt =====
-- The statements inside the transactions of the marketplace, and what they leave uncommitted.
use tokenization.Common.{ℕ, Bool, Option, none, some}
use tokenization.Database.Model.{
  Resolution, Order, Trade, Escrow, Dispute, Wallet, EntryType, TreasuryEntry,
}
use tokenization.Database.Tx.{Failure, LookupError, raise}
use tokenization.Database.Tx.Atomic.{Pending, pending_rules}
use tokenization.Market.Orders.{get_order_by_id, get_trade_by_id}
use tokenization.Market.Balances.{
  debit_wallet_balance, credit_wallet_balance, decrement_token_balance, increment_token_balance,
  apply_order_fill, revert_order_fill, get_wallet_by_user_id,
}
use tokenization.Market.Treasury.{
  create_treasury_entry, or_create, signed_amount, record_trade_fee_income,
}
use tokenization.Market.Trading.{Stamp, insert_trade, insert_escrow}
use tokenization.Market.Escrows.{get_escrow_by_trade_id, update_escrow, update_trade}
use tokenization.Market.Disputes.{
  update_dispute, insert_dispute, require_row, record_fee_on_release,
}

pub decrement_token_balance-Pending : (now u t q : ℕ) → Pending (decrement_token_balance now u t q)
unfolding decrement_token_balance
decrement_token_balance-Pending now u t q = search pending_rules

pub increment_token_balance-Pending :
    (i now u t q : ℕ) → Pending (increment_token_balance i now u t q)
unfolding increment_token_balance
increment_token_balance-Pending i now u t q = search pending_rules

pub apply_order_fill-Pending : (now : ℕ) (o : Order) (q : ℕ) → Pending (apply_order_fill now o q)
unfolding apply_order_fill
apply_order_fill-Pending now o q = search pending_rules

pub revert_order_fill-Pending : (now : ℕ) (o : Order) (q : ℕ) → Pending (revert_order_fill now o q)
unfolding revert_order_fill
revert_order_fill-Pending now o q = search pending_rules

pub debit_wallet_balance-Pending :
    (now : ℕ) (w : Wallet) (x : ℕ) → Pending (debit_wallet_balance now w x)
unfolding debit_wallet_balance
debit_wallet_balance-Pending now w x = search pending_rules

pub credit_wallet_balance-Pending :
    (now : ℕ) (w : Wallet) (x : ℕ) → Pending (credit_wallet_balance now w x)
unfolding credit_wallet_balance
credit_wallet_balance-Pending now w x = search pending_rules

pub signed_amount-Pending : (e : EntryType) (x : ℕ) → Pending (signed_amount e x)
signed_amount-Pending EntryType.fee_income x = search pending_rules
signed_amount-Pending EntryType.disbursement x = search pending_rules
signed_amount-Pending EntryType.adjustment x = search pending_rules
signed_amount-Pending EntryType.referral_reward x = search pending_rules

pub create_treasury_entry-Pending :
    (i now : ℕ) (e : EntryType) (x : ℕ) (t c : Option ℕ)
    → Pending (create_treasury_entry i now e x t c)
unfolding create_treasury_entry
create_treasury_entry-Pending i now e x t c = search (pending_rules, signed_amount-Pending)

pub or_create-Pending :
    (i now : ℕ) (t : Trade) (e : Option TreasuryEntry) → Pending (or_create i now t e)
or_create-Pending i now t none = search (pending_rules, create_treasury_entry-Pending)
or_create-Pending i now t (some e) = search pending_rules

pub record_trade_fee_income-Pending :
    (i now : ℕ) (t : Trade) → Pending (record_trade_fee_income i now t)
unfolding record_trade_fee_income
record_trade_fee_income-Pending i now t = search (pending_rules, or_create-Pending)

pub insert_trade-Pending : (t : Trade) → Pending (insert_trade t)
unfolding insert_trade
insert_trade-Pending t = search pending_rules

pub insert_escrow-Pending : (e : Escrow) → Pending (insert_escrow e)
unfolding insert_escrow
insert_escrow-Pending e = search pending_rules

pub get_wallet_by_user_id-Pending : (u : ℕ) → Pending (get_wallet_by_user_id u)
unfolding get_wallet_by_user_id
get_wallet_by_user_id-Pending u = search pending_rules

pub update_escrow-Pending :
    (p : Escrow → Bool) (g : Escrow → Escrow) (x : LookupError) → Pending (update_escrow p g x)
unfolding update_escrow
update_escrow-Pending p g x = search pending_rules

pub update_trade-Pending :
    (p : Trade → Bool) (g : Trade → Trade) (x : LookupError) → Pending (update_trade p g x)
unfolding update_trade
update_trade-Pending p g x = search pending_rules

pub update_dispute-Pending :
    (p : Dispute → Bool) (g : Dispute → Dispute) → Pending (update_dispute p g)
unfolding update_dispute
update_dispute-Pending p g = search pending_rules

pub insert_dispute-Pending : (d : Dispute) → Pending (insert_dispute d)
unfolding insert_dispute
insert_dispute-Pending d = search pending_rules

pub require_row-Pending :
    {A : Type 0} (p : A → Bool) (e : Failure) (o : Option A) → Pending (require_row p (raise e) o)
require_row-Pending p e none = search pending_rules
require_row-Pending p e (some a) = search pending_rules

pub record_fee_on_release-Pending :
    (r : Resolution) (s : Stamp) (t : Trade) → Pending (record_fee_on_release r s t)
record_fee_on_release-Pending Resolution.release s t =
    search (pending_rules, record_trade_fee_income-Pending)
record_fee_on_release-Pending Resolution.refund s t = search pending_rules

pub get_trade_by_id-Pending : (k : ℕ) → Pending (get_trade_by_id k)
unfolding get_trade_by_id
get_trade_by_id-Pending k = search pending_rules

pub get_order_by_id-Pending : (k : ℕ) → Pending (get_order_by_id k)
unfolding get_order_by_id
get_order_by_id-Pending k = search pending_rules

pub get_escrow_by_trade_id-Pending : (k : ℕ) → Pending (get_escrow_by_trade_id k)
unfolding get_escrow_by_trade_id
get_escrow_by_trade_id-Pending k = search pending_rules

pub ruleset step_rules = (
  pending_rules, decrement_token_balance-Pending, increment_token_balance-Pending,
  apply_order_fill-Pending, revert_order_fill-Pending, debit_wallet_balance-Pending,
  credit_wallet_balance-Pending, record_trade_fee_income-Pending, insert_trade-Pending,
  insert_escrow-Pending, get_wallet_by_user_id-Pending, update_escrow-Pending, update_trade-Pending,
  update_dispute-Pending, insert_dispute-Pending, require_row-Pending,
  record_fee_on_release-Pending, get_trade_by_id-Pending, get_order_by_id-Pending,
  get_escrow_by_trade_id-Pending,
)
