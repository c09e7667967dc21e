-- ===== src/Market/Integrity/Leaves.antt =====
-- The statements and procedures of marketplace/db.py that leave trades, escrows and balances alone.
use tokenization.Common.{◌∙◌, ℕ, ◌≡◌, refl, Bool, Option, none, some, List}
use tokenization.Database.Model.{
  Resolution, EntryType, Order, Trade, Escrow, Dispute, TokenBalance, TreasuryEntry, Wallet, Db,
}
use tokenization.Database.Tx.{Result, ok, err, Conn, Tx, modify, commit}
use tokenization.Database.Tx.Moves.{Moves, IsPreorder, move_rules}
use tokenization.Database.Tx.Rules.{Returned, Ensures}
use tokenization.Market.Balances.{
  apply_order_fill, revert_order_fill, debit_wallet_balance, credit_wallet_balance,
}
use tokenization.Market.Treasury.{
  create_treasury_entry, or_create, signed_amount, record_trade_fee_income,
}
use tokenization.Market.Trading.{Stamp}
use tokenization.Market.Disputes.{update_dispute, insert_dispute, record_fee_on_release}

-- The trades, escrows and balances that the open transaction sees.
abbrev pub At : List Trade → List Escrow → List TokenBalance → Db → Type 0
At T E B db = (db.trades ≡ T) × (db.escrows ≡ E) × (db.balances ≡ B)

-- The operation leaves the three tables alone.
abbrev pub SameTables : Conn → Conn → Type 0
SameTables c d = At c.current.trades c.current.escrows c.current.balances d.current

instance abbrev pub same_tables : IsPreorder SameTables
same_tables = record {
  stay = λ c. (refl, refl, refl);
  join = λ c d e p q. (q.0 ∙ p.0, q.1 ∙ p.1, q.2 ∙ p.2);
}

abbrev pub Leaves : {A : Type 0} → Tx A → Type 0
Leaves m = Moves SameTables m

left_alone :
    {A : Type 0} (T : List Trade) (E : List Escrow) (B : List TokenBalance) (r : Result A)
    (d : Conn)
    → At T E B d.current
    → Returned (λ _ db. At T E B db) r d
left_alone T E B (ok a) d h = h
left_alone T E B (err e) d h = tt

pub Ensures-Leaves :
    {A : Type 0} (T : List Trade) (E : List Escrow) (B : List TokenBalance) (m : Tx A)
    → Leaves m
    → Ensures (At T E B) m (λ _ db. At T E B db)
Ensures-Leaves T E B m l = record {
  at = λ c h.
      left_alone T E B (m c).0 (m c).1 ((l.at c).0 ∙ h.0, (l.at c).1 ∙ h.1, (l.at c).2 ∙ h.2);
}

pub Leaves-commit : Leaves commit
unfolding commit
Leaves-commit = record { at = λ c. (refl, refl, refl) }

-- A write to another table.
pub Leaves-modify :
    (f : Db → Db)
    → ((db : Db) → (f db).trades ≡ db.trades)
    → ((db : Db) → (f db).escrows ≡ db.escrows)
    → ((db : Db) → (f db).balances ≡ db.balances)
    → Leaves (modify f)
unfolding modify
Leaves-modify f ht he hb = record { at = λ c. (ht c.current, he c.current, hb c.current) }

pub ruleset leave_rules = (move_rules, same_tables, Leaves-commit, Leaves-modify)

pub apply_order_fill-Leaves : (now : ℕ) (o : Order) (q : ℕ) → Leaves (apply_order_fill now o q)
unfolding apply_order_fill
apply_order_fill-Leaves now o q = search leave_rules depth 40

pub revert_order_fill-Leaves : (now : ℕ) (o : Order) (q : ℕ) → Leaves (revert_order_fill now o q)
unfolding revert_order_fill
revert_order_fill-Leaves now o q = search leave_rules depth 40

pub debit_wallet_balance-Leaves :
    (now : ℕ) (w : Wallet) (x : ℕ) → Leaves (debit_wallet_balance now w x)
unfolding debit_wallet_balance
debit_wallet_balance-Leaves now w x = search leave_rules depth 40

pub credit_wallet_balance-Leaves :
    (now : ℕ) (w : Wallet) (x : ℕ) → Leaves (credit_wallet_balance now w x)
unfolding credit_wallet_balance
credit_wallet_balance-Leaves now w x = search leave_rules depth 40

signed_amount-Leaves : (e : EntryType) (x : ℕ) → Leaves (signed_amount e x)
signed_amount-Leaves EntryType.fee_income x = search leave_rules depth 40
signed_amount-Leaves EntryType.disbursement x = search leave_rules depth 40
signed_amount-Leaves EntryType.adjustment x = search leave_rules depth 40
signed_amount-Leaves EntryType.referral_reward x = search leave_rules depth 40

create_treasury_entry-Leaves :
    (i now : ℕ) (e : EntryType) (x : ℕ) (t c : Option ℕ)
    → Leaves (create_treasury_entry i now e x t c)
unfolding create_treasury_entry
create_treasury_entry-Leaves i now e x t c = search (leave_rules, signed_amount-Leaves) depth 40

or_create-Leaves : (i now : ℕ) (t : Trade) (e : Option TreasuryEntry) → Leaves (or_create i now t e)
or_create-Leaves i now t none = search (leave_rules, create_treasury_entry-Leaves) depth 40
or_create-Leaves i now t (some e) = search leave_rules depth 40

pub record_trade_fee_income-Leaves :
    (i now : ℕ) (t : Trade) → Leaves (record_trade_fee_income i now t)
unfolding record_trade_fee_income
record_trade_fee_income-Leaves i now t = search (leave_rules, or_create-Leaves) depth 40

pub record_fee_on_release-Leaves :
    (r : Resolution) (s : Stamp) (t : Trade) → Leaves (record_fee_on_release r s t)
record_fee_on_release-Leaves Resolution.release s t =
    search (leave_rules, record_trade_fee_income-Leaves) depth 40
record_fee_on_release-Leaves Resolution.refund s t = search leave_rules depth 40

pub insert_dispute-Leaves : (d : Dispute) → Leaves (insert_dispute d)
unfolding insert_dispute
insert_dispute-Leaves d = search leave_rules depth 40

pub update_dispute-Leaves :
    (p : Dispute → Bool) (g : Dispute → Dispute) → Leaves (update_dispute p g)
unfolding update_dispute
update_dispute-Leaves p g = search leave_rules depth 40
