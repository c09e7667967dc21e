-- ===== src/Wallet/Books.antt =====
-- The books of the wallet service: each wallet's on-chain balance, its credited deposits, and its
-- deposits in the history.
pub mod Steps
pub mod Deposits
pub mod Outputs
use tokenization.Common.{ℕ, ◌+◌, ◌≤◌, ◌≡◌, Bool, ◌&&◌, ◌==◌, if◌then◌else◌, Member}
use tokenization.Common.Table.{sum_by, count_where}
use tokenization.Database.Rows.{Text, TransactionType, Transaction, WalletAddress, Deposit}
use tokenization.Database.Model.{Wallet, Db}
use tokenization.Wallet.Ledger.{is_wallet}
use tokenization.Wallet.Lightning.{confirmed_amount}
use tokenization.Wallet.Reconcile.{is_credited, is_output}

-- The on-chain balance of a wallet, the deposits credited to it, and its deposits as the history shows
-- them.
abbrev pub onchain_of : ℕ → Wallet → ℕ
onchain_of k w = if w.id == k then w.onchain_balance_sat else 0

abbrev pub credited_of : ℕ → Deposit → ℕ
credited_of k d = if d.wallet_id == k && is_credited d.status then d.amount_sat else 0

abbrev pub shown_of : ℕ → Transaction → ℕ
shown_of k t = if t.wallet_id == k then confirmed_amount TransactionType.deposit t else 0

abbrev pub onchain : ℕ → Db → ℕ
onchain k db = sum_by (onchain_of k) db.wallets

abbrev pub credited : ℕ → Db → ℕ
credited k db = sum_by (credited_of k) db.deposits

abbrev pub shown : ℕ → Db → ℕ
shown k db = sum_by (shown_of k) db.transactions

-- Balance and history of every wallet have grown by exactly what was credited; no wallet came or went.
pub record SameBooks (before after : Db) : Type 0 where
  pub balance : (k : ℕ) → onchain k after + credited k before ≡ onchain k before + credited k after
  pub history : (k : ℕ) → shown k after + credited k before ≡ shown k before + credited k after
  pub same_wallets :
      (k : ℕ) → count_where (is_wallet k) after.wallets ≡ count_where (is_wallet k) before.wallets

abbrev pub has_deposit_id : ℕ → Deposit → Bool
has_deposit_id i d = d.id == i

-- Unique keys, and the foreign keys of deposits and addresses.
pub record IsFiled (db : Db) : Type 0 where
  pub wallet_key : (k : ℕ) → count_where (is_wallet k) db.wallets ≤ 1
  pub deposit_key : (i : ℕ) → count_where (has_deposit_id i) db.deposits ≤ 1
  pub output_key : (t : Text) (v : ℕ) → count_where (is_output t v) db.deposits ≤ 1
  pub deposit_wallet :
      (d : Deposit) → Member d db.deposits → 1 ≤ count_where (is_wallet d.wallet_id) db.wallets
  pub address_wallet :
      (a : WalletAddress)
      → Member a db.addresses
      → 1 ≤ count_where (is_wallet a.wallet_id) db.wallets
