-- ===== src/Wallet/Lightning.antt =====
-- The Lightning balance of a wallet, from its history (services/wallet/db.py).
use tokenization.Common.{ℕ, ◌-◌, ◌&&◌, List, ◌==◌, if◌then◌else◌}
use tokenization.Common.Table.{select_where, sum_by}
use tokenization.Database.Rows.{TransactionType, Transaction}
use tokenization.Database.Model.{Wallet}
use tokenization.Database.Tx.{Tx, ◌>>=◌, ◌>>◌, pure, query, modify, commit, Unit₀}
use tokenization.Wallet.Ledger.{is_wallet, update_wallets, same_type, is_confirmed}

abbrev pub write_lightning : ℕ → ℕ → Wallet → Wallet
write_lightning now balance_sat w = record w {
  lightning_balance_sat = balance_sat;
  updated_at = now;
}

-- The only caller hands on a balance that is clipped at 0 already.
unfoldable pub update_lightning_balance : ℕ → ℕ → ℕ → Tx Unit₀
update_lightning_balance now wallet_id balance_sat = do
  modify (update_wallets (is_wallet wallet_id) (write_lightning now balance_sat))
  commit

-- What a transaction adds to the sum of a type: CASE WHEN type = .. AND status = 'confirmed'.
abbrev pub confirmed_amount : TransactionType → Transaction → ℕ
confirmed_amount tx_type t =
    if same_type t.type_of tx_type && is_confirmed t.status then t.amount_sat else 0

unfoldable pub confirmed_sum : ℕ → TransactionType → List Transaction → ℕ
confirmed_sum wallet_id tx_type rows =
    sum_by (confirmed_amount tx_type) (select_where (λ t. t.wallet_id == wallet_id) rows)

unfoldable pub recompute_lightning_balance : ℕ → ℕ → Tx ℕ
unfolding confirmed_sum update_lightning_balance
recompute_lightning_balance now wallet_id = do
  incoming_sat ← query (λ db. confirmed_sum wallet_id TransactionType.ln_receive db.transactions)
  outgoing_sat ← query (λ db. confirmed_sum wallet_id TransactionType.ln_send db.transactions)
  let balance_sat = incoming_sat - outgoing_sat
  update_lightning_balance now wallet_id balance_sat
  pure balance_sat
