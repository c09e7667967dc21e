-- ===== src/Wallet/Withdrawing/Checks.antt =====
-- The checks of a withdrawal and its change address, as steps beside the books.
use tokenization.Common.{refl, inl, inr, [], ◌∷◌, ◌++◌, Bool-cases, is_some}
use tokenization.Common.Table.{select_where, fetch_one}
use tokenization.Database.Rows.{WalletAddress}
use tokenization.Database.Model.{Wallet}
use tokenization.Database.Tx.{Refusal, query, raise_if, modify, commit, or_raise, runtime_error}
use tokenization.Database.Tx
use tokenization.Wallet.Addresses.{save_wallet_address, get_next_derivation_index, clashes}
use tokenization.Wallet.Service.{on_conn}
use tokenization.Wallet.Withdrawing.{
  Backend, Withdrawal, create_real_onchain_address, check_two_factor,
}
use tokenization.Wallet.Withdrawing.Settled.{Calm}
use tokenization.Wallet.Withdrawing.Quiet.{still, unmoved, calm_rules}

Calm-save_wallet_address : (row : WalletAddress) → Calm (on_conn (save_wallet_address row))
unfolding on_conn save_wallet_address Tx.◌>>=◌ query raise_if modify commit Tx.pure
Calm-save_wallet_address row = record {
  at = λ db c i k.
      elim (Bool-cases (is_some (fetch_one (select_where (clashes row) db.addresses)))) [
        | inl e ↦ rw e (unmoved db c i k _)
        | inr e ↦ rw e (
            still _ db (record db { addresses = db.addresses ++ row ∷ [] }) c i k
              (record { history = refl; balances = λ k. refl }))
      ];
}

module _ (b : Backend) (q : Withdrawal) where
  pub Calm-create_real_onchain_address :
      (wallet : Wallet) → Calm (create_real_onchain_address b q wallet)
  unfolding create_real_onchain_address get_next_derivation_index
  Calm-create_real_onchain_address wallet = search (calm_rules, Calm-save_wallet_address) depth 20

  pub Calm-check_two_factor : Calm (check_two_factor b q)
  unfolding check_two_factor
  Calm-check_two_factor = search calm_rules
