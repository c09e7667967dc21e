-- ===== src/Market/Balances/Debits.antt =====
-- What a debit takes from a wallet.
use tokenization.Common.{ℕ, ◌+◌, ◌-◌, ◌≡◌, inl, inr, arith, ltb, ◌==◌, Member, Bool-cases}
use tokenization.Common.Table.{Member-update_where}
use tokenization.Database.Model.{Wallet}
use tokenization.Database.Tx.{ok, Conn, ◌>>=◌, raise_if, modify}
use tokenization.Market.Balances.{debited, write_balances, debit_wallet_balance}

-- A debit that returns takes exactly the amount from the wallet that was passed in, from its on-chain
-- funds first, and from its Lightning funds only what those do not cover.
pub debit_wallet_balance-exact :
    (now amount : ℕ) (w x : Wallet) (c : Conn)
    → (debit_wallet_balance now w amount c).0 ≡ ok tt
    → Member x (debit_wallet_balance now w amount c).1.current.wallets
    → x.id ≡ w.id
    → (x.onchain_balance_sat + x.lightning_balance_sat + amount
        ≡ w.onchain_balance_sat + w.lightning_balance_sat)
      × (x.onchain_balance_sat ≡ w.onchain_balance_sat - amount)
      × (x.lightning_balance_sat + (amount - w.onchain_balance_sat) ≡ w.lightning_balance_sat)
unfolding debit_wallet_balance debited ◌>>=◌ raise_if modify
debit_wallet_balance-exact now amount w x c returned m same =
    elim (Bool-cases (ltb (w.onchain_balance_sat + w.lightning_balance_sat) amount)) [
      | inl short ↦ absurd (ground (arith, rw short at returned))
      | inr enough ↦
          let origin =
            Member-update_where (λ y. y.id == w.id) (write_balances (debited now amount w))
              c.current.wallets x (rw enough at m) in
          elim origin.change [
            | inl (hit, x_eq) ↦ rw x_eq (ground arith)
            | inr (miss, x_eq) ↦ absurd (ground (arith, rw x_eq at same))
          ]
    ]
