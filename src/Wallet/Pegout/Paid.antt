-- ===== src/Wallet/Pegout/Paid.antt =====
-- What a peg-out does to the balances and the history.
use tokenization.Common.{
  ◌≡◌, refl, inl, inr, arith, ◌==◌, ◌||◌, true, Option, none, some, List, Bool-cases, is_some,
}
use tokenization.Common.Table.{select_where, fetch_one}
use tokenization.Database.Rows.{Text}
use tokenization.Database.Model.{Wallet, Db}
use tokenization.Database.Tx.{Refusal, query, raise_if, modify, commit, rollback}
use tokenization.Database.Tx
use tokenization.Wallet.Ledger.{
  insert_transaction, create_transaction, create_onchain_withdrawal, reserve_onchain_balance,
  release_onchain_balance,
}
use tokenization.Wallet.Reservations.{HasKeys, is_reserved, onchain-released_db}
use tokenization.Wallet.Service.{CacheKey, CachedResponse, ◌>>=◌, pure, throw, refuse, on_conn}
use tokenization.Wallet.Withdrawing.{Backend, Withdrawal}
use tokenization.Wallet.Withdrawing.Settled.{Settles, service, Closes, Closing, Closing-bind}
use tokenization.Wallet.Withdrawing.Booking.{taken_off, total-taken_off, total-recorded}
use tokenization.Wallet.Withdrawing.Owner.{Calm-get_or_create_wallet}
use tokenization.Wallet.Withdrawing.Checks.{Calm-check_two_factor}
use tokenization.Wallet.Pegout.{after_pegout, pegout_from, pegout_to_mainchain}

module _ (b : Backend) (q : Withdrawal) (wallet : Wallet) where
  module _ (db : Db) (cache : List CachedResponse) (inflight : List CacheKey) (keys : HasKeys db)
      (found : is_reserved q.now wallet.id q.amount_sat db keys ≡ true) where
    sent-Closes :
        (sent : Option Text)
        → Closes db
            (after_pegout b q wallet sent)
            (service (taken_off q.now wallet.id q.amount_sat 0 q.amount_sat db keys) cache inflight)
    unfolding on_conn release_onchain_balance Tx.◌>>=◌ modify commit ◌>>=◌ create_onchain_withdrawal
        create_transaction insert_transaction query raise_if Tx.pure pure throw refuse
    sent-Closes none = (refl, onchain-released_db q.now wallet.id q.amount_sat db keys found)
    sent-Closes (some txid) =
        let less = total-taken_off q.now wallet.id q.amount_sat 0 q.amount_sat db keys found in
        let even =
          total-recorded q.now wallet.id q.amount_sat 0 q.amount_sat db keys found q.transaction_id
            txid (omega arith) in
        elim (Bool-cases (
          is_some (fetch_one (select_where (λ t. t.id == q.transaction_id) db.transactions))
          || q.amount_sat == 0)) [
            | inl e ↦ rw e (λ k. omega (arith, less k))
            | inr e ↦ elim (Bool-cases b.record_audit_event) [
              | inl f ↦ rw (e, f) even
              | inr f ↦ rw (e, f) (λ k. omega (arith, even k))
            ]
          ]

  Closing-pegout_from : (sent : Option Text) → Closing (pegout_from b q wallet sent)
  unfolding on_conn reserve_onchain_balance Tx.◌>>=◌ query modify commit rollback Tx.pure ◌>>=◌
      refuse
  Closing-pegout_from sent = record {
    at = λ db c i keys. elim (Bool-cases (is_reserved q.now wallet.id q.amount_sat db keys)) [
      | inl e ↦ rw e (sent-Closes db c i keys e sent)
      | inr e ↦ rw e (refl, λ k. refl)
    ];
  }

Closing-pegout_to_mainchain :
    (b : Backend) (q : Withdrawal) (sent : Option Text) → Closing (pegout_to_mainchain b q sent)
unfolding pegout_to_mainchain
Closing-pegout_to_mainchain b q sent = Closing-bind _ _ (Calm-check_two_factor b q) (λ t.
    Closing-bind _ _
      (Calm-get_or_create_wallet q.wallet_id q.now q.user_id q.encrypted_seed q.derivation_path)
      (λ wallet. Closing-pegout_from b q wallet sent))

-- On wallets with unique keys and a connection with nothing uncommitted, whatever the node and the audit
-- answer: if the peg-out is answered, the on-chain balance of each wallet and what its history shows as
-- withdrawn add up to what they did before; if it is refused, no balance and no history has changed; if it
-- fails with another exception, no sum is greater than before.
pub pegout_to_mainchain-Settles :
    (b : Backend) (q : Withdrawal) (sent : Option Text) (db : Db) (cache : List CachedResponse)
    (inflight : List CacheKey)
    → HasKeys db
    → let (r, s) = pegout_to_mainchain b q sent (service db cache inflight) in
      Settles db r s.conn.committed
pegout_to_mainchain-Settles b q sent db cache inflight keys =
    (Closing-pegout_to_mainchain b q sent).at db cache inflight keys
