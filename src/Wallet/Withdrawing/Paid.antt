-- ===== src/Wallet/Withdrawing/Paid.antt =====
-- What a withdrawal does to the balances and the history.
use tokenization.Common.{
  ℕ, ◌+◌, ◌≤◌, ◌≡◌, refl, inl, inr, arith, ◌==◌, ◌||◌, true, Option, none, some, List, [], ◌∷◌,
  Bool-cases, is_some,
}
use tokenization.Common.Table.{select_where, fetch_one}
use tokenization.Database.Rows.{Text}
use tokenization.Database.Model.{Wallet, Db}
use tokenization.Database.Tx.{
  Result, ok, err, Refusal, integrity_error, runtime_error, query, raise_if, modify, commit,
  rollback,
}
use tokenization.Database.Tx
use tokenization.Wallet.Ledger.{
  insert_transaction, create_transaction, create_onchain_withdrawal, reserve_onchain_balance,
  release_onchain_balance,
}
use tokenization.Wallet.Reservations.{
  HasKeys, released_db, is_reserved, onchain-released_db, released_db-HasKeys,
}
use tokenization.Wallet.Service.{
  Receipt, CacheKey, CachedResponse, ◌>>=◌, ◌>>◌, pure, throw, refuse, on_conn, attempted,
  clear_withdrawal_inflight, store_cached_withdrawal_response,
}
use tokenization.Wallet.Withdrawing.{
  Backend, Withdrawal, Funded, clear_if, store_if, after_sending, after_funding, submit_withdrawal,
  unless_cached, by_key, withdraw_onchain,
}
use tokenization.Wallet.Withdrawing.Settled.{
  total, Settles, Settles-Same, service, Closes, Closing, Closing-bind, Closing-of_Calm,
}
use tokenization.Wallet.Withdrawing.Booking.{taken_off, recorded, total-taken_off, total-recorded}
use tokenization.Wallet.Withdrawing.Quiet.{calm_rules}
use tokenization.Wallet.Withdrawing.Owner.{Calm-get_or_create_wallet}
use tokenization.Wallet.Withdrawing.Checks.{Calm-create_real_onchain_address, Calm-check_two_factor}

module _ (before db : Db) (cache : List CachedResponse) (inflight : List CacheKey) where
  -- An exception that is no refusal, when nothing was gained.
  failed-Closes :
      (text : Text) (key : CacheKey)
      → ((k : ℕ) → total k db ≤ total k before)
      → Closes before
          (clear_if text key >> throw {A = Receipt} integrity_error)
          (service db cache inflight)
        × Closes before
            (clear_if text key >> throw {A = Receipt} runtime_error)
            (service db cache inflight)
  unfolding ◌>>=◌ pure throw clear_withdrawal_inflight
  failed-Closes [] key h = (h, h)
  failed-Closes (_ ∷ text) key h = (h, h)

  answered-Closes :
      (now : ℕ) (text : Text) (key : CacheKey) (r : Receipt)
      → ((k : ℕ) → total k db ≡ total k before)
      → Closes before
          (store_if now text key r >> (clear_if text key >> pure r))
          (service db cache inflight)
  unfolding ◌>>=◌ pure clear_withdrawal_inflight store_cached_withdrawal_response
  answered-Closes now [] key r h = h
  answered-Closes now (_ ∷ text) key r h = h

module _ (b : Backend) (q : Withdrawal) (key : CacheKey) (wallet : Wallet) where
  module _ (fee : ℕ) (db : Db) (cache : List CachedResponse) (inflight : List CacheKey)
      (keys : HasKeys db)
      (found : is_reserved q.now wallet.id (q.amount_sat + fee) db keys ≡ true) where
    abbrev cost : ℕ
    cost = q.amount_sat + fee

    sent-Closes :
        (sent : Option Text)
        → Closes db
            (after_sending b q key wallet fee sent)
            (service (taken_off q.now wallet.id q.amount_sat fee cost db keys) cache inflight)
    unfolding on_conn release_onchain_balance Tx.◌>>=◌ modify commit ◌>>=◌ attempted
        create_onchain_withdrawal create_transaction insert_transaction query raise_if Tx.pure pure
        throw
    sent-Closes none =
        let back = released_db q.now wallet.id (q.amount_sat + fee) db keys in
        Settles-Same _ db back _
          (record {
            history = refl;
            balances = onchain-released_db q.now wallet.id (q.amount_sat + fee) db keys found;
          })
          ((Closing-of_Calm
              (clear_if q.idempotency_key key >> refuse {A = Receipt} Refusal.transaction_failed)
              (search calm_rules)).at
            back cache inflight (released_db-HasKeys q.now wallet.id (q.amount_sat + fee) db keys))
    sent-Closes (some txid) =
        let off = taken_off q.now wallet.id q.amount_sat fee cost db keys in
        let done = recorded q.now wallet.id q.amount_sat fee cost db keys q.transaction_id txid in
        let less = total-taken_off q.now wallet.id q.amount_sat fee cost db keys found in
        let even =
          total-recorded q.now wallet.id q.amount_sat fee cost db keys found q.transaction_id txid
            refl in
        elim (Bool-cases (
          is_some (fetch_one (select_where (λ t. t.id == q.transaction_id) db.transactions))
          || q.amount_sat == 0)) [
            | inl e ↦
                rw e
                  (failed-Closes db off cache inflight q.idempotency_key key
                    (λ k. omega (arith, less k))).0
            | inr e ↦ elim (Bool-cases b.record_audit_event) [
              | inl f ↦
                  rw (e, f)
                    (answered-Closes db done cache inflight q.now q.idempotency_key key _ even)
              | inr f ↦
                  rw (e, f)
                    (failed-Closes db done cache inflight q.idempotency_key key
                      (λ k. omega (arith, even k))).1
            ]
          ]

  reserved_cases-Closes :
      (funded : Funded) (db : Db) (cache : List CachedResponse) (inflight : List CacheKey)
      → HasKeys db
      → Closes db (after_funding b q key wallet (some funded)) (service db cache inflight)
  unfolding on_conn reserve_onchain_balance Tx.◌>>=◌ query modify commit rollback Tx.pure ◌>>=◌
  reserved_cases-Closes funded db cache inflight keys =
      elim (Bool-cases (is_reserved q.now wallet.id (q.amount_sat + funded.fee_sat) db keys)) [
        | inl e ↦ rw e (sent-Closes funded.fee_sat db cache inflight keys e _)
        | inr e ↦ rw e (
            (Closing-of_Calm
                (clear_if q.idempotency_key key >> refuse {A = Receipt} Refusal.insufficient_funds)
                (search calm_rules)).at
              db cache inflight keys)
      ]

  Closing-after_funding : (o : Option Funded) → Closing (after_funding b q key wallet o)
  Closing-after_funding none = Closing-of_Calm _ (search calm_rules)
  Closing-after_funding (some funded) = record { at = reserved_cases-Closes funded }

  Closing-submit_withdrawal : Closing (submit_withdrawal b q key wallet)
  unfolding submit_withdrawal
  Closing-submit_withdrawal =
      Closing-bind _ _ (Calm-create_real_onchain_address b q wallet)
        (λ derived. Closing-after_funding _)

  Closing-unless_cached : (o : Option Receipt) → Closing (unless_cached b q key wallet o)
  Closing-unless_cached none =
      Closing-bind _ _ (search calm_rules)
        (λ marked. Closing-bind _ _ (search calm_rules) (λ t. Closing-submit_withdrawal))
  Closing-unless_cached (some r) = Closing-of_Calm _ (search calm_rules)

module _ (b : Backend) (q : Withdrawal) where
  Closing-by_key : (text : Text) (wallet : Wallet) → Closing (by_key b q text wallet)
  Closing-by_key [] wallet = Closing-submit_withdrawal b q _ wallet
  Closing-by_key (_ ∷ text) wallet =
      Closing-bind _ _ (search calm_rules) (λ cached. Closing-unless_cached b q _ wallet cached)

  Closing-withdraw_onchain : Closing (withdraw_onchain b q)
  unfolding withdraw_onchain
  Closing-withdraw_onchain = Closing-bind _ _ (Calm-check_two_factor b q) (λ t.
      Closing-bind _ _
        (Calm-get_or_create_wallet q.wallet_id q.now q.user_id q.encrypted_seed q.derivation_path)
        (λ wallet. Closing-by_key q.idempotency_key wallet))

-- On wallets with unique keys and a connection with nothing uncommitted, whatever the node, the backend and
-- the audit answer, and whatever is cached or in flight: if the withdrawal is answered, each wallet's
-- on-chain balance and what its history shows as withdrawn, fees included, add up to what they did before;
-- if it is refused, no balance and no history has changed; if it fails with another exception, no sum is
-- greater than before.
pub withdraw_onchain-Settles :
    (b : Backend) (q : Withdrawal) (db : Db) (cache : List CachedResponse)
    (inflight : List CacheKey)
    → HasKeys db
    → let (r, s) = withdraw_onchain b q (service db cache inflight) in Settles db r s.conn.committed
withdraw_onchain-Settles b q db cache inflight keys =
    (Closing-withdraw_onchain b q).at db cache inflight keys
