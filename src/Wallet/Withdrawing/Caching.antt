-- ===== src/Wallet/Withdrawing/Caching.antt =====
-- What a withdrawal leaves in the cache of answers.
use tokenization.Common.{
  ℕ, ◌+◌, ◌≤◌, ◌≡◌, refl, Bool, true, false, Option, none, some, ◌∷◌, ==_refl,
}
use tokenization.Common.Table.{select_where, fetch_one}
use tokenization.Database.Rows.{Text, same_text_refl, Transaction}
use tokenization.Database.Model.{Wallet}
use tokenization.Database.Tx.{Result, ok, err, Refusal}
use tokenization.Wallet.Service.{
  Receipt, CacheKey, CachedResponse, Service, Act, proceed, ◌>>=◌, pure, throw, refuse,
  get_cached_withdrawal_response, same_cache_key, withdrawal_idempotency_ttl,
  clear_withdrawal_inflight, store_cached_withdrawal_response,
}
use tokenization.Wallet.Withdrawing.{
  Backend, Withdrawal, Funded, answer_withdrawal, after_sending, after_reserving, after_funding,
  submit_withdrawal, unless_cached, create_real_onchain_address, receipt_of,
}

-- The cached answer under the key.
abbrev pub cached_under : CacheKey → Service → Option CachedResponse
cached_under key s = fetch_one (select_where (λ c. same_cache_key c.key key) s.cache)

-- The answer is cached under the key, and not expired.
pub record IsCached (key : CacheKey) (now : ℕ) (r : Receipt) (s : Service) : Type 0 where
  pub entry : CachedResponse
  pub found : cached_under key s ≡ some entry
  pub payload : entry.payload ≡ r
  pub fresh : now ≤ entry.created_at + withdrawal_idempotency_ttl

-- The answer has been cached under the key at the time.
pub record IsStored (key : CacheKey) (now : ℕ) (r : Receipt) (s : Service) : Type 0 where
  pub entry : CachedResponse
  pub found : cached_under key s ≡ some entry
  pub payload : entry.payload ≡ r
  pub stored_at : entry.created_at ≡ now

abbrev pub AnswerIsStored : CacheKey → ℕ → Result Receipt → Service → Type 0
AnswerIsStored key now (ok r) s = IsStored key now r s
AnswerIsStored key now (err e) s = Unit

same_cache_key_refl : (key : CacheKey) → same_cache_key key key ≡ true
same_cache_key_refl key = rw (==_refl key.wallet_id, same_text_refl key.idempotency_key) refl

-- An action that caches what it answers.
record Caches (key : CacheKey) (now : ℕ) (m : Act Receipt) : Type 0 where
  pub at : (s : Service) → AnswerIsStored key now (m s).0 (m s).1

module _ (key : CacheKey) (now : ℕ) where
  proceed-AnswerIsStored :
      {A : Type 0} (f : A → Act Receipt) (r : Result A) (s : Service)
      → ((a : A) → Caches key now (f a))
      → AnswerIsStored key now (proceed r f s).0 (proceed r f s).1
  proceed-AnswerIsStored f (ok a) s h = (h a).at s
  proceed-AnswerIsStored f (err e) s h = tt

  Caches-bind :
      {A : Type 0} (m : Act A) (f : A → Act Receipt)
      → ((a : A) → Caches key now (f a))
      → Caches key now (m >>= f)
  unfolding ◌>>=◌
  Caches-bind m f h = record { at = λ s. proceed-AnswerIsStored f (m s).0 (m s).1 h }

  Caches-refuse : (code : Refusal) → Caches key now (refuse code)
  unfolding refuse
  Caches-refuse code = record { at = λ s. tt }

module _ (b : Backend) (q : Withdrawal) (key : CacheKey) (wallet : Wallet) (c : ℕ) (cs : Text)
    (keyed : q.idempotency_key ≡ c ∷ cs) where
  Caches-answer :
      (fee : ℕ) (txid : Text) (r : Result Transaction)
      → Caches key q.now (answer_withdrawal b q key fee txid r)
  unfolding ◌>>=◌ pure throw store_cached_withdrawal_response clear_withdrawal_inflight select_where
  Caches-answer fee txid (err e) = rw keyed (record { at = λ s. tt })
  Caches-answer fee txid (ok row) = rw keyed (record {
    at = λ s. record {
      entry = record {
        key = key;
        created_at = q.now;
        payload = receipt_of q.amount_sat fee txid row;
      };
      found = rw (same_cache_key_refl key) refl;
      payload = refl;
      stored_at = refl;
    };
  })

  Caches-after_sending :
      (fee : ℕ) (sent : Option Text) → Caches key q.now (after_sending b q key wallet fee sent)
  Caches-after_sending fee none =
      Caches-bind key q.now _ _
        (λ t. Caches-bind key q.now _ _ (λ t. Caches-refuse key q.now Refusal.transaction_failed))
  Caches-after_sending fee (some txid) = Caches-bind key q.now _ _ (λ r. Caches-answer fee txid r)

  Caches-after_reserving :
      (funded : Funded) (reserved : Bool)
      → Caches key q.now (after_reserving b q key wallet funded reserved)
  Caches-after_reserving funded false =
      Caches-bind key q.now _ _ (λ t. Caches-refuse key q.now Refusal.insufficient_funds)
  Caches-after_reserving funded true =
      Caches-bind key q.now _ _ (λ rows. Caches-after_sending funded.fee_sat _)

  Caches-after_funding : (o : Option Funded) → Caches key q.now (after_funding b q key wallet o)
  Caches-after_funding none =
      Caches-bind key q.now _ _ (λ t. Caches-refuse key q.now Refusal.insufficient_funds)
  Caches-after_funding (some funded) =
      Caches-bind key q.now _ _ (λ reserved. Caches-after_reserving funded reserved)

  Caches-submit_withdrawal : Caches key q.now (submit_withdrawal b q key wallet)
  unfolding submit_withdrawal
  Caches-submit_withdrawal =
      Caches-bind key q.now (create_real_onchain_address b q wallet) _
        (λ derived. Caches-after_funding (b.walletcreatefundedpsbt derived.confidential_address))

  Caches-new : Caches key q.now (unless_cached b q key wallet none)
  Caches-new =
      Caches-bind key q.now _ _
        (λ marked. Caches-bind key q.now _ _ (λ t. Caches-submit_withdrawal))

  -- Without a cached answer, the withdrawal is made.
  pub looked_up :
      (s : Service)
      → cached_under key s ≡ none
      → AnswerIsStored key q.now
          ((get_cached_withdrawal_response q.now key >>= unless_cached b q key wallet) s).0
          ((get_cached_withdrawal_response q.now key >>= unless_cached b q key wallet) s).1
  unfolding ◌>>=◌ pure get_cached_withdrawal_response
  looked_up s e = rw e (Caches-new.at s)
