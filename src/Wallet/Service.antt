-- ===== src/Wallet/Service.antt =====
-- The state of the wallet service's process around a request (services/wallet/main.py): the request's
-- database connection, the cached answers to withdrawals, and the withdrawals in flight.
use tokenization.Common.{
  ℕ, ◌+◌, take, Bool, not, ◌&&◌, Option, none, some, List, ◌∷◌, ltb, ◌==◌, if◌then◌else◌, is_some,
}
use tokenization.Common.Table.{select_where, fetch_one}
use tokenization.Database.Rows.{Text, same_text, TransactionStatus}
use tokenization.Database.Tx.{Result, ok, err, Failure, contract_error, Refusal, Conn, Tx, Unit₀}

pub record Receipt : Type 0 where
  pub txid : Text
  pub amount_sat : ℕ
  pub fee_sat : ℕ
  pub status : TransactionStatus

-- A wallet, and the first 128 characters of an idempotency key.
pub record CacheKey : Type 0 where
  pub wallet_id : ℕ
  pub idempotency_key : Text

pub record CachedResponse : Type 0 where
  pub key : CacheKey
  pub created_at : ℕ
  pub payload : Receipt

pub record Service : Type 0 where
  pub conn : Conn
  pub cache : List CachedResponse
  pub inflight : List CacheKey

abbrev pub Act : Type 0 → Type 0
Act A = Service → Result A × Service

abbrev pub proceed : {A B : Type 0} → Result A → (A → Act B) → Act B
proceed (ok a) f s = f a s
proceed (err e) f s = (err e, s)

infixl 5 ◌>>=◌ ◌>>◌
unfoldable pub ◌>>=◌ : {A B : Type 0} → Act A → (A → Act B) → Act B
◌>>=◌ m f s = let (r, s') = m s in proceed r f s'

abbrev pub ◌>>◌ : {A B : Type 0} → Act A → Act B → Act B
m >> k = m >>= λ _. k

module _ {A : Type 0} where
  unfoldable pub pure : A → Act A
  pure a s = (ok a, s)

  unfoldable pub throw : Failure → Act A
  throw e s = (err e, s)

  unfoldable pub refuse : Refusal → Act A
  refuse code s = (err (contract_error code), s)

  unfoldable pub or_refuse : Option A → Refusal → Act A
  or_refuse none code s = (err (contract_error code), s)
  or_refuse (some a) code s = (ok a, s)

  unfoldable pub on_conn : Tx A → Act A
  on_conn m s = let (r, c) = m s.conn in (r, record s { conn = c })

  -- `try: .. except Exception as exc:` whose handler sees what was raised.
  unfoldable pub attempted : Act A → Act (Result A)
  attempted m s = let (r, s') = m s in (ok r, s')

unfoldable pub refuse_if : Bool → Refusal → Act Unit₀
refuse_if b code s = (if b then err (contract_error code) else ok tt, s)

unfoldable pub withdrawal_cache_key : ℕ → Text → CacheKey
withdrawal_cache_key wallet_id idempotency_key = record {
  wallet_id = wallet_id;
  idempotency_key = take 128 idempotency_key;
}

abbrev pub same_cache_key : CacheKey → CacheKey → Bool
same_cache_key a b = a.wallet_id == b.wallet_id && same_text a.idempotency_key b.idempotency_key

-- 600 seconds; times are in microseconds.
abbrev pub withdrawal_idempotency_ttl : ℕ
withdrawal_idempotency_ttl = 600000000

abbrev pub drop_cached : CacheKey → Act Unit₀
drop_cached key s =
    (ok tt, record s { cache = select_where (λ c. not (same_cache_key c.key key)) s.cache })

-- An answer that is too old is dropped.
abbrev pub unless_expired : ℕ → CacheKey → Option CachedResponse → Act (Option Receipt)
unless_expired now key none = pure none
unless_expired now key (some cached) =
    if ltb (cached.created_at + withdrawal_idempotency_ttl) now
    then drop_cached key >> pure none
    else pure (some cached.payload)

unfoldable pub get_cached_withdrawal_response : ℕ → CacheKey → Act (Option Receipt)
unfolding pure ◌>>=◌
get_cached_withdrawal_response now key s =
    unless_expired now key (fetch_one (select_where (λ c. same_cache_key c.key key) s.cache)) s

unfoldable pub mark_withdrawal_inflight : CacheKey → Act Bool
mark_withdrawal_inflight key s =
    let busy = is_some (fetch_one (select_where (λ k. same_cache_key k key) s.inflight)) in
    (ok (not busy), if busy then s else record s { inflight = key ∷ s.inflight })

unfoldable pub clear_withdrawal_inflight : CacheKey → Act Unit₀
clear_withdrawal_inflight key s =
    (ok tt, record s { inflight = select_where (λ k. not (same_cache_key k key)) s.inflight })

unfoldable pub store_cached_withdrawal_response : ℕ → CacheKey → Receipt → Act Unit₀
store_cached_withdrawal_response now key payload s = (
  ok tt,
  record s {
    cache =
        record { key = key; created_at = now; payload = payload }
        ∷ select_where (λ c. not (same_cache_key c.key key)) s.cache;
  },
)
