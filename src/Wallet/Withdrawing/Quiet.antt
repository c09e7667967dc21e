-- ===== src/Wallet/Withdrawing/Quiet.antt =====
-- Steps beside the books.
use tokenization.Common.{
  ℕ, ◌+◌, refl, inl, inr, Bool, Option, none, some, List, [], ◌∷◌, Bool-cases, is_some, ltb,
}
use tokenization.Common.Table.{select_where, fetch_one}
use tokenization.Database.Rows.{Text}
use tokenization.Database.Model.{Db}
use tokenization.Database.Tx.{Result, ok, err, Failure, Refusal, or_raise, query}
use tokenization.Wallet.Reservations.{HasKeys}
use tokenization.Wallet.Service.{
  Receipt, CacheKey, CachedResponse, ◌>>=◌, pure, throw, refuse, or_refuse, refuse_if, on_conn,
  clear_withdrawal_inflight, store_cached_withdrawal_response, same_cache_key,
  mark_withdrawal_inflight, unless_expired, get_cached_withdrawal_response,
  withdrawal_idempotency_ttl,
}
use tokenization.Wallet.Withdrawing.{clear_if, store_if}
use tokenization.Wallet.Withdrawing.Settled.{
  Same, Same-refl, Quiet, IsQuiet, service, Calm, Calm-bind,
}

pub still :
    {A : Type 0} (r : Result A) (db db' : Db) (cache : List CachedResponse)
    (inflight : List CacheKey)
    → HasKeys db'
    → Same db db'
    → Quiet db r (service db' cache inflight)
still (ok a) db db' cache inflight keys same = record { keys = keys; same = same; rest = refl }
still (err e) db db' cache inflight keys same = record { keys = keys; same = same; rest = tt }

pub unmoved :
    (db : Db) (cache : List CachedResponse) (inflight : List CacheKey)
    → HasKeys db
    → {A : Type 0} (r : Result A) → Quiet db r (service db cache inflight)
unmoved db cache inflight keys r = still r db db cache inflight keys (Same-refl db)

module _ {A : Type 0} where
  pub Calm-pure : (a : A) → Calm (pure a)
  unfolding pure
  Calm-pure a = record { at = λ db c i k. unmoved db c i k _ }

  pub Calm-throw : (e : Failure) → Calm (throw {A = A} e)
  unfolding throw
  Calm-throw e = record { at = λ db c i k. unmoved db c i k _ }

  pub Calm-refuse : (code : Refusal) → Calm (refuse {A = A} code)
  unfolding refuse
  Calm-refuse code = record { at = λ db c i k. unmoved db c i k _ }

  pub Calm-or_refuse : (o : Option A) (code : Refusal) → Calm (or_refuse o code)
  unfolding or_refuse
  Calm-or_refuse none code = record { at = λ db c i k. unmoved db c i k _ }
  Calm-or_refuse (some a) code = record { at = λ db c i k. unmoved db c i k _ }

  pub Calm-or_raise : (o : Option A) (e : Failure) → Calm (on_conn (or_raise o e))
  unfolding on_conn or_raise
  Calm-or_raise none e = record { at = λ db c i k. unmoved db c i k _ }
  Calm-or_raise (some a) e = record { at = λ db c i k. unmoved db c i k _ }

  pub Calm-query : (f : Db → A) → Calm (on_conn (query f))
  unfolding on_conn query
  Calm-query f = record { at = λ db c i k. unmoved db c i k _ }

pub Calm-refuse_if : (b : Bool) (code : Refusal) → Calm (refuse_if b code)
unfolding refuse_if
Calm-refuse_if b code = record { at = λ db c i k. unmoved db c i k _ }

pub Calm-clear_if : (text : Text) (key : CacheKey) → Calm (clear_if text key)
unfolding clear_withdrawal_inflight
Calm-clear_if [] key = Calm-pure tt
Calm-clear_if (_ ∷ text) key = record { at = λ db c i k. still _ db db _ _ k (Same-refl db) }

pub Calm-store_if :
    (now : ℕ) (text : Text) (key : CacheKey) (r : Receipt) → Calm (store_if now text key r)
unfolding store_cached_withdrawal_response
Calm-store_if now [] key r = Calm-pure tt
Calm-store_if now (_ ∷ text) key r = record { at = λ db c i k. still _ db db _ _ k (Same-refl db) }

pub Calm-mark : (key : CacheKey) → Calm (mark_withdrawal_inflight key)
unfolding mark_withdrawal_inflight
Calm-mark key = record {
  at = λ db c i k.
      elim (Bool-cases (is_some (fetch_one (select_where (λ x. same_cache_key x key) i)))) [
        | inl e ↦ rw e (unmoved db c i k _)
        | inr e ↦ rw e (still _ db db _ _ k (Same-refl db))
      ];
}

unless_expired-IsQuiet :
    (now : ℕ) (key : CacheKey) (o : Option CachedResponse) (db : Db) (cache : List CachedResponse)
    (inflight : List CacheKey)
    → HasKeys db
    → IsQuiet db (unless_expired now key o) (service db cache inflight)
unfolding pure ◌>>=◌
unless_expired-IsQuiet now key none db c i k = unmoved db c i k _
unless_expired-IsQuiet now key (some r) db c i k =
    elim (Bool-cases (ltb (r.created_at + withdrawal_idempotency_ttl) now)) [
      | inl e ↦ rw e (still _ db db _ _ k (Same-refl db))
      | inr e ↦ rw e (unmoved db c i k _)
    ]

pub Calm-get_cached : (now : ℕ) (key : CacheKey) → Calm (get_cached_withdrawal_response now key)
unfolding get_cached_withdrawal_response
Calm-get_cached now key = record { at = λ db c i k. unless_expired-IsQuiet now key _ db c i k }

pub ruleset calm_rules = (
  Calm-pure, Calm-throw, Calm-refuse, Calm-or_refuse, Calm-or_raise, Calm-query, Calm-refuse_if,
  Calm-clear_if, Calm-store_if, Calm-mark, Calm-get_cached, Calm-bind,
)
