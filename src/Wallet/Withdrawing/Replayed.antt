-- ===== src/Wallet/Withdrawing/Replayed.antt =====
-- Repeating a withdrawal with its idempotency key.
use tokenization.Common.{ℕ, ◌+◌, ◌≡◌, refl, arith, Bool, false, none, some, ◌≤◌, ◌∷◌, ltb}
use tokenization.Database.Rows.{Text}
use tokenization.Database.Model.{Wallet}
use tokenization.Database.Tx.{Result, ok, err, Refusal, Unit₀}
use tokenization.Wallet.Ledger.{get_or_create_wallet}
use tokenization.Wallet.Service.{
  Receipt, CacheKey, Service, Act, proceed, ◌>>=◌, pure, refuse_if, on_conn, withdrawal_cache_key,
  withdrawal_idempotency_ttl, get_cached_withdrawal_response,
}
use tokenization.Wallet.Withdrawing.{
  Backend, Withdrawal, by_key, check_two_factor, fresh_wallet, withdraw_onchain,
}
use tokenization.Wallet.Withdrawing.Caching.{cached_under, IsCached, AnswerIsStored, looked_up}

-- An action that changes nothing.
record Looks {A : Type 0} (m : Act A) : Type 0 where
  pub at : (s : Service) → (m s).1 ≡ s

Looks-refuse_if : (test : Bool) (code : Refusal) → Looks (refuse_if test code)
unfolding refuse_if
Looks-refuse_if test code = record { at = λ s. refl }

proceed-same :
    {A B : Type 0} (f : A → Act B) (r : Result A) (s s' : Service)
    → s' ≡ s
    → ((a : A) → Looks (f a))
    → (proceed r f s').1 ≡ s
proceed-same f (ok a) s s' e h = cc ((h a).at s')
proceed-same f (err x) s s' e h = e

Looks-bind :
    {A B : Type 0} (m : Act A) (f : A → Act B) → Looks m → ((a : A) → Looks (f a)) → Looks (m >>= f)
unfolding ◌>>=◌
Looks-bind m f x h = record { at = λ s. proceed-same f _ s _ (x.at s) h }

check_two_factor-Looks : (b : Backend) (q : Withdrawal) → Looks (check_two_factor b q)
unfolding check_two_factor
check_two_factor-Looks b q = search (Looks-bind, Looks-refuse_if)

module _ (b : Backend) (q : Withdrawal) (s : Service) (w : Wallet)
    (owned : (get_or_create_wallet (fresh_wallet b q) s.conn).0 ≡ ok w) (c : ℕ) (cs : Text)
    (unused : cached_under (withdrawal_cache_key w.id (c ∷ cs)) s ≡ none) where
  owner_stores :
      (text : Text)
      → q.idempotency_key ≡ c ∷ cs
      → text ≡ c ∷ cs
      → let out =
          (on_conn (get_or_create_wallet (fresh_wallet b q)) >>= (λ w. by_key b q text w)) s in
        AnswerIsStored (withdrawal_cache_key w.id (c ∷ cs)) q.now out.0 out.1
  unfolding ◌>>=◌ on_conn
  owner_stores text keyed e =
      rw (owned, e) (looked_up b q (withdrawal_cache_key w.id (c ∷ cs)) w c cs keyed _ unused)

  checked_stores :
      (passed : Result Unit₀) (text : Text)
      → q.idempotency_key ≡ c ∷ cs
      → text ≡ c ∷ cs
      → let out =
          proceed passed
            (λ t. on_conn (get_or_create_wallet (fresh_wallet b q)) >>= (λ w. by_key b q text w))
            s in
        AnswerIsStored (withdrawal_cache_key w.id (c ∷ cs)) q.now out.0 out.1
  checked_stores (ok t) text keyed e = owner_stores text keyed e
  checked_stores (err x) text keyed e = tt

  withdraw_onchain-IsStored :
      q.idempotency_key ≡ c ∷ cs
      → let out = withdraw_onchain b q s in
        AnswerIsStored (withdrawal_cache_key w.id (c ∷ cs)) q.now out.0 out.1
  unfolding withdraw_onchain ◌>>=◌
  withdraw_onchain-IsStored keyed =
      rw ((check_two_factor-Looks b q).at s)
        (checked_stores (check_two_factor b q s).0 q.idempotency_key keyed keyed)

cached_again :
    (now : ℕ) (key : CacheKey) (r : Receipt) (s : Service)
    → IsCached key now r s
    → get_cached_withdrawal_response now key s ≡ (ok (some r), s)
unfolding get_cached_withdrawal_response pure
cached_again now key r s h =
    let young : ltb (h.entry.created_at + withdrawal_idempotency_ttl) now ≡ false =
      ground (arith, h.fresh) in
    rw (h.found, young, h.payload) refl

owned_replays :
    (b : Backend) (q : Withdrawal) (s : Service) (w : Wallet) (r : Receipt)
    → get_or_create_wallet (fresh_wallet b q) s.conn ≡ (ok w, s.conn)
    → (text : Text) (c : ℕ) (cs : Text) → text ≡ c ∷ cs
    → IsCached (withdrawal_cache_key w.id text) q.now r s
    → (on_conn (get_or_create_wallet (fresh_wallet b q)) >>= (λ w. by_key b q text w)) s ≡ (ok r, s)
unfolding ◌>>=◌ on_conn pure
owned_replays b q s w r owned text c cs keyed cached =
    let again = cached_again q.now (withdrawal_cache_key w.id (c ∷ cs)) r s (rw keyed at cached) in
    rw (owned, keyed, again) refl

withdraw_onchain-replays :
    (b : Backend) (q : Withdrawal) (c : ℕ) (cs : Text) (s : Service) (w : Wallet) (r : Receipt)
    → q.idempotency_key ≡ c ∷ cs
    → (check_two_factor b q s).0 ≡ ok tt
    → get_or_create_wallet (fresh_wallet b q) s.conn ≡ (ok w, s.conn)
    → IsCached (withdrawal_cache_key w.id q.idempotency_key) q.now r s
    → withdraw_onchain b q s ≡ (ok r, s)
unfolding withdraw_onchain ◌>>=◌
withdraw_onchain-replays b q c cs s w r keyed passed owned cached =
    rw (passed, (check_two_factor-Looks b q).at s)
      (owned_replays b q s w r owned q.idempotency_key c cs keyed cached)

still-IsCached :
    (key : CacheKey) (now later : ℕ) (r : Receipt) (out : Result Receipt) (s : Service)
    → out ≡ ok r
    → later ≤ now + withdrawal_idempotency_ttl
    → AnswerIsStored key now out s
    → IsCached key later r s
still-IsCached key now later r (err e) s answered soon h = absurd (cc)
still-IsCached key now later r (ok r') s answered soon h = record {
  entry = h.entry;
  found = h.found;
  payload = cc;
  fresh = rw h.stored_at soon;
}

-- A withdrawal under an idempotency key that has no cached answer yet, and that is answered, is made once: another
-- request under that key, whatever it asks for, of the same wallet and with a second factor that is right, within
-- the time that answers are kept after the first, gets the same answer, and changes nothing, neither the
-- database nor what is cached or in flight.
pub withdraw_onchain-withdraw_onchain :
    (b b' : Backend) (q q' : Withdrawal) (c : ℕ) (cs : Text) (s : Service) (w w' : Wallet)
    (r : Receipt)
    → q.idempotency_key ≡ c ∷ cs
    → q'.idempotency_key ≡ c ∷ cs
    → (get_or_create_wallet (fresh_wallet b q) s.conn).0 ≡ ok w
    → cached_under (withdrawal_cache_key w.id (c ∷ cs)) s ≡ none
    → (withdraw_onchain b q s).0 ≡ ok r
    → (check_two_factor b' q' (withdraw_onchain b q s).1).0 ≡ ok tt
    → get_or_create_wallet (fresh_wallet b' q') (withdraw_onchain b q s).1.conn
      ≡ (ok w', (withdraw_onchain b q s).1.conn)
    → w'.id ≡ w.id
    → q'.now ≤ q.now + withdrawal_idempotency_ttl
    → withdraw_onchain b' q' (withdraw_onchain b q s).1 ≡ (ok r, (withdraw_onchain b q s).1)
withdraw_onchain-withdraw_onchain b b' q q' c cs s w w' r keyed keyed' owned unused answered passed
      owned' same soon =
    let stored = withdraw_onchain-IsStored b q s w owned c cs unused keyed in
    let cached =
      still-IsCached (withdrawal_cache_key w.id (c ∷ cs)) q.now q'.now r (withdraw_onchain b q s).0
        (withdraw_onchain b q s).1 answered soon stored in
    withdraw_onchain-replays b' q' c cs (withdraw_onchain b q s).1 w' r keyed' passed owned'
      (rw (same, keyed') cached)
