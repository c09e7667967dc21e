-- ===== src/Wallet/Withdrawing/Owner.antt =====
-- Finding or creating the wallet, as a step beside the books.
use tokenization.Common.{
  ℕ, ◌≡◌, refl, inl, inr, arith, ◌==◌, ◌||◌, Bool, Option, none, some, List, [], ◌∷◌, ◌++◌,
  Bool-cases, is_some, ==_iff,
}
use tokenization.Common.Table.{
  sum_by, sum_by-append, count_where, count_where-append, count_where_mono, select_where, fetch_one,
}
use tokenization.Common.Sums.{count_of_fetch_false}
use tokenization.Database.Rows.{Text}
use tokenization.Database.Model.{Wallet, Db}
use tokenization.Database.Tx.{
  Result, ok, err, Failure, Refusal, Tx, or_raise, query, raise_if, modify, commit, rollback, catch,
}
use tokenization.Database.Tx
use tokenization.Wallet.Ledger.{
  is_wallet, insert_wallet, or_create_wallet, get_or_create_wallet, new_wallet,
}
use tokenization.Market.Balances.{get_wallet_by_user_id}
use tokenization.Wallet.Books.{onchain_of}
use tokenization.Wallet.Reservations.{HasKeys}
use tokenization.Wallet.Service.{CacheKey, CachedResponse, on_conn}
use tokenization.Wallet.Withdrawing.Settled.{Same, Same-refl, IsQuiet, service, Calm}
use tokenization.Wallet.Withdrawing.Quiet.{still, unmoved}

module _ (db : Db) (cache : List CachedResponse) (inflight : List CacheKey)
    (keys : HasKeys db) where
  module _ (i now user : ℕ) (seed path : Text) where
    abbrev grown : Db
    grown = record db { wallets = db.wallets ++ new_wallet i now user seed path ∷ [] }

    grown-HasKeys : count_where (is_wallet i) db.wallets ≡ 0 → HasKeys grown
    unfolding count_where
    grown-HasKeys fresh k =
        rw (count_where-append (is_wallet k) db.wallets (new_wallet i now user seed path ∷ []))
          (elim (Bool-cases (i == k)) [
            | inl e ↦
                let same : i ≡ k = (==_iff i k).0 e in
                let z : count_where (is_wallet k) db.wallets ≡ 0 = rw (← same) fresh in
                rw e (omega arith)
            | inr e ↦ rw e (omega (arith, keys k))
          ])

    grown-Same : Same db grown
    unfolding sum_by
    grown-Same = record {
      history = refl;
      balances = λ k.
          rw (sum_by-append (onchain_of k) db.wallets (new_wallet i now user seed path ∷ []))
            (ground arith);
    }

    abbrev is_taken : Bool
    is_taken = is_some (fetch_one (select_where (λ w. w.id == i || w.user_id == user) db.wallets))

    or_raise-still :
        (db' : Db) (o : Option Wallet) (e : Failure)
        → HasKeys db'
        → Same db db'
        → IsQuiet db (on_conn (or_raise o e)) (service db' cache inflight)
    unfolding on_conn or_raise
    or_raise-still db' none e k s = still _ db db' _ _ k s
    or_raise-still db' (some a) e k s = still _ db db' _ _ k s

    or_create_wallet-IsQuiet :
        (o : Option Wallet)
        → IsQuiet db
            (on_conn (or_create_wallet (new_wallet i now user seed path) o))
            (service db cache inflight)
    unfolding on_conn insert_wallet get_wallet_by_user_id Tx.◌>>=◌ query raise_if modify commit
        rollback catch Tx.pure
    or_create_wallet-IsQuiet (some w) = unmoved db cache inflight keys _
    or_create_wallet-IsQuiet none = elim (Bool-cases is_taken) [
      | inl e ↦ rw e (or_raise-still db _ _ keys (Same-refl db))
      | inr e ↦
          let free = count_of_fetch_false _ db.wallets e in
          let fresh : count_where (is_wallet i) db.wallets ≡ 0 = omega (
            arith,
            free,
            count_where_mono (is_wallet i) (λ w. w.id == i || w.user_id == user) db.wallets
                (λ x h. ground arith),
          ) in
          rw e (or_raise-still grown _ _ (grown-HasKeys fresh) grown-Same)
    ]

pub Calm-get_or_create_wallet :
    (i now user : ℕ) (seed path : Text)
    → Calm (on_conn (get_or_create_wallet (new_wallet i now user seed path)))
unfolding on_conn get_or_create_wallet get_wallet_by_user_id Tx.◌>>=◌ query
Calm-get_or_create_wallet i now user seed path = record {
  at = λ db c l k. or_create_wallet-IsQuiet db c l k i now user seed path _;
}
