-- ===== src/Wallet/Books/Outputs.antt =====
-- The books under the outputs that the node lists.
use tokenization.Common.{
  ℕ, ◌≤◌, ◌≡◌, refl, ◌⊎◌, inl, inr, Bool, true, false, ◌||◌, Option, none, some, List, [], ◌∷◌,
  ◌++◌, ◌==◌, ltb, leb, if◌then◌else◌, ==_iff, Member,
}
use tokenization.Common.Table.{
  count_where, select_where, fetch_one, unique_row, fetch_one-select_where, Member-append_one,
  none_counted, Member-select_where,
}
use tokenization.Database.Rows.{Text, same_text, Deposit, WalletAddress}
use tokenization.Database.Model.{Db}
use tokenization.Database.Tx.{◌>>=◌, query}
use tokenization.Wallet.Ledger.{is_wallet}
use tokenization.Wallet.Addresses.{list_imported_wallet_addresses}
use tokenization.Wallet.Reconcile.{
  Draw, Unspent, is_output, is_credited, new_deposit, by_deposit, reconcile_output, later_row,
  address_info, of_address, of_parts, reconcile_unspent, reconcile_unspents, list_and_reconcile,
  reconcile_deposits,
}
use tokenization.Wallet.Books.{has_deposit_id, IsFiled}
use tokenization.Wallet.Books.Steps.{add_deposit-IsFiled, IsDeposit}
use tokenization.Wallet.Books.Deposits.{
  RunKeeps, bind-Keeps, pure-Keeps, if-Keeps, credit-Keeps, note_confirmations-Keeps,
  add_deposit-then-Keeps,
}

-- The address belongs to a wallet.
abbrev HasWallet : WalletAddress → Db → Type 0
HasWallet a db = 1 ≤ count_where (is_wallet a.wallet_id) db.wallets

later_row-some :
    (o earlier : Option WalletAddress) (a : WalletAddress)
    → later_row o earlier ≡ some a
    → (o ≡ some a) ⊎ (earlier ≡ some a)
later_row-some none earlier a e = inr e
later_row-some (some x) earlier a e = inl e

kept_if : (b : Bool) (x a : WalletAddress) → (if b then some x else none) ≡ some a → a ≡ x
kept_if true x a e = cc
kept_if false x a e = absurd (cc)

address_info-Member :
    (rows : List WalletAddress) (address : Text) (a : WalletAddress)
    → address_info rows address ≡ some a
    → Member a rows
unfolding address_info
address_info-Member [] address a e = absurd (cc)
address_info-Member (x ∷ rows) address a e = elim (later_row-some _ _ a e) [
  | inl rest ↦ inr (address_info-Member rows address a rest)
  | inr here ↦ inl (kept_if (same_text x.address address) x a here)
]

module _ (threshold : ℕ) (d : Draw) where
  module _ (txid : Text) (vout : ℕ) (u : Unspent) (info : WalletAddress) where
    new_row-known :
        (db : Db)
        → count_where (has_deposit_id d.deposit_id) db.deposits ≡ 0
        → IsDeposit d.deposit_id info.wallet_id u.amount_sat
            (record db { deposits = db.deposits ++ new_deposit d info txid vout u ∷ [] })
    new_row-known db fresh x m e =
        elim (Member-append_one db.deposits (new_deposit d info txid vout u) x m) [
          | inl old ↦ absurd (
              none_counted (has_deposit_id d.deposit_id) db.deposits x fresh old
                ((==_iff x.id d.deposit_id).1 e))
          | inr new ↦ rw new (refl, refl)
        ]

    by_deposit-Keeps :
        (row : Option Deposit) (db : Db)
        → IsFiled db
        → HasWallet info db
        → fetch_one (select_where (is_output txid vout) db.deposits) ≡ row
        → RunKeeps db (by_deposit threshold d info txid vout u row)
    by_deposit-Keeps none db filed own found =
        add_deposit-then-Keeps (new_deposit d info txid vout u) _ db filed refl own
          (λ fresh new_output.
            let filed' =
              add_deposit-IsFiled db filed (new_deposit d info txid vout u) fresh new_output own in
            if-Keeps (leb threshold u.confirmations) _ _ _
              (λ deep.
                credit-Keeps d d.deposit_id info.wallet_id txid u.amount_sat u.confirmations _
                  filed' (new_row-known db fresh) own)
              (λ shallow. pure-Keeps tt _ filed'))
    by_deposit-Keeps (some row) db filed own found =
        let (hit, listed) = fetch_one-select_where (is_output txid vout) db.deposits row found in
        if-Keeps (ltb u.confirmations threshold || is_credited row.status) _ _ db
          (λ wait. note_confirmations-Keeps row.id u.confirmations db filed)
          (λ deep.
            credit-Keeps d row.id row.wallet_id txid row.amount_sat u.confirmations db filed
              (λ x m e.
                let same : x ≡ row =
                  unique_row (has_deposit_id row.id) db.deposits x row (filed.deposit_key row.id) m
                    listed ((==_iff x.id row.id).1 e) ((==_iff row.id row.id).1 refl) in
                rw same (refl, refl))
              (filed.deposit_wallet row listed))

    reconcile_output-Keeps :
        (db : Db)
        → IsFiled db
        → HasWallet info db
        → RunKeeps db (reconcile_output threshold d info txid vout u)
    unfolding reconcile_output ◌>>=◌ query
    reconcile_output-Keeps db filed own =
        by_deposit-Keeps (fetch_one (select_where (is_output txid vout) db.deposits)) db filed own
          refl

  of_address-Keeps :
      (txid : Text) (vout : ℕ) (u : Unspent) (info : Option WalletAddress) (db : Db)
      → IsFiled db
      → ((a : WalletAddress) → info ≡ some a → HasWallet a db)
      → RunKeeps db (of_address threshold d txid vout u info)
  of_address-Keeps txid vout u none db filed own = pure-Keeps tt db filed
  of_address-Keeps txid vout u (some info) db filed own =
      reconcile_output-Keeps txid vout u info db filed (own info refl)

  of_parts-Keeps :
      (rows : List WalletAddress) (u : Unspent) (address txid : Option Text) (vout : Option ℕ)
      (db : Db)
      → IsFiled db
      → ((a : WalletAddress) → Member a rows → HasWallet a db)
      → RunKeeps db (of_parts threshold rows d u address txid vout)
  of_parts-Keeps rows u (some (c ∷ cs)) (some txid) (some vout) db filed own =
      if-Keeps (u.amount_sat == 0) _ _ db (λ zero. pure-Keeps tt db filed)
        (λ more.
          of_address-Keeps txid vout u (address_info rows (c ∷ cs)) db filed
            (λ a e. own a (address_info-Member rows (c ∷ cs) a e)))
  of_parts-Keeps rows u none txid vout db filed own = pure-Keeps tt db filed
  of_parts-Keeps rows u (some []) txid vout db filed own = pure-Keeps tt db filed
  of_parts-Keeps rows u (some (c ∷ cs)) none vout db filed own = pure-Keeps tt db filed
  of_parts-Keeps rows u (some (c ∷ cs)) (some txid) none db filed own = pure-Keeps tt db filed

reconcile_unspents-Keeps :
    (threshold : ℕ) (rows : List WalletAddress) (unspents : List (Draw × Unspent)) (db : Db)
    → IsFiled db
    → ((a : WalletAddress) → Member a rows → HasWallet a db)
    → RunKeeps db (reconcile_unspents threshold rows unspents)
unfolding reconcile_unspents reconcile_unspent
reconcile_unspents-Keeps threshold rows [] db filed own = pure-Keeps tt db filed
reconcile_unspents-Keeps threshold rows ((d, u) ∷ unspents) db filed own =
    bind-Keeps _ _ db (of_parts-Keeps threshold d rows u u.address u.txid u.vout db filed own)
      (λ x db' filed' books.
        reconcile_unspents-Keeps threshold rows unspents db' filed'
          (λ a m. rw (books.same_wallets a.wallet_id) (own a m)))

list_and_reconcile-Keeps :
    (threshold : ℕ) (listunspent : List WalletAddress → List (Draw × Unspent))
    (rows : List WalletAddress) (db : Db)
    → IsFiled db
    → ((a : WalletAddress) → Member a rows → HasWallet a db)
    → RunKeeps db (list_and_reconcile threshold listunspent rows)
list_and_reconcile-Keeps threshold listunspent [] db filed own = pure-Keeps tt db filed
list_and_reconcile-Keeps threshold listunspent (a ∷ rows) db filed own =
    reconcile_unspents-Keeps threshold (a ∷ rows) (listunspent (a ∷ rows)) db filed own

-- Reconciling the deposits, on tables with unique keys and valid foreign keys and with nothing uncommitted,
-- whatever outputs the node lists, repeated or not, and whether it returns or raises: keys stay unique and
-- valid, no output has two deposits, and the on-chain balance of every wallet, and its deposits in the
-- history, have grown by exactly the amounts of the deposits that were credited; no wallet came or went, and
-- nothing is left uncommitted if it returned.
pub reconcile_deposits-Keeps :
    (threshold : ℕ) (listunspent : List WalletAddress → List (Draw × Unspent)) (db : Db)
    → IsFiled db
    → RunKeeps db (reconcile_deposits threshold listunspent)
unfolding reconcile_deposits list_imported_wallet_addresses ◌>>=◌ query
reconcile_deposits-Keeps threshold listunspent db filed =
    list_and_reconcile-Keeps threshold listunspent
      (select_where (λ a. a.imported_to_node) db.addresses) db filed
      (λ a m. filed.address_wallet a (Member-select_where _ _ a m))
