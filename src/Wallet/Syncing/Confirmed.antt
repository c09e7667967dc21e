-- ===== src/Wallet/Syncing/Confirmed.antt =====
-- Confirming withdrawals from what the node answers.
use tokenization.Common.{
  ℕ, ◌≤◌, ◌≡◌, refl, ◌⊎◌, inl, inr, arith, true, ◌&&◌, Option, none, some, List, [], ◌∷◌, ltb, ◌==◌,
  Bool-cases, Member,
}
use tokenization.Common.Table.{update_where, Member-update_where}
use tokenization.Database.Rows.{Text, TransactionStatus, Transaction}
use tokenization.Database.Tx.{Result, ok, Conn, ◌>>=◌, pure, query, modify, commit, Unit₀}
use tokenization.Wallet.Ledger.{
  has_text, write_status, update_transaction_status_by_txid, list_pending_onchain_withdrawals,
}
use tokenization.Wallet.Syncing.{
  by_confirmations, reconcile_withdrawal, reconcile_rows, reconcile_withdrawals,
}

module _ (threshold now : ℕ) (gettransaction : Text → Option ℕ) where
  -- The node has the transaction at the threshold.
  pub record IsDeep (t : Transaction) : Type 0 where
    pub txid : Text
    pub confirmations : ℕ
    pub named : has_text t.txid txid ≡ true
    pub answered : gettransaction txid ≡ some confirmations
    pub deep : threshold ≤ confirmations

  abbrev pub confirmed : Transaction → Transaction
  confirmed t = write_status TransactionStatus.confirmed (some now) t

  -- A row that was there before, or one that is confirmed now and at the threshold.
  pub record IsFrom (before : List Transaction) (t : Transaction) : Type 0 where
    pub row : Transaction
    pub found : Member row before
    pub change : (t ≡ row) ⊎ ((t ≡ confirmed row) × IsDeep row)

  abbrev AreFrom : List Transaction → List Transaction → Type 0
  AreFrom before after = (t : Transaction) → Member t after → IsFrom before t

  module _ (before : List Transaction) (wallet_id : ℕ) (txid : Text) (n : ℕ)
      (answer : gettransaction txid ≡ some n) (deep : threshold ≤ n) where
    confirm_one :
        (t old : Transaction)
        → (old.wallet_id == wallet_id && has_text old.txid txid) ≡ true
        → t ≡ confirmed old
        → IsFrom before old
        → IsFrom before t
    confirm_one t old hit e from = elim from.change [
      | inl same ↦
          let named : has_text from.row.txid txid ≡ true = rw (← same) (ground arith) in
          record {
            row = from.row;
            found = from.found;
            change = inr (
              rw (e, same) refl,
              record {
                txid = txid;
                confirmations = n;
                named = named;
                answered = answer;
                deep = deep;
              },
            );
          }
      | inr (twice, evidence) ↦ record {
        row = from.row;
        found = from.found;
        change = inr (rw (e, twice) refl, evidence);
      }
    ]

    confirm_all :
        (xs : List Transaction)
        → AreFrom before xs
        → AreFrom before
            (update_where (λ t. t.wallet_id == wallet_id && has_text t.txid txid) confirmed xs)
    confirm_all xs from t m =
        let o =
          Member-update_where (λ t. t.wallet_id == wallet_id && has_text t.txid txid) confirmed xs t
            m in
        elim o.change [
          | inl (hit, e) ↦ confirm_one t o.row hit e (from o.row o.found)
          | inr (miss, e) ↦ rw e (from o.row o.found)
        ]

  -- All rows are accounted for, and the operation returned.
  pub record IsConfirming (before : List Transaction) (r : Result Unit₀) (c : Conn) : Type 0 where
    pub returned : r ≡ ok tt
    pub rows : (t : Transaction) → Member t c.current.transactions → IsFrom before t

  module _ (before : List Transaction) where
    by_confirmations-IsConfirming :
        (wallet_id : ℕ) (txid : Text) (o : Option ℕ) (c : Conn)
        → gettransaction txid ≡ o
        → AreFrom before c.current.transactions
        → let (r, c') = by_confirmations threshold now wallet_id txid o c in
          IsConfirming before r c'
    unfolding update_transaction_status_by_txid ◌>>=◌ modify commit pure
    by_confirmations-IsConfirming wallet_id txid none c e from = record {
      returned = refl;
      rows = from;
    }
    by_confirmations-IsConfirming wallet_id txid (some n) c e from =
        elim (Bool-cases (ltb n threshold)) [
          | inl low ↦ rw low (record { returned = refl; rows = from })
          | inr deep ↦ rw deep (record {
            returned = refl;
            rows = confirm_all before wallet_id txid n e (ground arith) c.current.transactions from;
          })
        ]

    reconcile_withdrawal-IsConfirming :
        (wallet_id : ℕ) (txid : Option Text) (c : Conn)
        → AreFrom before c.current.transactions
        → let (r, c') = reconcile_withdrawal threshold now gettransaction wallet_id txid c in
          IsConfirming before r c'
    unfolding pure
    reconcile_withdrawal-IsConfirming wallet_id none c from = record {
      returned = refl;
      rows = from;
    }
    reconcile_withdrawal-IsConfirming wallet_id (some []) c from = record {
      returned = refl;
      rows = from;
    }
    reconcile_withdrawal-IsConfirming wallet_id (some (x ∷ xs)) c from =
        by_confirmations-IsConfirming wallet_id (x ∷ xs) (gettransaction (x ∷ xs)) c refl from

    reconcile_rows-IsConfirming :
        (pending : List Transaction) (c : Conn)
        → AreFrom before c.current.transactions
        → let (r, c') = reconcile_rows threshold now gettransaction pending c in
          IsConfirming before r c'
    unfolding reconcile_rows ◌>>=◌ pure
    reconcile_rows-IsConfirming [] c from = record { returned = refl; rows = from }
    reconcile_rows-IsConfirming (row ∷ pending) c from =
        let h = reconcile_withdrawal-IsConfirming row.wallet_id row.txid c from in
        rw h.returned (reconcile_rows-IsConfirming pending _ h.rows)

  -- The refresh of withdrawals returns whatever the node answers, and each row afterwards is one from
  -- before, or one from before that is now confirmed, and whose transaction the node has at the threshold of
  -- confirmations or deeper.
  pub reconcile_withdrawals-IsConfirming :
      (c : Conn)
      → let (r, c') = reconcile_withdrawals threshold now gettransaction c in
        IsConfirming c.current.transactions r c'
  unfolding reconcile_withdrawals list_pending_onchain_withdrawals ◌>>=◌ query
  reconcile_withdrawals-IsConfirming c =
      reconcile_rows-IsConfirming c.current.transactions _ c
        (λ t m. record { row = t; found = m; change = inl refl })
