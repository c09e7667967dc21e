-- ===== src/Wallet/Books/Steps.antt =====
-- What the single writes of the reconciliation do to the books.
use tokenization.Common.{
  ℕ, ◌+◌, ◌≤◌, ◌≡◌, refl, inl, inr, Bool, true, List, [], ◌∷◌, ◌++◌, arith, ◌==◌, if◌then◌else◌,
  Bool-cases, ==_iff, Member,
}
use tokenization.Common.Table.{
  sum_by, count_where, update_where, count_where-update_where, count_where-append, sum_by-append,
  sum_by-update_same, Member-update_where, Member-append_one, count_where_mono,
}
use tokenization.Common.Sums.{sum_by-update_more}
use tokenization.Database.Rows.{Text, same_text_eq, DepositStatus, Transaction, Deposit}
use tokenization.Database.Model.{Wallet, Db}
use tokenization.Wallet.Ledger.{is_wallet, update_wallets, plus_onchain}
use tokenization.Wallet.Reconcile.{
  update_deposits, Draw, is_output, creditable, mark_credited, deposit_row,
}
use tokenization.Wallet.Books.{
  onchain_of, credited_of, shown_of, onchain, credited, shown, SameBooks, has_deposit_id, IsFiled,
}

same_output :
    (row : Deposit) (t : Text) (v : ℕ)
    → is_output t v row ≡ true
    → is_output row.txid row.vout ≡ is_output t v
same_output row t v e =
    let texts : row.txid ≡ t = same_text_eq row.txid t (ground arith) in
    let indices : row.vout ≡ v = ground arith in rw (texts, indices)

pub SameBooks_refl : (db : Db) → SameBooks db db
SameBooks_refl db = record { balance = λ k. refl; history = λ k. refl; same_wallets = λ k. refl }

pub SameBooks_trans : (a b c : Db) → SameBooks a b → SameBooks b c → SameBooks a c
SameBooks_trans a b c x y = record {
  balance = λ k. omega (arith, x.balance k, y.balance k);
  history = λ k. omega (arith, x.history k, y.history k);
  same_wallets = λ k. omega (arith, x.same_wallets k, y.same_wallets k);
}

module _ (db : Db) (filed : IsFiled db) where
  -- An update of deposits that keeps their keys.
  pub update_deposits-IsFiled :
      (p : Deposit → Bool) (g : Deposit → Deposit)
      → ((d : Deposit) → (g d).id ≡ d.id)
      → ((d : Deposit) → (g d).wallet_id ≡ d.wallet_id)
      → ((d : Deposit) → (g d).txid ≡ d.txid)
      → ((d : Deposit) → (g d).vout ≡ d.vout)
      → IsFiled (update_deposits p g db)
  update_deposits-IsFiled p g g_id g_wallet g_txid g_vout = record {
    wallet_key = filed.wallet_key;
    deposit_key = λ i.
        rw (count_where-update_where (has_deposit_id i) p g db.deposits (λ d. rw (g_id d)))
          (filed.deposit_key i);
    output_key = λ t v.
        rw (count_where-update_where (is_output t v) p g db.deposits (λ d. rw (g_txid d, g_vout d)))
          (filed.output_key t v);
    deposit_wallet = λ d m.
        let o = Member-update_where p g db.deposits d m in
        elim o.change [
          | inl (hit, d_eq) ↦ rw (d_eq, g_wallet o.row) (filed.deposit_wallet o.row o.found)
          | inr (miss, d_eq) ↦ rw d_eq (filed.deposit_wallet o.row o.found)
        ];
    address_wallet = filed.address_wallet;
  }

  same_count :
      (p : Wallet → Bool) (g : Wallet → Wallet)
      → ((w : Wallet) → (g w).id ≡ w.id)
      → (k : ℕ)
      → count_where (is_wallet k) (update_where p g db.wallets)
        ≡ count_where (is_wallet k) db.wallets
  same_count p g g_id k = count_where-update_where (is_wallet k) p g db.wallets (λ w. rw (g_id w))

  -- An update of wallets that keeps their keys.
  pub update_wallets-IsFiled :
      (p : Wallet → Bool) (g : Wallet → Wallet)
      → ((w : Wallet) → (g w).id ≡ w.id)
      → IsFiled (update_wallets p g db)
  update_wallets-IsFiled p g g_id = record {
    wallet_key = λ k. rw (same_count p g g_id k) (filed.wallet_key k);
    deposit_key = filed.deposit_key;
    output_key = filed.output_key;
    deposit_wallet = λ d m. rw (same_count p g g_id d.wallet_id) (filed.deposit_wallet d m);
    address_wallet = λ a m. rw (same_count p g g_id a.wallet_id) (filed.address_wallet a m);
  }

  pub add_transaction-IsFiled :
      (t : Transaction) → IsFiled (record db { transactions = db.transactions ++ t ∷ [] })
  add_transaction-IsFiled t = record {
    wallet_key = filed.wallet_key;
    deposit_key = filed.deposit_key;
    output_key = filed.output_key;
    deposit_wallet = filed.deposit_wallet;
    address_wallet = filed.address_wallet;
  }

  pub note-SameBooks :
      (i n : ℕ)
      → SameBooks db (update_deposits (λ d. d.id == i) (λ d. record d { confirmations = n }) db)
  note-SameBooks i n =
      let same : (k : ℕ)
          → credited k (update_deposits (λ d. d.id == i) (λ d. record d { confirmations = n }) db)
            ≡ credited k db =
        λ k. sum_by-update_same (credited_of k) _ _ db.deposits (λ d. refl) in
      record {
        balance = λ k. rw (same k) refl;
        history = λ k. rw (same k) refl;
        same_wallets = λ k. refl;
      }

  -- The new row has a new identifier and a wallet, and is not credited.
  pub add_deposit-IsFiled :
      (row : Deposit)
      → count_where (has_deposit_id row.id) db.deposits ≡ 0
      → count_where (is_output row.txid row.vout) db.deposits ≡ 0
      → 1 ≤ count_where (is_wallet row.wallet_id) db.wallets
      → IsFiled (record db { deposits = db.deposits ++ row ∷ [] })
  unfolding count_where
  add_deposit-IsFiled row fresh new_output own = record {
    wallet_key = filed.wallet_key;
    deposit_key = λ i.
        rw (count_where-append (has_deposit_id i) db.deposits (row ∷ []))
          (elim (Bool-cases (row.id == i)) [
            | inl e ↦
                let same : row.id ≡ i = (==_iff row.id i).0 e in
                let z : count_where (has_deposit_id i) db.deposits ≡ 0 = rw (← same) fresh in
                rw e (omega arith)
            | inr e ↦ rw e (omega (arith, filed.deposit_key i))
          ]);
    output_key = λ t v.
        rw (count_where-append (is_output t v) db.deposits (row ∷ []))
          (elim (Bool-cases (is_output t v row)) [
            | inl e ↦
                let z : count_where (is_output t v) db.deposits ≡ 0 =
                  rw (← same_output row t v e) new_output in
                rw e (omega arith)
            | inr e ↦ rw e (omega (arith, filed.output_key t v))
          ]);
    deposit_wallet = λ d m. elim (Member-append_one db.deposits row d m) [
      | inl old ↦ filed.deposit_wallet d old
      | inr new ↦ rw new own
    ];
    address_wallet = filed.address_wallet;
  }

  pub add_deposit-SameBooks :
      (row : Deposit)
      → row.status ≡ DepositStatus.pending
      → SameBooks db (record db { deposits = db.deposits ++ row ∷ [] })
  unfolding sum_by
  add_deposit-SameBooks row st =
      let same : (k : ℕ)
          → sum_by (credited_of k) (db.deposits ++ row ∷ []) ≡ sum_by (credited_of k) db.deposits =
        λ k. rw (sum_by-append (credited_of k) db.deposits (row ∷ []), st) (ground arith) in
      record {
        balance = λ k. rw (same k) refl;
        history = λ k. rw (same k) refl;
        same_wallets = λ k. refl;
      }

-- A deposit that is not credited yet is marked, its amount is added to its wallet, and its row to the
-- history.
abbrev pub after_credit : Draw → ℕ → ℕ → List ℕ → ℕ → ℕ → Db → Db
after_credit d i w txid amount n db =
    let marked = update_deposits (creditable i) (mark_credited d.now n) db in
    let paid = update_wallets (is_wallet w) (plus_onchain d.now amount) marked in
    record paid { transactions = paid.transactions ++ deposit_row d w txid amount ∷ [] }

-- The deposit `i` is the wallet's, and of that amount.
abbrev pub IsDeposit : ℕ → ℕ → ℕ → Db → Type 0
IsDeposit i w amount db =
    (d : Deposit) → Member d db.deposits → d.id ≡ i → (d.wallet_id ≡ w) × (d.amount_sat ≡ amount)

module _ (d : Draw) (i w : ℕ) (txid : List ℕ) (amount n : ℕ) (db : Db) (filed : IsFiled db)
    (known : IsDeposit i w amount db) (own : 1 ≤ count_where (is_wallet w) db.wallets)
    (open_row : 1 ≤ count_where (creditable i) db.deposits) where
  pub credit-IsFiled : IsFiled (after_credit d i w txid amount n db)
  credit-IsFiled =
      add_transaction-IsFiled _
        (update_wallets-IsFiled _
          (update_deposits-IsFiled db filed (creditable i) (mark_credited d.now n) (λ x. refl)
            (λ x. refl) (λ x. refl) (λ x. refl))
          (is_wallet w) (plus_onchain d.now amount) (λ x. refl))
        (deposit_row d w txid amount)

  one_row : count_where (creditable i) db.deposits ≡ 1
  one_row = omega (
    arith,
    filed.deposit_key i,
    count_where_mono (creditable i) (has_deposit_id i) db.deposits (λ x e. ground arith),
  )

  one_wallet : count_where (is_wallet w) db.wallets ≡ 1
  one_wallet = omega (arith, filed.wallet_key w)

  share : ℕ → ℕ
  share k = if w == k then amount else 0

  onchain_more : (k : ℕ) → onchain k (after_credit d i w txid amount n db) ≡ onchain k db + share k
  unfolding share
  onchain_more k =
      let more =
        sum_by-update_more (onchain_of k) (is_wallet w) (plus_onchain d.now amount) (share k)
          db.wallets (λ x m e. ground arith) in
      omega (arith, rw one_wallet at more)

  credited_more :
      (k : ℕ) → credited k (after_credit d i w txid amount n db) ≡ credited k db + share k
  unfolding share
  credited_more k =
      let more =
        sum_by-update_more (credited_of k) (creditable i) (mark_credited d.now n) (share k)
          db.deposits (λ x m e. ground (arith, known x m)) in
      omega (arith, rw one_row at more)

  shown_more : (k : ℕ) → shown k (after_credit d i w txid amount n db) ≡ shown k db + share k
  unfolding share sum_by
  shown_more k =
      rw (sum_by-append (shown_of k) db.transactions (deposit_row d w txid amount ∷ []))
        (ground arith)

  pub credit-SameBooks : SameBooks db (after_credit d i w txid amount n db)
  credit-SameBooks = record {
    balance = λ k. omega (arith, onchain_more k, credited_more k);
    history = λ k. omega (arith, shown_more k, credited_more k);
    same_wallets = λ k.
        count_where-update_where (is_wallet k) (is_wallet w) (plus_onchain d.now amount) db.wallets
          (λ x. refl);
  }
