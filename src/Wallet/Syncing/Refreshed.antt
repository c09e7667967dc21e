-- ===== src/Wallet/Syncing/Refreshed.antt =====
-- Refreshing the Lightning balance of a wallet.
use tokenization.Common.{
  ℕ, ◌≤◌, ◌≡◌, ◌≢◌, refl, sym, ap, ◌∙◌, ◌⊎◌, inl, inr, ◌||◌, not, true, Option, none, some, List,
  [], ◌∷◌, ◌==◌, ==_refl, All, Member, arith, Bool-cases, if◌then◌else◌,
}
use tokenization.Common.Ordered.{select_where-Member}
use tokenization.Common.Table.{
  update_where, select_where, count_where, unique_row, Member-update_where,
}
use tokenization.Database.Rows.{Text, TransactionType, TransactionStatus, Transaction}
use tokenization.Database.Model.{Wallet}
use tokenization.Database.Tx.{Result, ok, Conn, ◌>>=◌, pure, query, modify, commit, Unit₀}
use tokenization.Wallet.Ledger.{
  is_wallet, update_transaction_status, list_pending_lightning_receives, awaits_payment,
  write_status, same_type, is_pending,
}
use tokenization.Wallet.Lightning.{
  write_lightning, update_lightning_balance, recompute_lightning_balance,
}
use tokenization.Wallet.Syncing.Totals.{lightning_difference, difference_same}
use tokenization.Wallet.Syncing.{
  Invoice, by_invoice, sync_receive, sync_receives, sync_wallet_lightning_state,
}

abbrev pub HasLightning : ℕ → ℕ → Wallet → Type 0
HasLightning wallet_id balance w = w.id ≡ wallet_id → w.lightning_balance_sat ≡ balance

-- What the node has told of the invoice of a row.
pub data Told (lookup_invoice : Text → Option Invoice) (row : Transaction)
    : TransactionStatus → Type 0 where
  settled :
      (hash : Text) (v : Invoice)
      → row.ln_payment_hash ≡ some hash
      → lookup_invoice hash ≡ some v
      → (v.state ≡ 1) ⊎ (v.settle_date ≢ 0)
      → Told lookup_invoice row TransactionStatus.confirmed
  cancelled :
      (hash : Text) (v : Invoice)
      → row.ln_payment_hash ≡ some hash
      → lookup_invoice hash ≡ some v
      → v.state ≡ 2
      → Told lookup_invoice row TransactionStatus.failed

-- An open receive of the wallet.
pub record IsOpen (wallet_id : ℕ) (row : Transaction) : Type 0 where
  pub own : row.wallet_id ≡ wallet_id
  pub kind : row.type_of ≡ TransactionType.ln_receive
  pub waits : row.status ≡ TransactionStatus.pending

-- A row that was there before, of which at most the status and its time have changed; if the status has, the row
-- was an open receive of the wallet, and the node has told so.
pub record IsSynced (lookup_invoice : Text → Option Invoice) (wallet_id : ℕ)
    (before : List Transaction) (t : Transaction) : Type 0 where
  pub row : Transaction
  pub found : Member row before
  pub only_status : t ≡ record row { status = t.status; confirmed_at = t.confirmed_at }
  pub change : (t.status ≡ row.status) ⊎ (IsOpen wallet_id row × Told lookup_invoice row t.status)

-- The answer is the difference, which is in every row of the wallet, the rows of the history are as the node
-- has told, and all is committed.
pub record IsRefreshed (lookup_invoice : Text → Option Invoice) (wallet_id : ℕ)
    (before : List Transaction) (r : Result ℕ) (c : Conn) : Type 0 where
  pub history :
      (t : Transaction)
      → Member t c.committed.transactions
      → IsSynced lookup_invoice wallet_id before t
  pub answer : r ≡ ok (lightning_difference wallet_id c.committed)
  pub written :
      All (HasLightning wallet_id (lightning_difference wallet_id c.committed)) c.committed.wallets
  pub rest : c.current ≡ c.committed

written-All :
    (now wallet_id balance : ℕ) (xs : List Wallet)
    → All
        (HasLightning wallet_id balance)
        (update_where (is_wallet wallet_id) (write_lightning now balance) xs)
unfolding update_where
written-All now wallet_id balance [] = tt
written-All now wallet_id balance (x ∷ xs) = (ground arith, written-All now wallet_id balance xs)

module _ (now : ℕ) (lookup_invoice : Text → Option Invoice) (wallet_id : ℕ)
    (before : List Transaction) (keys : (k : ℕ) → count_where (λ t. t.id == k) before ≤ 1) where
  abbrev AreSynced : List Transaction → Type 0
  AreSynced xs = (t : Transaction) → Member t xs → IsSynced lookup_invoice wallet_id before t

  recompute_lightning_balance-IsRefreshed :
      (c : Conn)
      → AreSynced c.current.transactions
      → let (r, c') = recompute_lightning_balance now wallet_id c in
        IsRefreshed lookup_invoice wallet_id before r c'
  unfolding recompute_lightning_balance update_lightning_balance ◌>>=◌ query modify commit pure
  recompute_lightning_balance-IsRefreshed c synced =
      let same = difference_same wallet_id c.current in
      record {
        history = synced;
        answer = rw same refl;
        written = rw same (
            written-All now wallet_id (lightning_difference wallet_id c.current) c.current.wallets);
        rest = refl;
      }

  module _ (row : Transaction) (there : Member row before) (open_row : IsOpen wallet_id row) where
    -- A status that the node has told is written.
    module _ (status : TransactionStatus) (at : Option ℕ)
        (told : Told lookup_invoice row status) where
      status_written :
          (t old : Transaction)
          → (old.id == row.id) ≡ true
          → t ≡ write_status status at old
          → IsSynced lookup_invoice wallet_id before old
          → IsSynced lookup_invoice wallet_id before t
      status_written t old hit e from =
          let ids : old.id ≡ from.row.id = ap (λ x. x.id) from.only_status in
          let same_id : (from.row.id == row.id) ≡ true = rw (← ids) hit in
          let same : from.row ≡ row =
            unique_row (λ x. x.id == row.id) before from.row row (keys row.id) from.found there
              same_id (==_refl row.id) in
          let of_row : old ≡ record row { status = old.status; confirmed_at = old.confirmed_at } =
            from.only_status
            ∙ ap {A = Transaction} {B = Transaction}
                (λ x. record x { status = old.status; confirmed_at = old.confirmed_at }) same in
          record {
            row = row;
            found = there;
            only_status =
                (e ∙ ap (write_status status at) of_row)
                ∙ ap {A = Transaction} {B = Transaction}
                    (λ y. record row { status = y.status; confirmed_at = y.confirmed_at }) (sym e);
            change = inr (open_row, rw e told);
          }

      statuses_written :
          (xs : List Transaction)
          → AreSynced xs
          → AreSynced (update_where (λ t. t.id == row.id) (write_status status at) xs)
      statuses_written xs from t m =
          let o = Member-update_where (λ x. x.id == row.id) (write_status status at) xs t m in
          elim o.change [
            | inl (hit, e) ↦ status_written t o.row hit e (from o.row o.found)
            | inr (miss, e) ↦ rw e (from o.row o.found)
          ]

    -- The step returned, and all rows are accounted for.
    record IsStep (r : Result Unit₀) (c : Conn) : Type 0 where
      pub returned : r ≡ ok tt
      pub rows : AreSynced c.current.transactions

    by_invoice-IsStep :
        (hash : Text) (o : Option Invoice) (c : Conn)
        → row.ln_payment_hash ≡ some hash
        → lookup_invoice hash ≡ o
        → AreSynced c.current.transactions
        → let (r, c') = by_invoice now row.id o c in IsStep r c'
    unfolding update_transaction_status ◌>>=◌ modify commit pure
    by_invoice-IsStep hash none c has answer from = record { returned = refl; rows = from }
    by_invoice-IsStep hash (some v) c has answer from =
        elim (Bool-cases (v.state == 1 || not (v.settle_date == 0))) [
          | inl e ↦
              let paid : (v.state ≡ 1) ⊎ (v.settle_date ≢ 0) = ground (arith, e) in
              rw e (record {
                returned = refl;
                rows =
                    statuses_written TransactionStatus.confirmed
                      (some (if v.settle_date == 0 then now else v.settle_date))
                      (settled hash v has answer paid) c.current.transactions from;
              })
          | inr e ↦ elim (Bool-cases (v.state == 2)) [
            | inl f ↦
                rw (e, f)
                  (record {
                    returned = refl;
                    rows =
                        statuses_written TransactionStatus.failed none
                          (cancelled hash v has answer (ground (arith, f))) c.current.transactions
                          from;
                  })
            | inr f ↦ rw (e, f) (record { returned = refl; rows = from })
          ]
        ]

    sync_receive-IsStep :
        (hash : Option Text) (c : Conn)
        → row.ln_payment_hash ≡ hash
        → AreSynced c.current.transactions
        → let (r, c') = sync_receive now lookup_invoice row.id hash c in IsStep r c'
    unfolding pure
    sync_receive-IsStep (some (x ∷ xs)) c has from =
        by_invoice-IsStep (x ∷ xs) (lookup_invoice (x ∷ xs)) c has refl from
    sync_receive-IsStep (some []) c has from = record { returned = refl; rows = from }
    sync_receive-IsStep none c has from = record { returned = refl; rows = from }

  -- The rows that were read are open receives of the wallet.
  abbrev AreOpen : List Transaction → Type 0
  AreOpen rows = All (λ t. Member t before × IsOpen wallet_id t) rows

  record IsSyncing (r : Result Unit₀) (c : Conn) : Type 0 where
    pub returned : r ≡ ok tt
    pub rows : AreSynced c.current.transactions

  sync_receives-IsSyncing :
      (rows : List Transaction) (c : Conn)
      → AreOpen rows
      → AreSynced c.current.transactions
      → let (r, c') = sync_receives now lookup_invoice rows c in IsSyncing r c'
  unfolding sync_receives ◌>>=◌ pure
  sync_receives-IsSyncing [] c opened from = record { returned = refl; rows = from }
  sync_receives-IsSyncing (row ∷ rows) c (first, others) from =
      let step = sync_receive-IsStep row first.0 first.1 row.ln_payment_hash c refl from in
      rw step.returned (sync_receives-IsSyncing rows _ others step.rows)

  awaits_payment-IsOpen : (t : Transaction) → awaits_payment wallet_id t ≡ true → IsOpen wallet_id t
  awaits_payment-IsOpen t h = record {
    own = ground (arith, h);
    kind = by_type t.type_of (ground (arith, h));
    waits = by_status t.status (ground (arith, h));
  }
    where
      by_type :
          (k : TransactionType)
          → same_type k TransactionType.ln_receive ≡ true
          → k ≡ TransactionType.ln_receive
      by_type k e = ground (arith, e)

      by_status : (s : TransactionStatus) → is_pending s ≡ true → s ≡ TransactionStatus.pending
      by_status s e = ground (arith, e)

  read-AreOpen : AreOpen (select_where (awaits_payment wallet_id) before)
  read-AreOpen = from_members _ (λ t m.
      let (there, hit) = select_where-Member (awaits_payment wallet_id) t before m in
      (there, awaits_payment-IsOpen t hit))
    where
      from_members :
          (xs : List Transaction)
          → ((t : Transaction) → Member t xs → Member t before × IsOpen wallet_id t)
          → AreOpen xs
      from_members [] h = tt
      from_members (x ∷ xs) h = (h x (inl refl), from_members xs (λ t m. h t (inr m)))

-- On a history with unique keys, whatever the node answers about the open invoices: refreshing a wallet returns
-- what its confirmed Lightning receives exceed its confirmed sends by, or 0 if they do not, and every row of
-- the wallet has that Lightning balance; each row of the history is one from before, and has its old status, or
-- was an open receive of the wallet that is now confirmed, and whose invoice the node has as settled, or that
-- has now failed, and whose invoice the node has as cancelled; and nothing is left uncommitted.
pub sync_wallet_lightning_state-IsRefreshed :
    (now wallet_id : ℕ) (lookup_invoice : Text → Option Invoice) (c : Conn)
    → ((k : ℕ) → count_where (λ t. t.id == k) c.current.transactions ≤ 1)
    → let (r, c') = sync_wallet_lightning_state now lookup_invoice wallet_id c in
      IsRefreshed lookup_invoice wallet_id c.current.transactions r c'
unfolding sync_wallet_lightning_state list_pending_lightning_receives ◌>>=◌ query
sync_wallet_lightning_state-IsRefreshed now wallet_id lookup_invoice c keys =
    let before = c.current.transactions in
    let synced =
      sync_receives-IsSyncing now lookup_invoice wallet_id before keys
        (select_where (awaits_payment wallet_id) before) c
        (read-AreOpen now lookup_invoice wallet_id before keys)
        (λ t m. record { row = t; found = m; only_status = refl; change = inl refl }) in
    rw synced.returned (
      recompute_lightning_balance-IsRefreshed now lookup_invoice wallet_id before keys _
        synced.rows)
