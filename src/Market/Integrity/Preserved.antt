-- ===== src/Market/Integrity/Preserved.antt =====
-- Sequences of the writing operations of services/marketplace/db.py: the tables and the supply.
use tokenization.Common.{ℕ, ◌≡◌, ◌∙◌, refl, ◌||◌, true, Option, none, some, List, [], ◌∷◌, Member}
use tokenization.Database.Model.{
  Text, Order, Trade, Escrow, TokenBalance, Wallet, NostrIdentity, Db,
}
use tokenization.Database.Tx.{Result, ok, err, Conn, Tx, ◌>>◌, pure}
use tokenization.Database.Tx.Rules.{Ensures-pure, Ensures-bind, Ensures-attempt, Returned}
use tokenization.Database.Tx.Atomic.{AllOrNothing}
use tokenization.Market.Keys.{Keys}
use tokenization.Market.Orders.{validate_trade_inputs}
use tokenization.Market.Balances.{get_wallet_by_user_id}
use tokenization.Market.Trading.{
  Stamp, get_nostr_identity_by_user_id, seed_or_raise, pubkey_of, resolve_escrow_pubkey,
  platform_escrow_pubkey, create_trade_escrow, settle_trade,
}
use tokenization.Market.Escrows.{is_funded, is_inspection_pending}
use tokenization.Market.Operation.{Operation, perform}
use tokenization.Market.Atomicity.{perform-AllOrNothing}
use tokenization.Market.Integrity.{supply, IsSound, IsKept}
use tokenization.Market.Integrity.Leaves.{same_tables, Leaves, leave_rules}
use tokenization.Database.Tx.Moves.{Moves-or_raise}
use tokenization.Market.Integrity.Matching.{after-Leaves, lock_trade-IsKept, move_funds-IsKept}
use tokenization.Market.Integrity.Closing.{
  Keeps, mark_escrow_funded-IsKept, record_escrow_signature-IsKept, process_escrow_signature-IsKept,
}
use tokenization.Market.Integrity.Disputing.{
  expire_unfunded_escrow-IsKept, open_dispute-IsKept, resolve_dispute-IsKept,
}

-- What the rows that a caller passes in have in common with the tables: they were read from them,
-- and what has changed since are not the columns named here.
abbrev pub Fits : Operation → Db → Type 0
Fits (Operation.signs now e role path r m) db =
    (is_funded e.status || is_inspection_pending e.status) ≡ true
Fits (Operation.releases s x y b o c txid m) db =
    (e : Escrow) → Member e db.escrows → e.id ≡ x.id → e.trade_id ≡ y.id
Fits (Operation.expires s y x b o) db =
    ((e : Escrow) → Member e db.escrows → e.id ≡ x.id → e.trade_id ≡ y.id)
    × ((t : Trade)
        → Member t db.trades
        → t.id ≡ y.id
        → (t.token_id ≡ y.token_id) × (t.quantity ≡ y.quantity))
Fits _ db = Unit

validate_trade_inputs-Leaves :
    (b o : Order) (quantity price : ℕ) → Leaves (validate_trade_inputs b o quantity price)
unfolding validate_trade_inputs
validate_trade_inputs-Leaves b o quantity price = search leave_rules depth 40

seed_or_raise-Leaves : (w : Wallet) (t : Text) → Leaves (seed_or_raise w t)
seed_or_raise-Leaves w [] = search leave_rules depth 40
seed_or_raise-Leaves w (c ∷ cs) = search leave_rules depth 40

pubkey_of-Leaves : (k : Keys) (u : ℕ) (i : Option NostrIdentity) → Leaves (pubkey_of k u i)
unfolding get_wallet_by_user_id
pubkey_of-Leaves k u (some i) = search leave_rules depth 40
pubkey_of-Leaves k u none = search (leave_rules, seed_or_raise-Leaves) depth 40

resolve_escrow_pubkey-Leaves : (k : Keys) (u : ℕ) → Leaves (resolve_escrow_pubkey k u)
unfolding resolve_escrow_pubkey get_nostr_identity_by_user_id
resolve_escrow_pubkey-Leaves k u = search (leave_rules, pubkey_of-Leaves) depth 40

platform_escrow_pubkey-Leaves : (t : Text) → Leaves (platform_escrow_pubkey t)
platform_escrow_pubkey-Leaves [] = search leave_rules depth 40
platform_escrow_pubkey-Leaves (c ∷ cs) = search leave_rules depth 40

module _ (token : ℕ) (T : List Trade) (E : List Escrow) (B : List TokenBalance)
    (sound : IsSound T E B) where
  pub create_trade_escrow-IsKept :
      (s : Stamp) (b o : Order) (quantity price fee : ℕ) (k : Keys)
      → Keeps token T E B sound (create_trade_escrow s b o quantity price fee k)
  unfolding create_trade_escrow
  create_trade_escrow-IsKept s b o quantity price fee k =
      after-Leaves T E B _ _ (validate_trade_inputs-Leaves b o quantity price) (λ _.
        after-Leaves T E B _ _ (resolve_escrow_pubkey-Leaves k b.user_id) (λ buyer.
          after-Leaves T E B _ _ (resolve_escrow_pubkey-Leaves k o.user_id) (λ seller.
            after-Leaves T E B _ _ (platform_escrow_pubkey-Leaves k.platform_pubkey) (λ platform.
              after-Leaves T E B _ _ (Moves-or_raise _ _) (λ script.
                Ensures-attempt _ (
                  lock_trade-IsKept token s b o quantity price fee T E B sound k buyer seller
                    _))))))

  settle_trade-IsKept :
      (s : Stamp) (b o : Order) (quantity price fee : ℕ)
      → Keeps token T E B sound (settle_trade s b o quantity price fee)
  unfolding settle_trade
  settle_trade-IsKept s b o quantity price fee =
      after-Leaves T E B _ _ (validate_trade_inputs-Leaves b o quantity price)
        (λ _. Ensures-attempt _ (move_funds-IsKept token s b o quantity price fee T E B sound))

  -- The result is dropped.
  dropped :
      {A : Type 0} (m : Tx A) → Keeps token T E B sound m → Keeps token T E B sound (m >> pure tt)
  dropped m h = Ensures-bind _ _ _ h (λ _. Ensures-pure tt (λ db k. k))

perform-Ensures :
    (token : ℕ) (db : Db) (sound : IsSound db.trades db.escrows db.balances) (op : Operation)
    → Fits op db
    → Keeps token db.trades db.escrows db.balances sound (perform op)
unfolding perform
perform-Ensures token db sound (Operation.locks k s b o q p f) fits =
    dropped token _ _ _ sound _ (create_trade_escrow-IsKept token _ _ _ sound s b o q p f k)
perform-Ensures token db sound (Operation.settles s b o q p f) fits =
    dropped token _ _ _ sound _ (settle_trade-IsKept token _ _ _ sound s b o q p f)
perform-Ensures token db sound (Operation.funds now t x m) fits =
    dropped token _ _ _ sound _ (mark_escrow_funded-IsKept token _ _ _ sound now t x m)
perform-Ensures token db sound (Operation.signs now e role path r m) fits =
    dropped token _ _ _ sound _
      (record_escrow_signature-IsKept token _ _ _ sound now e role path r m fits)
perform-Ensures token db sound (Operation.releases s e t b o c x m) fits =
    dropped token _ _ _ sound _
      (process_escrow_signature-IsKept token _ _ _ sound s e t b o c x m fits)
perform-Ensures token db sound (Operation.expires s t e b o) fits =
    dropped token _ _ _ sound _
      (expire_unfunded_escrow-IsKept token _ _ _ sound s t e b o fits.0 fits.1)
perform-Ensures token db sound (Operation.disputes s t u r) fits =
    dropped token _ _ _ sound _ (open_dispute-IsKept token _ _ _ sound s t u r)
perform-Ensures token db sound (Operation.resolves s t u r x c m) fits =
    dropped token _ _ _ sound _ (resolve_dispute-IsKept token _ _ _ sound s t u r x c m)

-- Nothing is uncommitted, and the tables are sound.
pub record IsSettled (c : Conn) : Type 0 where
  pub clean : c.current ≡ c.committed
  pub sound : IsSound c.current.trades c.current.escrows c.current.balances

-- The supply of every token is the same.
abbrev pub SameSupply : Conn → Conn → Type 0
SameSupply c d = (token : ℕ) → supply token d.current ≡ supply token c.current

pub IsSettled-of :
    {A : Type 0} (m : Tx A) (c : Conn) (settled : IsSettled c)
    → AllOrNothing c (m c).0 (m c).1
    → ((token : ℕ)
        → Keeps token c.current.trades c.current.escrows c.current.balances settled.sound m)
    → IsSettled (m c).1 × SameSupply c (m c).1
IsSettled-of m c settled atomic keeps =
    ended (m c).0 (m c).1 atomic (λ token. (keeps token).at c (refl, refl, refl))
  where
    ended :
        {A : Type 0} (r : Result A) (d : Conn)
        → AllOrNothing c r d
        → ((token : ℕ) → Returned (λ _ db. IsKept token (supply token c.current) db) r d)
        → IsSettled d × SameSupply c d
    ended (ok a) d clean kept =
        (record { clean = clean; sound = (kept 0).sound }, λ token. (kept token).supplied)
    ended (err e) d same kept = (rw same settled, λ token. rw same refl)

-- An operation that starts with nothing uncommitted and sound tables, on rows that fit them, ends
-- so whether it returns or raises, and the supply of every token is unchanged.
pub perform-IsSettled :
    (op : Operation) (c : Conn)
    → IsSettled c
    → Fits op c.current
    → IsSettled (perform op c).1 × SameSupply c (perform op c).1
perform-IsSettled op c settled fits =
    IsSettled-of (perform op) c settled (perform-AllOrNothing op c settled.clean)
      (λ token. perform-Ensures token c.current settled.sound op fits)

-- The connections that operations reach, one after another; those that raise count too.
pub data Reaches (c : Conn) : Conn → Type 0 where
  start : Reaches c c
  next :
      {d : Conn} → Reaches c d → (op : Operation) → Fits op d.current → Reaches c (perform op d).1

-- Whatever sequence of operations runs from sound tables with nothing uncommitted, on rows that fit
-- the tables when each starts, the tables stay sound, every escrow's status goes with its trade's,
-- and each token's supply, in balances and in unfinished trades, stays what it was.
pub Reaches-IsSettled : (c d : Conn) → IsSettled c → Reaches c d → IsSettled d × SameSupply c d
Reaches-IsSettled c _ settled Reaches.start = (settled, λ token. refl)
Reaches-IsSettled c _ settled (Reaches.next {d} before op fits) =
    let (s, same) = Reaches-IsSettled c d settled before in
    let (t, kept) = perform-IsSettled op d s fits in (t, λ token. kept token ∙ same token)
