-- ===== src/Market/Atomicity.antt =====
-- Atomicity of the writing operations.
use Prim.Native.String.{String}
use tokenization.Common.{ℕ, ◌≡◌, Option, none, some, [], ◌∷◌}
use tokenization.Database.Model.{
  Text, Resolution, Order, Trade, Escrow, Metadata, Signatures, SignatureRecord, NostrIdentity,
  Wallet,
}
use tokenization.Database.Tx.{Conn}
use tokenization.Database.Tx.Atomic.{
  Reads, AllOrNothing, IsAtomic, IsAtomic-then, read_rules, atomic_rules,
}
use tokenization.Market.Pending.{step_rules}
use tokenization.Market.Keys.{Keys}
use tokenization.Market.Orders.{validate_trade_inputs}
use tokenization.Market.Balances.{get_wallet_by_user_id}
use tokenization.Market.Trading.{
  Stamp, lock_trade, create_trade_escrow, move_funds, deliver, settle_trade, resolve_escrow_pubkey,
  pubkey_of, seed_or_raise, platform_escrow_pubkey,
}
use tokenization.Market.Escrows.{
  mark_escrow_funded, record_escrow_signature, process_escrow_signature, expire_unfunded_escrow,
}
use tokenization.Market.Disputes.{open_dispute, resolve_dispute}
use tokenization.Market.Operation.{Operation, perform}

validate_trade_inputs-Reads : (b s : Order) (q p : ℕ) → Reads (validate_trade_inputs b s q p)
unfolding validate_trade_inputs
validate_trade_inputs-Reads b s q p = search read_rules depth 40

get_wallet_by_user_id-Reads : (u : ℕ) → Reads (get_wallet_by_user_id u)
unfolding get_wallet_by_user_id
get_wallet_by_user_id-Reads u = search read_rules depth 40

seed_or_raise-Reads : (w : Wallet) (t : Text) → Reads (seed_or_raise w t)
seed_or_raise-Reads w [] = search read_rules depth 40
seed_or_raise-Reads w (_ ∷ _) = search read_rules depth 40

pubkey_of-Reads : (k : Keys) (u : ℕ) (i : Option NostrIdentity) → Reads (pubkey_of k u i)
pubkey_of-Reads k u none =
    search (read_rules, get_wallet_by_user_id-Reads, seed_or_raise-Reads) depth 40
pubkey_of-Reads k u (some i) = search read_rules depth 40

pub resolve_escrow_pubkey-Reads : (k : Keys) (u : ℕ) → Reads (resolve_escrow_pubkey k u)
unfolding resolve_escrow_pubkey
resolve_escrow_pubkey-Reads k u = search (read_rules, pubkey_of-Reads) depth 40

pub platform_escrow_pubkey-Reads : (t : Text) → Reads (platform_escrow_pubkey t)
platform_escrow_pubkey-Reads [] = search read_rules depth 40
platform_escrow_pubkey-Reads (_ ∷ _) = search read_rules depth 40

ruleset operation_rules = (
  atomic_rules, step_rules, read_rules, validate_trade_inputs-Reads, resolve_escrow_pubkey-Reads,
  platform_escrow_pubkey-Reads,
)

pub create_trade_escrow-IsAtomic :
    (s : Stamp) (b o : Order) (q p f : ℕ) (k : Keys) → IsAtomic (create_trade_escrow s b o q p f k)
unfolding create_trade_escrow lock_trade
create_trade_escrow-IsAtomic s b o q p f k = search operation_rules depth 40

settle_trade-IsAtomic : (s : Stamp) (b o : Order) (q p f : ℕ) → IsAtomic (settle_trade s b o q p f)
unfolding settle_trade move_funds deliver
settle_trade-IsAtomic s b o q p f = search operation_rules depth 40

mark_escrow_funded-IsAtomic :
    (now t : ℕ) (x : Text) (m : Metadata) → IsAtomic (mark_escrow_funded now t x m)
unfolding mark_escrow_funded
mark_escrow_funded-IsAtomic now t x m = search operation_rules depth 40

record_escrow_signature-IsAtomic :
    (now : ℕ) (e : Escrow) (role path : String) (r : SignatureRecord) (m : Metadata)
    → IsAtomic (record_escrow_signature now e role path r m)
unfolding record_escrow_signature
record_escrow_signature-IsAtomic now e role path r m = search operation_rules depth 40

process_escrow_signature-IsAtomic :
    (s : Stamp) (e : Escrow) (t : Trade) (b o : Order) (c : Signatures) (x : Text) (m : Metadata)
    → IsAtomic (process_escrow_signature s e t b o c x m)
unfolding process_escrow_signature
process_escrow_signature-IsAtomic s e t b o c x m = search operation_rules depth 40

expire_unfunded_escrow-IsAtomic :
    (s : Stamp) (t : Trade) (e : Escrow) (b o : Order) → IsAtomic (expire_unfunded_escrow s t e b o)
unfolding expire_unfunded_escrow
expire_unfunded_escrow-IsAtomic s t e b o = search operation_rules depth 40

open_dispute-IsAtomic : (s : Stamp) (t u : ℕ) (r : Text) → IsAtomic (open_dispute s t u r)
unfolding open_dispute
open_dispute-IsAtomic s t u r = search operation_rules depth 40

resolve_dispute-IsAtomic :
    (s : Stamp) (t u : ℕ) (r : Resolution) (x : Text) (c : Signatures) (m : Metadata)
    → IsAtomic (resolve_dispute s t u r x c m)
unfolding resolve_dispute
resolve_dispute-IsAtomic s t u r x c m = search operation_rules depth 40

perform-IsAtomic : (op : Operation) → IsAtomic (perform op)
unfolding perform
perform-IsAtomic (Operation.locks k s b o q p f) =
    IsAtomic-then _ (create_trade_escrow-IsAtomic s b o q p f k)
perform-IsAtomic (Operation.settles s b o q p f) =
    IsAtomic-then _ (settle_trade-IsAtomic s b o q p f)
perform-IsAtomic (Operation.funds now t x m) =
    IsAtomic-then _ (mark_escrow_funded-IsAtomic now t x m)
perform-IsAtomic (Operation.signs now e role path r m) =
    IsAtomic-then _ (record_escrow_signature-IsAtomic now e role path r m)
perform-IsAtomic (Operation.releases s e t b o c x m) =
    IsAtomic-then _ (process_escrow_signature-IsAtomic s e t b o c x m)
perform-IsAtomic (Operation.expires s t e b o) =
    IsAtomic-then _ (expire_unfunded_escrow-IsAtomic s t e b o)
perform-IsAtomic (Operation.disputes s t u r) = IsAtomic-then _ (open_dispute-IsAtomic s t u r)
perform-IsAtomic (Operation.resolves s t u r x c m) =
    IsAtomic-then _ (resolve_dispute-IsAtomic s t u r x c m)

-- Every writing operation that starts with nothing uncommitted is all or nothing: if it raises, the
-- connection is exactly as before, and if it returns, all it wrote is committed.
pub perform-AllOrNothing :
    (op : Operation) (c : Conn)
    → c.current ≡ c.committed
    → AllOrNothing c (perform op c).0 (perform op c).1
perform-AllOrNothing op = (perform-IsAtomic op).at
