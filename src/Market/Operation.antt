-- ===== src/Market/Operation.antt =====
-- The writing operations of services/marketplace/db.py as one type, for what holds of them all.
use Prim.Native.String.{String}
use tokenization.Common.{ℕ}
use tokenization.Database.Model.{
  Text, Resolution, Order, Trade, Escrow, Metadata, Signatures, SignatureRecord,
}
use tokenization.Database.Tx.{Tx, ◌>>◌, pure, Unit₀}
use tokenization.Market.Keys.{Keys}
use tokenization.Market.Trading.{Stamp, create_trade_escrow, settle_trade}
use tokenization.Market.Escrows.{
  mark_escrow_funded, record_escrow_signature, process_escrow_signature, expire_unfunded_escrow,
}
use tokenization.Market.Disputes.{open_dispute, resolve_dispute}

pub data Operation : Type 0 where
  locks : Keys → Stamp → (buy sell : Order) → (quantity price fee : ℕ) → Operation
  settles : Stamp → (buy sell : Order) → (quantity price fee : ℕ) → Operation
  funds : (now trade : ℕ) → Text → Metadata → Operation
  signs : (now : ℕ) → Escrow → (role path : String) → SignatureRecord → Metadata → Operation
  releases : Stamp → Escrow → Trade → (buy sell : Order) → Signatures → Text → Metadata → Operation
  expires : Stamp → Trade → Escrow → (buy sell : Order) → Operation
  disputes : Stamp → (trade opened_by : ℕ) → Text → Operation
  resolves : Stamp → (trade resolved_by : ℕ) → Resolution → Text → Signatures → Metadata → Operation

unfoldable pub perform : Operation → Tx Unit₀
perform (Operation.locks k s b o q p f) = create_trade_escrow s b o q p f k >> pure tt
perform (Operation.settles s b o q p f) = settle_trade s b o q p f >> pure tt
perform (Operation.funds now t txid m) = mark_escrow_funded now t txid m >> pure tt
perform (Operation.signs now e role path r m) =
    record_escrow_signature now e role path r m >> pure tt
perform (Operation.releases s e t b o c txid m) =
    process_escrow_signature s e t b o c txid m >> pure tt
perform (Operation.expires s t e b o) = expire_unfunded_escrow s t e b o >> pure tt
perform (Operation.disputes s t u r) = open_dispute s t u r >> pure tt
perform (Operation.resolves s t u r txid c m) = resolve_dispute s t u r txid c m >> pure tt
