-- ===== src/Market/Integrity.antt =====
-- The marketplace's tables: unique keys, the link of escrows to trades, and the supply of each
-- token.
pub mod Rows
pub mod Link
pub mod Leaves
pub mod Steps
pub mod Matching
pub mod Pair
pub mod Closing
pub mod Disputing
pub mod Preserved
pub mod Tests
use tokenization.Common.{
  ℕ, ◌+◌, ◌≤◌, ◌≡◌, ◌&&◌, Bool, true, false, List, ◌==◌, if◌then◌else◌, Member,
}
use tokenization.Common.Table.{sum_by, count_where}
use tokenization.Database.Model.{TradeStatus, EscrowStatus, Trade, Escrow, TokenBalance, Db}
use tokenization.Market.Balances.{is_balance_of}

-- A trade whose tokens the seller has given up and nobody has received.
abbrev pub in_flight : TradeStatus → Bool
in_flight TradeStatus.pending = true
in_flight TradeStatus.escrowed = true
in_flight TradeStatus.disputed = true
in_flight TradeStatus.settled = false
in_flight TradeStatus.cancelled = false

-- The tokens that users hold, and those locked in trades.
abbrev pub held_by : ℕ → TokenBalance → ℕ
held_by token b = if b.token_id == token then b.balance else 0

abbrev pub locked_by : ℕ → Trade → ℕ
locked_by token t = if t.token_id == token && in_flight t.status then t.quantity else 0

abbrev pub supply_in : ℕ → List Trade → List TokenBalance → ℕ
supply_in token trades balances = sum_by (held_by token) balances + sum_by (locked_by token) trades

abbrev pub supply : ℕ → Db → ℕ
supply token db = supply_in token db.trades db.balances

-- The trade status that goes with an escrow status.
abbrev pub trade_status : EscrowStatus → TradeStatus
trade_status EscrowStatus.created = TradeStatus.pending
trade_status EscrowStatus.funded = TradeStatus.escrowed
trade_status EscrowStatus.inspection_pending = TradeStatus.escrowed
trade_status EscrowStatus.released = TradeStatus.settled
trade_status EscrowStatus.refunded = TradeStatus.cancelled
trade_status EscrowStatus.disputed = TradeStatus.disputed
trade_status EscrowStatus.expired = TradeStatus.cancelled

abbrev pub has_trade_id : ℕ → Trade → Bool
has_trade_id k t = t.id == k

abbrev pub is_escrow_of : ℕ → Escrow → Bool
is_escrow_of k e = e.trade_id == k

-- Unique keys, and the foreign key of the escrows.
pub record IsKeyed (trades : List Trade) (escrows : List Escrow) (balances : List TokenBalance)
    : Type 0 where
  pub balance_key : (u k : ℕ) → count_where (is_balance_of u k) balances ≤ 1
  pub trade_key : (k : ℕ) → count_where (has_trade_id k) trades ≤ 1
  pub escrow_key : (k : ℕ) → count_where (is_escrow_of k) escrows ≤ 1
  pub escrow_trade :
      (e : Escrow) → Member e escrows → 1 ≤ count_where (has_trade_id e.trade_id) trades

-- Each escrow's trade has the status that goes with the escrow's.
abbrev pub IsLinked : List Trade → List Escrow → Type 0
IsLinked trades escrows =
    (e : Escrow)
    → Member e escrows
    → (t : Trade) → Member t trades
    → t.id ≡ e.trade_id
    → t.status ≡ trade_status e.status

pub record IsSound (trades : List Trade) (escrows : List Escrow) (balances : List TokenBalance)
    : Type 0 where
  pub keyed : IsKeyed trades escrows balances
  pub linked : IsLinked trades escrows

-- The tables are sound, and the supply of the token is `n`.
pub record IsKept (token n : ℕ) (db : Db) : Type 0 where
  pub sound : IsSound db.trades db.escrows db.balances
  pub supplied : supply token db ≡ n
