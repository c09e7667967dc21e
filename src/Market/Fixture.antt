-- ===== src/Market/Fixture.antt =====
-- Rows that the tests share: two users, a matched pair of orders, and its trade with its escrow.
use tokenization.Common.{◌≤◌, inl, inr, arith, Bool, Bool-cases, none, [], ◌∷◌}
use tokenization.Common.Table.{count_where}
use tokenization.Database.Model.{
  Side, OrderType, OrderStatus, TradeStatus, EscrowStatus, Order, Trade, Escrow, Wallet,
  TokenBalance, Db,
}
use tokenization.Database.Tx.{Conn}
use tokenization.Market.Trading.{Stamp}

abbrev pub stamp : Stamp
stamp = record {
  now = 1000;
  order_id = 90;
  trade_id = 91;
  escrow_id = 92;
  balance_id = 93;
  entry_id = 94;
  dispute_id = 95;
}

abbrev pub bid : Order
bid = record {
  id = 1;
  user_id = 10;
  token_id = 7;
  side = Side.buy;
  order_type = OrderType.limit;
  quantity = 5;
  price_sat = 200;
  trigger_price_sat = none;
  triggered_at = none;
  filled_quantity = 3;
  status = OrderStatus.partially_filled;
  created_at = 100;
  updated_at = 110;
}

abbrev pub ask : Order
ask = record bid {
  id = 2;
  user_id = 20;
  side = Side.sell;
  quantity = 9;
  price_sat = 150;
  created_at = 90;
}

abbrev pub trade : Trade
trade = record {
  id = 30;
  buy_order_id = 1;
  sell_order_id = 2;
  token_id = 7;
  quantity = 3;
  price_sat = 150;
  total_sat = 450;
  fee_sat = 4;
  status = TradeStatus.pending;
  created_at = 110;
  settled_at = none;
}

abbrev pub escrow : Escrow
escrow = record {
  id = 40;
  trade_id = 30;
  multisig_address = [];
  buyer_pubkey = [];
  seller_pubkey = [];
  platform_pubkey = [];
  locked_amount_sat = 454;
  funding_txid = none;
  release_txid = none;
  refund_txid = none;
  collected_signatures = [];
  settlement_metadata = [];
  status = EscrowStatus.created;
  expires_at = 500;
  created_at = 110;
  updated_at = 110;
}

abbrev pub seller_tokens : TokenBalance
seller_tokens = record { id = 50; user_id = 20; token_id = 7; balance = 17; updated_at = 110 }

abbrev pub buyer_wallet : Wallet
buyer_wallet = record {
  id = 60;
  user_id = 10;
  onchain_balance_sat = 300;
  lightning_balance_sat = 900;
  encrypted_seed = 1 ∷ [];
  derivation_path = 2 ∷ [];
  updated_at = 5;
}

abbrev pub seller_wallet : Wallet
seller_wallet = record buyer_wallet { id = 61; user_id = 20 }

abbrev pub matched : Db
matched = record {
  orders = bid ∷ ask ∷ [];
  trades = trade ∷ [];
  escrows = escrow ∷ [];
  disputes = [];
  wallets = buyer_wallet ∷ seller_wallet ∷ [];
  balances = seller_tokens ∷ [];
  treasury = [];
  tokens = [];
  identities = [];
  kyc = [];
  transactions = [];
  addresses = [];
  deposits = [];
  assets = [];
  users = [];
  sessions = [];
  rewards = [];
  accruals = [];
}

-- A connection with nothing uncommitted.
abbrev pub opened : Db → Conn
opened db = record { committed = db; current = db }

-- A table of one row has unique keys.
pub at_most_one : {A : Type 0} (p : A → Bool) (a : A) → count_where p (a ∷ []) ≤ 1
unfolding count_where
at_most_one p a = elim (Bool-cases (p a)) [
  | inl e ↦ rw e (omega arith)
  | inr e ↦ rw e (omega arith)
]
