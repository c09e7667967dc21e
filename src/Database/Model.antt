-- ===== src/Database/Model.antt =====
-- The tables of services/common/db/metadata.py that the services read and write, and the literals of
-- services/marketplace/schemas.py. Identifiers (UUIDs) and times are numbers: the
-- code only compares them. Amounts in satoshi and quantities are natural numbers.
use tokenization.Common.{ℕ, Bool, true, false, Option, List}
use tokenization.Common.Int.{ℤ}
use tokenization.Common.Dict.{Dict}
use tokenization.Database.Rows.{Text, Transaction, WalletAddress, Deposit}
use tokenization.Database.Assets.{Asset, Token, YieldAccrual}
use tokenization.Database.Users.{User, RefreshSession, ReferralReward}
pub use tokenization.Database.Rows.{Text}

pub data Side : Type 0 where
  buy sell : Side

pub data OrderType : Type 0 where
  limit stop_limit : OrderType

pub data OrderStatus : Type 0 where
  open_order partially_filled filled cancelled : OrderStatus

pub data TradeStatus : Type 0 where
  pending escrowed settled disputed cancelled : TradeStatus

pub data EscrowStatus : Type 0 where
  created funded inspection_pending released refunded disputed expired : EscrowStatus

pub data DisputeStatus : Type 0 where
  open_dispute resolved : DisputeStatus

pub data Resolution : Type 0 where
  refund release : Resolution

pub data EntryType : Type 0 where
  fee_income disbursement adjustment referral_reward : EntryType

-- `side == "buy"`
abbrev pub is_buy : Side → Bool
is_buy Side.buy = true
is_buy Side.sell = false

abbrev pub is_limit : OrderType → Bool
is_limit OrderType.limit = true
is_limit OrderType.stop_limit = false

-- `_OPEN_ORDER_STATUSES`
abbrev pub is_open_status : OrderStatus → Bool
is_open_status OrderStatus.open_order = true
is_open_status OrderStatus.partially_filled = true
is_open_status OrderStatus.filled = false
is_open_status OrderStatus.cancelled = false

pub record Order : Type 0 where
  pub id : ℕ
  pub user_id : ℕ
  pub token_id : ℕ
  pub side : Side
  pub order_type : OrderType
  pub quantity : ℕ
  pub price_sat : ℕ
  pub trigger_price_sat : Option ℕ
  pub triggered_at : Option ℕ
  pub filled_quantity : ℕ
  pub status : OrderStatus
  pub created_at : ℕ
  pub updated_at : ℕ

pub record Trade : Type 0 where
  pub id : ℕ
  pub buy_order_id : ℕ
  pub sell_order_id : ℕ
  pub token_id : ℕ
  pub quantity : ℕ
  pub price_sat : ℕ
  pub total_sat : ℕ
  pub fee_sat : ℕ
  pub status : TradeStatus
  pub created_at : ℕ
  pub settled_at : Option ℕ

-- An output that funds an escrow, as the node lists it.
pub record Utxo : Type 0 where
  pub txid : Text
  pub vout : ℕ

-- A value of the JSON column `settlement_metadata`.
pub data Value : Type 0 where
  text : Text → Value
  amount : ℕ → Value
  time : ℕ → Value
  inputs : List Utxo → Value

abbrev pub Metadata : Type 0
Metadata = Dict Value

-- An entry of the JSON column `collected_signatures`: path, then role.
pub record SignatureRecord : Type 0 where
  pub actor_id : Option ℕ
  pub signature : Text
  pub source : Text
  pub signed_at : ℕ

abbrev pub Signatures : Type 0
Signatures = Dict (Dict SignatureRecord)

pub record Escrow : Type 0 where
  pub id : ℕ
  pub trade_id : ℕ
  pub multisig_address : Text
  pub buyer_pubkey : Text
  pub seller_pubkey : Text
  pub platform_pubkey : Text
  pub locked_amount_sat : ℕ
  pub funding_txid : Option Text
  pub release_txid : Option Text
  pub refund_txid : Option Text
  pub collected_signatures : Signatures
  pub settlement_metadata : Metadata
  pub status : EscrowStatus
  pub expires_at : ℕ
  pub created_at : ℕ
  pub updated_at : ℕ

pub record Dispute : Type 0 where
  pub id : ℕ
  pub trade_id : ℕ
  pub opened_by : ℕ
  pub reason : Text
  pub status : DisputeStatus
  pub resolution : Option Resolution
  pub resolved_by : Option ℕ
  pub resolved_at : Option ℕ
  pub created_at : ℕ
  pub updated_at : ℕ

pub record Wallet : Type 0 where
  pub id : ℕ
  pub user_id : ℕ
  pub onchain_balance_sat : ℕ
  pub lightning_balance_sat : ℕ
  pub encrypted_seed : Text
  pub derivation_path : Text
  pub updated_at : ℕ

pub record TokenBalance : Type 0 where
  pub id : ℕ
  pub user_id : ℕ
  pub token_id : ℕ
  pub balance : ℕ
  pub updated_at : ℕ

pub record TreasuryEntry : Type 0 where
  pub id : ℕ
  pub source_trade_id : Option ℕ
  pub source_referral_reward_id : Option ℕ
  pub entry_type : EntryType
  pub amount_sat : ℕ
  pub balance_after_sat : ℤ
  pub created_at : ℕ

pub record NostrIdentity : Type 0 where
  pub id : ℕ
  pub user_id : ℕ
  pub pubkey : Text
  pub created_at : ℕ

pub data KycStatus : Type 0 where
  pending verified rejected expired : KycStatus

pub record KycRecord : Type 0 where
  pub user_id : ℕ
  pub status : KycStatus
  pub reviewed_by : Option ℕ
  pub reviewed_at : Option ℕ
  pub created_at : ℕ
  pub updated_at : ℕ

pub record Db : Type 0 where
  pub orders : List Order
  pub trades : List Trade
  pub escrows : List Escrow
  pub disputes : List Dispute
  pub wallets : List Wallet
  pub balances : List TokenBalance
  pub treasury : List TreasuryEntry
  pub tokens : List Token
  pub identities : List NostrIdentity
  pub kyc : List KycRecord
  pub transactions : List Transaction
  pub addresses : List WalletAddress
  pub deposits : List Deposit
  pub assets : List Asset
  pub users : List User
  pub sessions : List RefreshSession
  pub rewards : List ReferralReward
  pub accruals : List YieldAccrual
