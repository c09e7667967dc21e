-- ===== src/Database/Tx.antt =====
-- A database connection (SQLAlchemy's AsyncConnection): what is committed, and what the open
-- transaction sees. An operation returns or raises, and leaves the connection behind either way.
pub mod Rules
pub mod Returns
pub mod Atomic
pub mod Maintains
pub mod Quiet
pub mod Rests
pub mod Moves
use tokenization.Common.{Bool, Option, none, some, if◌then◌else◌}
use tokenization.Database.Model.{Db}

pub data ValueError : Type 0 where
  quantity_must_be_positive price_sat_must_be_positive invalid_order_side token_mismatch :
      ValueError
  order_insufficient_quantity insufficient_wallet_balance insufficient_token_balance : ValueError
  order_already_filled treasury_amount_must_be_positive invalid_treasury_entry_type : ValueError
  participant_pubkey_invalid : ValueError

pub data LookupError : Type 0 where
  wallet_not_found escrow_not_found trade_not_found orders_not_found : LookupError
  trade_not_found_or_state_conflict escrow_not_found_or_state_conflict : LookupError
  escrow_not_expirable escrow_update_failed trade_update_failed : LookupError
  dispute_not_found_or_already_resolved : LookupError

-- The code of a `ContractError`, which the client sees.
pub data Refusal : Type 0 where
  token_unknown wallet_missing insufficient_sats insufficient_tokens : Refusal
  kyc_required kyc_pending kyc_rejected kyc_not_verified : Refusal
  order_not_found forbidden order_state_conflict invalid_cursor : Refusal
  two_factor_required two_factor_not_enabled invalid_2fa_code invalid_access_token : Refusal
  duplicate_request_in_flight insufficient_funds transaction_failed pegout_failed : Refusal
  wallet_seed_error elements_rpc_unavailable : Refusal
  invalid_refresh_token invalid_credentials email_taken referrer_not_found : Refusal
  self_referral_not_allowed : Refusal
  kyc_not_found kyc_update_failed : Refusal
  asset_not_found asset_state_conflict evaluation_dispatch_failed : Refusal
  liquid_issuance_failed liquid_issuance_invalid liquid_issuance_persist_failed : Refusal

pub data Failure : Type 0 where
  contract_error : Refusal → Failure
  value_error : ValueError → Failure
  lookup_error : LookupError → Failure
  runtime_error integrity_error : Failure

pub data Result (A : Type 0) : Type 0 where
  ok : A → Result A
  err : Failure → Result A

pub record Conn : Type 0 where
  pub committed : Db
  pub current : Db

-- A connection with nothing uncommitted.
abbrev pub at_rest : Db → Conn
at_rest db = record { committed = db; current = db }

abbrev pub Tx : Type 0 → Type 0
Tx A = Conn → Result A × Conn

abbrev pub continue : {A B : Type 0} → Result A → (A → Tx B) → Tx B
continue (ok a) f c = f a c
continue (err e) f c = (err e, c)

infixl 5 ◌>>=◌ ◌>>◌
unfoldable pub ◌>>=◌ : {A B : Type 0} → Tx A → (A → Tx B) → Tx B
◌>>=◌ m f c = let (r, c') = m c in continue r f c'

abbrev pub ◌>>◌ : {A B : Type 0} → Tx A → Tx B → Tx B
m >> k = m >>= λ _. k

module _ {A : Type 0} where
  unfoldable pub pure : A → Tx A
  pure a c = (ok a, c)

  unfoldable pub raise : Failure → Tx A
  raise e c = (err e, c)

  -- A SELECT, in the open transaction.
  unfoldable pub query : (Db → A) → Tx A
  query f c = (ok (f c.current), c)

  unfoldable pub or_raise : Option A → Failure → Tx A
  or_raise none e c = (err e, c)
  or_raise (some a) e c = (ok a, c)

  -- `try: .. except Exception: await conn.rollback(); raise`
  abbrev pub rolled_back : Result A → Conn → Result A × Conn
  rolled_back (ok a) c = (ok a, c)
  rolled_back (err e) c = (err e, record c { current = c.committed })

  unfoldable pub attempt : Tx A → Tx A
  attempt m c = let (r, c') = m c in rolled_back r c'

-- `try: .. except` whose handler looks at the exception: nothing is undone.
module _ {A : Type 0} where
  unfoldable pub catch : Tx A → Tx (Result A)
  catch m c = let (r, c') = m c in (ok r, c')

abbrev pub Unit₀ : Type 0
Unit₀ = Unit

unfoldable pub raise_if : Bool → Failure → Tx Unit₀
raise_if b e c = (if b then err e else ok tt, c)

-- An INSERT or UPDATE, in the open transaction.
unfoldable pub modify : (Db → Db) → Tx Unit₀
modify f c = (ok tt, record c { current = f c.current })

unfoldable pub commit : Tx Unit₀
commit c = (ok tt, record c { committed = c.current })

unfoldable pub rollback : Tx Unit₀
rollback c = (ok tt, record c { current = c.committed })

-- `async with engine.connect()`: a connection of its own, whose open transaction ends with it.
unfoldable pub connected : {A : Type 0} → Tx A → Tx A
connected m c = let (r, c') = m (at_rest c.committed) in (r, at_rest c'.committed)
