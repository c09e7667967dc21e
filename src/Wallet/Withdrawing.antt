-- ===== src/Wallet/Withdrawing.antt =====
-- On-chain withdrawals (services/wallet/main.py, withdraw_onchain). What the node, the custody backend and
-- the embit library answer, and whether the audit record could be written, is the record `Backend`.
pub mod Settled
pub mod Quiet
pub mod Owner
pub mod Checks
pub mod Booking
pub mod Paid
pub mod Caching
pub mod Replayed
use tokenization.Common.{
  ℕ, zero, suc, ◌+◌, Bool, true, false, not, ◌&&◌, ◌||◌, Option, none, some, List, [], ◌∷◌, ◌==◌,
  if◌then◌else◌, is_some,
}
use tokenization.Common.Table.{select_where, fetch_one}
use tokenization.Database.Rows.{Text, same_text, Transaction, TransactionStatus, WalletAddress}
use tokenization.Database.Model.{Wallet, Db}
use tokenization.Database.Tx.{
  Result, ok, err, Failure, runtime_error, Refusal, or_raise, query, Unit₀,
}
use tokenization.Wallet.Ledger.{
  new_wallet, get_or_create_wallet, reserve_onchain_balance, release_onchain_balance,
  create_onchain_withdrawal,
}
use tokenization.Wallet.Addresses.{get_next_derivation_index, save_wallet_address, is_address_of}
use tokenization.Wallet.Service.{
  Receipt, CacheKey, Act, ◌>>=◌, ◌>>◌, pure, throw, refuse, or_refuse, on_conn, attempted,
  refuse_if, withdrawal_cache_key, get_cached_withdrawal_response, mark_withdrawal_inflight,
  clear_withdrawal_inflight, store_cached_withdrawal_response,
}

-- The row of the user, as far as it is read.
pub record User : Type 0 where
  pub deleted : Bool
  pub totp_secret : Option Text

pub record DerivedAddress : Type 0 where
  pub confidential_address : Text
  pub script_pubkey : Text

pub record Funded : Type 0 where
  pub psbt : Text
  pub fee_sat : ℕ

-- An absent answer is an exception. An input of a partial transaction is the script of the output that it
-- spends, if that is there.
pub record Backend : Type 0 where
  pub verify_totp_code : Text → Text → Bool
  pub decrypt_seed : Text → Option Text
  pub derive_liquid_address : Text → ℕ → Option DerivedAddress
  pub importaddress : Text → Bool
  pub walletcreatefundedpsbt : Text → Option Funded
  pub pset_inputs : Text → Option (List (Option Text))
  pub sign_with : Text → Text → ℕ → ℕ
  pub finalize_psbt : Text → Option Text
  pub sendrawtransaction : Text → Option Text
  pub record_audit_event : Bool

-- The request, with the time and the identifiers that its handling draws. `idempotency_key` is the header
-- without the white space around it, empty if it is absent.
pub record Withdrawal : Type 0 where
  pub user : Option User
  pub two_fa_code : Option Text
  pub idempotency_key : Text
  pub amount_sat : ℕ
  pub now : ℕ
  pub user_id : ℕ
  pub wallet_id : ℕ
  pub encrypted_seed : Text
  pub derivation_path : Text
  pub address_id : ℕ
  pub transaction_id : ℕ

abbrev pub non_empty : Text → Bool
non_empty [] = false
non_empty (_ ∷ _) = true

abbrev pub has_code : Option Text → Bool
has_code none = false
has_code (some code) = non_empty code

abbrev pub is_active : Option User → Bool
is_active none = false
is_active (some u) = not u.deleted

abbrev pub secret_of : Option User → Option Text
secret_of none = none
secret_of (some u) = u.totp_secret

abbrev pub text_or_empty : Option Text → Text
text_or_empty none = []
text_or_empty (some code) = code

abbrev pub and_then : {A B : Type 0} → Option A → (A → Option B) → Option B
and_then none f = none
and_then (some a) f = f a

abbrev pub later_index : Option ℕ → Option ℕ → Option ℕ
later_index none earlier = earlier
later_index (some i) earlier = some i

-- `address_map`: the dictionary keeps the last row of a script.
unfoldable pub derivation_index_of : List WalletAddress → Text → Option ℕ
derivation_index_of [] script = none
derivation_index_of (a ∷ rows) script =
    later_index (derivation_index_of rows script)
      (if same_text a.script_pubkey script then some a.derivation_index else none)

module _ (b : Backend) where
  -- How many signatures were made, unless an input is not the wallet's.
  unfoldable pub sign_inputs : Text → Text → List WalletAddress → List (Option Text) → ℕ → Option ℕ
  unfolding derivation_index_of
  sign_inputs seed pset rows [] signed = some signed
  sign_inputs seed pset rows (none ∷ inputs) signed = none
  sign_inputs seed pset rows (some script ∷ inputs) signed =
      and_then (derivation_index_of rows script)
        (λ index. sign_inputs seed pset rows inputs (signed + b.sign_with seed pset index))

  -- The `try` block that signs the transaction and sends it: its identifier, unless something was raised.
  unfoldable pub sign_and_send : Wallet → Text → List WalletAddress → Option Text
  unfolding sign_inputs
  sign_and_send wallet pset rows = and_then (b.decrypt_seed wallet.encrypted_seed) (λ seed.
      and_then (b.pset_inputs pset) (λ inputs.
        and_then (sign_inputs seed pset rows inputs 0) (λ signed_inputs.
          if signed_inputs == 0
          then none
          else and_then (b.finalize_psbt pset) (λ finalized. b.sendrawtransaction finalized))))

abbrev pub address_row : Withdrawal → Wallet → ℕ → DerivedAddress → WalletAddress
address_row q wallet index derived = record {
  id = q.address_id;
  wallet_id = wallet.id;
  address = derived.confidential_address;
  derivation_index = index;
  script_pubkey = derived.script_pubkey;
  imported_to_node = true;
  created_at = q.now;
}

-- The clearing of the key in flight, if the request has one.
abbrev pub clear_if : Text → CacheKey → Act Unit₀
clear_if [] key = pure tt
clear_if (_ ∷ _) key = clear_withdrawal_inflight key

abbrev pub store_if : ℕ → Text → CacheKey → Receipt → Act Unit₀
store_if now [] key payload = pure tt
store_if now (_ ∷ _) key payload = store_cached_withdrawal_response now key payload

abbrev pub receipt_of : ℕ → ℕ → Text → Transaction → Receipt
receipt_of amount_sat fee_sat txid row = record {
  txid = txid;
  amount_sat = amount_sat;
  fee_sat = fee_sat;
  status = row.status;
}

module _ (b : Backend) (q : Withdrawal) where
  unfoldable pub create_real_onchain_address : Wallet → Act DerivedAddress
  unfolding pure ◌>>=◌ get_next_derivation_index save_wallet_address
  create_real_onchain_address wallet = do
    seed ← or_refuse (b.decrypt_seed wallet.encrypted_seed) Refusal.wallet_seed_error
    idx ← on_conn (get_next_derivation_index wallet.id)
    derived ← on_conn (or_raise (b.derive_liquid_address seed idx) runtime_error)
    refuse_if (not (b.importaddress derived.confidential_address)) Refusal.elements_rpc_unavailable
    on_conn (save_wallet_address (address_row q wallet idx derived))
    pure derived

  -- Once the transaction is sent: its row and the audit record, and the answer.
  abbrev pub record_withdrawal : Wallet → ℕ → Text → Act Transaction
  record_withdrawal wallet fee_sat txid = do
    row ←
        on_conn
          (create_onchain_withdrawal q.transaction_id q.now wallet.id q.amount_sat fee_sat txid)
    (if b.record_audit_event then pure tt else throw runtime_error)
    pure row

  abbrev pub answer_withdrawal : CacheKey → ℕ → Text → Result Transaction → Act Receipt
  answer_withdrawal key fee_sat txid (err e) = clear_if q.idempotency_key key >> throw e
  answer_withdrawal key fee_sat txid (ok row) = do
    let payload = receipt_of q.amount_sat fee_sat txid row
    store_if q.now q.idempotency_key key payload
    clear_if q.idempotency_key key
    pure payload

  abbrev pub after_sending : CacheKey → Wallet → ℕ → Option Text → Act Receipt
  after_sending key wallet fee_sat none = do
    on_conn (release_onchain_balance q.now wallet.id (q.amount_sat + fee_sat))
    clear_if q.idempotency_key key
    refuse Refusal.transaction_failed
  after_sending key wallet fee_sat (some txid) = do
    recorded ← attempted (record_withdrawal wallet fee_sat txid)
    answer_withdrawal key fee_sat txid recorded

  abbrev pub after_reserving : CacheKey → Wallet → Funded → Bool → Act Receipt
  after_reserving key wallet funded false =
      clear_if q.idempotency_key key >> refuse Refusal.insufficient_funds
  after_reserving key wallet funded true = do
    rows ← on_conn (query (λ db. select_where (is_address_of wallet.id) db.addresses))
    after_sending key wallet funded.fee_sat (sign_and_send b wallet funded.psbt rows)

  abbrev pub after_funding : CacheKey → Wallet → Option Funded → Act Receipt
  after_funding key wallet none =
      clear_if q.idempotency_key key >> refuse Refusal.insufficient_funds
  after_funding key wallet (some funded) = do
    reserved ← on_conn (reserve_onchain_balance q.now wallet.id (q.amount_sat + funded.fee_sat))
    after_reserving key wallet funded reserved

  -- A new withdrawal, its key in flight.
  unfoldable pub submit_withdrawal : CacheKey → Wallet → Act Receipt
  unfolding create_real_onchain_address sign_and_send create_onchain_withdrawal
      release_onchain_balance reserve_onchain_balance
  submit_withdrawal key wallet = do
    change_address ← create_real_onchain_address wallet
    after_funding key wallet (b.walletcreatefundedpsbt change_address.confidential_address)

  abbrev pub unless_cached : CacheKey → Wallet → Option Receipt → Act Receipt
  unless_cached key wallet (some payload) = pure payload
  unless_cached key wallet none = do
    marked ← mark_withdrawal_inflight key
    refuse_if (not marked) Refusal.duplicate_request_in_flight
    submit_withdrawal key wallet

  abbrev pub by_key : Text → Wallet → Act Receipt
  by_key [] wallet = submit_withdrawal (withdrawal_cache_key wallet.id []) wallet
  by_key (c ∷ cs) wallet = do
    let key = withdrawal_cache_key wallet.id (c ∷ cs)
    cached ← get_cached_withdrawal_response q.now key
    unless_cached key wallet cached

  -- Whether the code is the second factor of the user.
  unfoldable pub check_two_factor : Act Unit₀
  check_two_factor = do
    refuse_if (not (has_code q.two_fa_code)) Refusal.two_factor_required
    refuse_if (not (is_active q.user)) Refusal.invalid_access_token
    refuse_if (not (has_code (secret_of q.user))) Refusal.two_factor_not_enabled
    refuse_if
        (not (b.verify_totp_code (text_or_empty (secret_of q.user)) (text_or_empty q.two_fa_code)))
        Refusal.invalid_2fa_code

  abbrev pub fresh_wallet : Wallet
  fresh_wallet = new_wallet q.wallet_id q.now q.user_id q.encrypted_seed q.derivation_path

  unfoldable pub withdraw_onchain : Act Receipt
  unfolding check_two_factor get_or_create_wallet submit_withdrawal get_cached_withdrawal_response
      mark_withdrawal_inflight
  withdraw_onchain = do
    check_two_factor
    wallet ← on_conn (get_or_create_wallet fresh_wallet)
    by_key q.idempotency_key wallet
