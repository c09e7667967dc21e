-- ===== src/Wallet/Tests.antt =====
-- The wallet service's theorems at concrete rows: one wallet with one address, to which the node lists
-- an output, twice.
use tokenization.Common.{
  ℕ, List, ◌+◌, ◌≤◌, ◌≡◌, refl, inl, inr, arith, true, false, none, some, [], ◌∷◌, Bool, Bool-cases,
}
use tokenization.Common.Table.{count_where, sum_by, select_where, update_where}
use tokenization.Database.Rows.{WalletAddress}
use tokenization.Database.Model.{Wallet, Db}
use tokenization.Database.Tx.{◌>>=◌, query, raise_if, modify, commit, pure}
use tokenization.Market.Fixture.{buyer_wallet, matched}
use tokenization.Wallet.Ledger.{is_wallet}
use tokenization.Wallet.Reconcile.{Draw, Unspent, reconcile_deposits}
use tokenization.Wallet.Books.{onchain, IsFiled}
use tokenization.Database.Tx.{at_rest}
use tokenization.Wallet.Books.Deposits.{RunKeeps}
use tokenization.Wallet.Books.Outputs.{reconcile_deposits-Keeps}
use tokenization.Database.Rows.{same_text}
use tokenization.Wallet.Ledger.{reserve_onchain_balance}
use tokenization.Wallet.Pegout.{pegout_to_mainchain}
use tokenization.Wallet.Pegout.Paid.{pegout_to_mainchain-Settles}
use tokenization.Wallet.Reservations.{HasKeys, Reserves, reserve_onchain_balance-exact}
use tokenization.Wallet.Service.{Receipt, Service, withdrawal_cache_key}
use tokenization.Wallet.Withdrawing.Caching.{cached_under}
use tokenization.Wallet.Withdrawing.Replayed.{withdraw_onchain-withdraw_onchain}
use tokenization.Database.Tx.{ok}
use tokenization.Database.Rows.{TransactionStatus}
use tokenization.Wallet.Ledger.{get_or_create_wallet}
use tokenization.Wallet.Withdrawing.{
  check_two_factor, fresh_wallet, Backend, Withdrawal, withdraw_onchain,
}
use tokenization.Wallet.Withdrawing.Settled.{Settles, service}
use tokenization.Wallet.Withdrawing.Paid.{withdraw_onchain-Settles}

abbrev address : WalletAddress
address = record {
  id = 51;
  wallet_id = buyer_wallet.id;
  address = 7 ∷ [];
  derivation_index = 0;
  script_pubkey = 8 ∷ [];
  imported_to_node = true;
  created_at = 5;
}

abbrev books : Db
books = record matched {
  wallets = buyer_wallet ∷ [];
  addresses = address ∷ [];
  transactions = [];
  deposits = [];
}

abbrev draw : ℕ → Draw
draw n = record { now = 60; deposit_id = n; transaction_id = n }

abbrev output : Unspent
output = record {
  address = some (7 ∷ []);
  txid = some (9 ∷ []);
  vout = some 0;
  confirmations = 6;
  amount_sat = 250;
}

abbrev node_lists : List WalletAddress → List (Draw × Unspent)
node_lists rows = (draw 61, output) ∷ (draw 62, output) ∷ []

at_most_one : {A : Type 0} (p : A → Bool) (a : A) → count_where p (a ∷ []) ≤ 1
unfolding count_where
at_most_one p a = elim (Bool-cases (p a)) [
  | inl e ↦ rw e (omega arith)
  | inr e ↦ rw e (omega arith)
]

books-IsFiled : IsFiled books
unfolding count_where
books-IsFiled = record {
  wallet_key = λ k. at_most_one (is_wallet k) buyer_wallet;
  deposit_key = λ i. omega arith;
  output_key = λ t v. omega arith;
  deposit_wallet = λ d m. elim m [ ];
  address_wallet = λ a m. elim m [ inl h ↦ rw h (omega arith) | inr h ↦ absurd h ];
}

-- The output is credited once.
credited_once :
    onchain buyer_wallet.id (reconcile_deposits 3 node_lists (at_rest books)).1.committed
    ≡ onchain buyer_wallet.id books + 250
unfolding sum_by reconcile_deposits ◌>>=◌ query select_where raise_if modify commit pure
    update_where
credited_once = refl

reconcile_deposits-Keeps_example : RunKeeps books (reconcile_deposits 3 node_lists)
reconcile_deposits-Keeps_example = reconcile_deposits-Keeps 3 node_lists books books-IsFiled

books-HasKeys : HasKeys books
books-HasKeys = books-IsFiled.wallet_key

-- The wallet has 300 satoshi on-chain.
reserve_onchain_balance-exact_example :
    Reserves buyer_wallet.id 280 books
      (reserve_onchain_balance 70 buyer_wallet.id 280 (at_rest books)).0
      (reserve_onchain_balance 70 buyer_wallet.id 280 (at_rest books)).1
reserve_onchain_balance-exact_example =
    reserve_onchain_balance-exact 70 buyer_wallet.id 280 books books-HasKeys (omega arith)

abbrev backend : Backend
backend = record {
  verify_totp_code = λ secret code. same_text secret code;
  decrypt_seed = λ sealed. some sealed;
  derive_liquid_address = λ seed index.
      some (record { confidential_address = index ∷ seed; script_pubkey = index ∷ [] });
  importaddress = λ address. true;
  walletcreatefundedpsbt = λ change. some (record { psbt = change; fee_sat = 5 });
  pset_inputs = λ pset. some (some (8 ∷ []) ∷ []);
  sign_with = λ seed pset index. 1;
  finalize_psbt = λ pset. some pset;
  sendrawtransaction = λ raw. some (99 ∷ []);
  record_audit_event = true;
}

abbrev withdrawal : Withdrawal
withdrawal = record {
  user = some (record { deleted = false; totp_secret = some (4 ∷ []) });
  two_fa_code = some (4 ∷ []);
  idempotency_key = 3 ∷ [];
  amount_sat = 200;
  now = 80;
  user_id = buyer_wallet.user_id;
  wallet_id = 70;
  encrypted_seed = [];
  derivation_path = [];
  address_id = 52;
  transaction_id = 71;
}

withdraw_onchain-Settles_example :
    Settles books
      (withdraw_onchain backend withdrawal (service books [] [])).0
      (withdraw_onchain backend withdrawal (service books [] [])).1.conn.committed
withdraw_onchain-Settles_example =
    withdraw_onchain-Settles backend withdrawal books [] [] books-HasKeys

-- 200 satoshi and a fee of 5 leave the wallet.
withdrawal_paid :
    onchain buyer_wallet.id
      (withdraw_onchain backend withdrawal (service books [] [])).1.conn.committed
    ≡ 95
unfolding sum_by withdraw_onchain tokenization.Wallet.Service.refuse_if
    tokenization.Wallet.Service.on_conn tokenization.Wallet.Service.◌>>=◌ ◌>>=◌ query select_where
    pure tokenization.Wallet.Service.pure tokenization.Wallet.Service.or_refuse
    tokenization.Database.Tx.or_raise raise_if modify commit tokenization.Wallet.Service.attempted
    tokenization.Wallet.Ledger.insert_transaction
    tokenization.Wallet.Service.store_cached_withdrawal_response
    tokenization.Wallet.Service.clear_withdrawal_inflight update_where
withdrawal_paid = refl

abbrev receipt : Receipt
receipt = record {
  txid = 99 ∷ [];
  amount_sat = 200;
  fee_sat = 5;
  status = TransactionStatus.pending;
}

-- The process after the withdrawal.
abbrev answered : Service
answered = (withdraw_onchain backend withdrawal (service books [] [])).1

withdrawal_answered : (withdraw_onchain backend withdrawal (service books [] [])).0 ≡ ok receipt
unfolding withdraw_onchain tokenization.Wallet.Service.refuse_if tokenization.Wallet.Service.on_conn
    tokenization.Wallet.Service.◌>>=◌ ◌>>=◌ query select_where pure tokenization.Wallet.Service.pure
    tokenization.Wallet.Service.or_refuse tokenization.Database.Tx.or_raise raise_if modify commit
    tokenization.Wallet.Service.attempted tokenization.Wallet.Ledger.insert_transaction
    tokenization.Wallet.Service.store_cached_withdrawal_response
    tokenization.Wallet.Service.clear_withdrawal_inflight update_where
withdrawal_answered = refl

owner_found :
    (get_or_create_wallet (fresh_wallet backend withdrawal) (at_rest books)).0 ≡ ok buyer_wallet
unfolding get_or_create_wallet ◌>>=◌ query select_where pure
owner_found = refl

unused : cached_under (withdrawal_cache_key buyer_wallet.id (3 ∷ [])) (service books [] []) ≡ none
unfolding select_where
unused = refl

-- The same key five seconds later, for another amount.
abbrev retry : Withdrawal
retry = record withdrawal { amount_sat = 90; now = 5000080 }

passes : (check_two_factor backend retry answered).0 ≡ ok tt
unfolding check_two_factor tokenization.Wallet.Service.◌>>=◌ tokenization.Wallet.Service.refuse_if
passes = refl

abbrev spent_wallet : Wallet
spent_wallet = record buyer_wallet { onchain_balance_sat = 95; updated_at = 80 }

owner_found_again :
    get_or_create_wallet (fresh_wallet backend retry) answered.conn
    ≡ (ok spent_wallet, answered.conn)
unfolding get_or_create_wallet withdraw_onchain tokenization.Wallet.Service.refuse_if
    tokenization.Wallet.Service.on_conn tokenization.Wallet.Service.◌>>=◌ ◌>>=◌ query select_where
    pure tokenization.Wallet.Service.pure tokenization.Wallet.Service.or_refuse
    tokenization.Database.Tx.or_raise raise_if modify commit tokenization.Wallet.Service.attempted
    tokenization.Wallet.Ledger.insert_transaction
    tokenization.Wallet.Service.store_cached_withdrawal_response
    tokenization.Wallet.Service.clear_withdrawal_inflight update_where
owner_found_again = refl

withdraw_onchain-withdraw_onchain_example :
    withdraw_onchain backend retry answered ≡ (ok receipt, answered)
withdraw_onchain-withdraw_onchain_example =
    withdraw_onchain-withdraw_onchain backend backend withdrawal retry 3 [] (service books [] [])
      buyer_wallet spent_wallet receipt refl refl owner_found unused withdrawal_answered passes
      owner_found_again refl (omega arith)

pegout_to_mainchain-Settles_example :
    Settles books
      (pegout_to_mainchain backend withdrawal (some (97 ∷ [])) (service books [] [])).0
      (pegout_to_mainchain backend withdrawal
        (some (97 ∷ []))
        (service books [] [])).1.conn.committed
pegout_to_mainchain-Settles_example =
    pegout_to_mainchain-Settles backend withdrawal (some (97 ∷ [])) books [] [] books-HasKeys
