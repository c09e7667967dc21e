-- ===== src/Market/Trading.antt =====
-- Matched trades: a trade with its escrow, and immediate settlement (services/marketplace/db.py).
use tokenization.Common.{
  ℕ, ◌+◌, ◌*◌, Bool, ◌&&◌, ◌||◌, Option, none, some, [], ◌∷◌, ◌++◌, ltb, ◌==◌, is_some,
}
use tokenization.Common.Table.{select_where, fetch_one}
use tokenization.Common.Sort.{order_by}
use tokenization.Database.Model.{
  Text, TradeStatus, EscrowStatus, Order, Trade, Escrow, Wallet, NostrIdentity, text, amount,
}
use tokenization.Database.Tx.{
  Tx, ◌>>=◌, ◌>>◌, pure, query, raise, or_raise, raise_if, modify, commit, attempt, value_error,
  lookup_error, runtime_error, integrity_error, participant_pubkey_invalid, wallet_not_found, Unit₀,
}
use tokenization.Market.Keys.{
  Keys, EscrowDetails, normalize_participant_pubkey, build_2of3_witness_script,
}
use tokenization.Market.Orders.{day, validate_trade_inputs}
use tokenization.Market.Balances.{
  get_wallet_by_user_id, debit_wallet_balance, credit_wallet_balance, decrement_token_balance,
  increment_token_balance, apply_order_fill,
}
use tokenization.Market.Treasury.{record_trade_fee_income}

-- The time and the fresh identifiers (`uuid.uuid4`) that one call draws.
pub record Stamp : Type 0 where
  pub now : ℕ
  pub order_id : ℕ
  pub trade_id : ℕ
  pub escrow_id : ℕ
  pub balance_id : ℕ
  pub entry_id : ℕ
  pub dispute_id : ℕ

abbrev older_identity : NostrIdentity → NostrIdentity → Bool
older_identity a b =
    ltb a.created_at b.created_at || (a.created_at == b.created_at && ltb a.id b.id)

unfoldable pub get_nostr_identity_by_user_id : ℕ → Tx (Option NostrIdentity)
get_nostr_identity_by_user_id user_id = query (λ db.
    fetch_one (order_by older_identity (select_where (λ i. i.user_id == user_id) db.identities)))

abbrev pub seed_or_raise : Wallet → Text → Tx Wallet
seed_or_raise w [] = raise (lookup_error wallet_not_found)
seed_or_raise w (_ ∷ _) = pure w

abbrev pub pubkey_of : Keys → ℕ → Option NostrIdentity → Tx Text
pubkey_of k user_id (some identity) =
    or_raise (normalize_participant_pubkey identity.pubkey) (value_error participant_pubkey_invalid)
pubkey_of k user_id none = do
  found ← get_wallet_by_user_id user_id
  wallet ← or_raise found (lookup_error wallet_not_found)
  sealed ← seed_or_raise wallet wallet.encrypted_seed
  pure (k.wallet_pubkey user_id sealed.derivation_path sealed.encrypted_seed)

unfoldable pub resolve_escrow_pubkey : Keys → ℕ → Tx Text
unfolding get_nostr_identity_by_user_id get_wallet_by_user_id
resolve_escrow_pubkey k user_id = do
  nostr_identity ← get_nostr_identity_by_user_id user_id
  pubkey_of k user_id nostr_identity

abbrev pub platform_escrow_pubkey : Text → Tx Text
platform_escrow_pubkey [] = raise runtime_error
platform_escrow_pubkey (c ∷ cs) = pure (c ∷ cs)

unfoldable pub insert_trade : Trade → Tx Unit₀
insert_trade row = do
  taken ← query (λ db. is_some (fetch_one (select_where (λ t. t.id == row.id) db.trades)))
  raise_if taken integrity_error
  modify (λ db. record db { trades = db.trades ++ row ∷ [] })

-- `escrows.trade_id` is unique.
unfoldable pub insert_escrow : Escrow → Tx Unit₀
insert_escrow row = do
  taken ← query (λ db.
      is_some
        (fetch_one (select_where (λ e. e.id == row.id || e.trade_id == row.trade_id) db.escrows)))
  raise_if taken integrity_error
  modify (λ db. record db { escrows = db.escrows ++ row ∷ [] })

module _ (s : Stamp) (buy_order sell_order : Order) (quantity price_sat fee_sat : ℕ) where
  abbrev pub new_trade : TradeStatus → Option ℕ → Trade
  new_trade status settled_at = record {
    id = s.trade_id;
    buy_order_id = buy_order.id;
    sell_order_id = sell_order.id;
    token_id = buy_order.token_id;
    quantity = quantity;
    price_sat = price_sat;
    total_sat = quantity * price_sat;
    fee_sat = fee_sat;
    status = status;
    created_at = s.now;
    settled_at = settled_at;
  }

  abbrev pub locked_amount : Keys → ℕ
  locked_amount k = quantity * price_sat + fee_sat + k.escrow_fee_reserve_sat

  abbrev pub new_escrow : Keys → Text → Text → EscrowDetails → Escrow
  new_escrow k buyer_pubkey seller_pubkey d = record {
    id = s.escrow_id;
    trade_id = s.trade_id;
    multisig_address = d.confidential_address;
    buyer_pubkey = buyer_pubkey;
    seller_pubkey = seller_pubkey;
    platform_pubkey = k.platform_pubkey;
    locked_amount_sat = locked_amount k;
    funding_txid = none;
    release_txid = none;
    refund_txid = none;
    collected_signatures = [];
    settlement_metadata =
        ("unconfidential_address", text d.unconfidential_address)
        ∷ ("witness_script", text d.witness_script_hex)
        ∷ ("script_pubkey", text d.script_pubkey_hex)
        ∷ ("blinding_pubkey", text d.blinding_pubkey)
        ∷ ("blinding_private_key", text d.blinding_private_key)
        ∷ ("seller_payout_amount_sat", amount (quantity * price_sat))
        ∷ ("marketplace_fee_amount_sat", amount fee_sat)
        ∷ ("fee_reserve_sat", amount k.escrow_fee_reserve_sat)
        ∷ ("funding_amount_sat", amount (locked_amount k))
        ∷ [];
    status = EscrowStatus.created;
    expires_at = s.now + day;
    created_at = s.now;
    updated_at = s.now;
  }

  -- The statements inside the `try`, commit included.
  unfoldable pub lock_trade : Keys → Text → Text → EscrowDetails → Tx (Trade × Escrow)
  lock_trade k buyer_pubkey seller_pubkey d = do
    decrement_token_balance s.now sell_order.user_id buy_order.token_id quantity
    apply_order_fill s.now buy_order quantity
    apply_order_fill s.now sell_order quantity
    insert_trade (new_trade TradeStatus.pending none)
    insert_escrow (new_escrow k buyer_pubkey seller_pubkey d)
    commit
    pure (new_trade TradeStatus.pending none, new_escrow k buyer_pubkey seller_pubkey d)

  unfoldable pub create_trade_escrow : Keys → Tx (Trade × Escrow)
  create_trade_escrow k = do
    validate_trade_inputs buy_order sell_order quantity price_sat
    buyer_pubkey ← resolve_escrow_pubkey k buy_order.user_id
    seller_pubkey ← resolve_escrow_pubkey k sell_order.user_id
    platform_pubkey ← platform_escrow_pubkey k.platform_pubkey
    script ←
        or_raise (build_2of3_witness_script (buyer_pubkey ∷ seller_pubkey ∷ platform_pubkey ∷ []))
          (value_error participant_pubkey_invalid)
    attempt (lock_trade k buyer_pubkey seller_pubkey (k.escrow_address script s.trade_id))

  -- The token transfers, the fills, the trade row and the fee of an immediate settlement.
  unfoldable pub deliver : Trade → Tx Trade
  deliver trade_row = do
    decrement_token_balance s.now sell_order.user_id buy_order.token_id quantity
    increment_token_balance s.balance_id s.now buy_order.user_id buy_order.token_id quantity
    apply_order_fill s.now buy_order quantity
    apply_order_fill s.now sell_order quantity
    insert_trade trade_row
    record_trade_fee_income s.entry_id s.now trade_row
    commit
    pure trade_row

  -- The statements inside the `try` of an immediate settlement.
  unfoldable pub move_funds : Tx Trade
  move_funds = do
    found_buyer ← get_wallet_by_user_id buy_order.user_id
    found_seller ← get_wallet_by_user_id sell_order.user_id
    buyer_wallet ← or_raise found_buyer (lookup_error wallet_not_found)
    seller_wallet ← or_raise found_seller (lookup_error wallet_not_found)
    debit_wallet_balance s.now buyer_wallet (quantity * price_sat + fee_sat)
    credit_wallet_balance s.now seller_wallet (quantity * price_sat)
    deliver (new_trade TradeStatus.settled (some s.now))

  unfoldable pub settle_trade : Tx Trade
  settle_trade = do
    validate_trade_inputs buy_order sell_order quantity price_sat
    attempt move_funds
