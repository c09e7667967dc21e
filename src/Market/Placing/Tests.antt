-- ===== src/Market/Placing/Tests.antt =====
-- Placing an order against the matched pair of the tests: the handler and one turn of its loop.
use tokenization.Common.{
  ℕ, zero, suc, ◌+◌, ◌*◌, ◌<◌, ◌≡◌, refl, length, arith, Option, some, is_some, false, none, [],
  ◌∷◌,
}
use tokenization.Common.Table.{count_where, sum_by, select_where}
use tokenization.Database.Model.{Side, OrderType, Text, Order, Db}
use tokenization.Database.Tx.{Result, ok, err, Conn, at_rest, ◌>>=◌, query, pure}
use tokenization.Database.Tx.Rests.{Rested}
use tokenization.Market.Keys.{Keys}
use tokenization.Market.Orders.{OrderRequest, new_order}
use tokenization.Market.Fixture.{stamp, matched}
use tokenization.Market.Book.{get_reference_price_for_token}
use tokenization.Common.Sort.{order_by}
use tokenization.Market.Trading.{Stamp}
use tokenization.Market.Integrity.Preserved.{IsSettled, SameSupply}
use tokenization.Market.Integrity.Tests.{matched-IsSettled}
use tokenization.Market.Placing.{Progress, open_order, match_turn, delete_order, trigger_time}
use tokenization.Market.Placing.Handler.{start, match_orders, place_order}
use tokenization.Market.Placing.Work.{work, OrdersKeyed}
use tokenization.Market.Placing.Checks.{would_trigger, trigger_time-would_trigger}
use tokenization.Market.Placing.Deletes.{Deletes, delete_order-Deletes}
use tokenization.Market.Placing.Ends.{Ended, place_order-Ends}
use tokenization.Market.Placing.Loop.{Loops, place_order-IsSettled}

abbrev ones : ℕ → Text
ones zero = []
ones (suc n) = b'1' ∷ ones n

abbrev keys : Keys
keys = record {
  wallet_pubkey = λ u path seed. ones 64;
  platform_pubkey = b'0' ∷ b'2' ∷ ones 64;
  escrow_address = λ script t. record {
    confidential_address = script;
    unconfidential_address = script;
    witness_script_hex = script;
    script_pubkey_hex = script;
    blinding_private_key = [];
    blinding_pubkey = [];
  };
  escrow_fee_reserve_sat = 100;
}

abbrev request : OrderRequest
request = record {
  token_id = 7;
  side = Side.buy;
  order_type = OrderType.limit;
  quantity = 2;
  price_sat = 160;
  trigger_price_sat = none;
}

-- The fixture with its token: the ask for six tokens at 150 rests in the book.
abbrev book : Db
book = record matched {
  tokens =
      record {
        id = 7;
        asset_id = 8;
        liquid_asset_id = [];
        total_supply = 100;
        circulating_supply = 100;
        unit_price_sat = 150;
        minted_at = 1;
      }
      ∷ [];
}

abbrev mine : Order
mine = new_order 90 1000 10 request none

-- The order is placed, its first turn trades, and before the second one its owner cancels the bid.
abbrev after_turn : Result Progress × Conn
after_turn =
    match_turn keys stamp 10 request (start keys 10 request mine)
      (open_order 0 stamp 10 request (at_rest book)).1

book-IsSettled : IsSettled (at_rest book)
book-IsSettled = record { clean = refl; sound = matched-IsSettled.sound }

place_order-IsSettled_example :
    IsSettled (delete_order 1001 1 10 after_turn.1).1
    × SameSupply (at_rest book) (delete_order 1001 1 10 after_turn.1).1
place_order-IsSettled_example =
    place_order-IsSettled 0 stamp keys 10 request mine (at_rest book) _ _ book-IsSettled
      (Loops.deletes (Loops.turns Loops.enters refl stamp) 1001 1 10)

abbrev stamps : ℕ → Stamp
stamps i = record stamp { now = 1000 + i; trade_id = 100 + i; escrow_id = 100 + i }

book-OrdersKeyed : OrdersKeyed book.orders
unfolding count_where
book-OrdersKeyed i = ground arith

few_turns : work book.orders + 2 * request.quantity + 1 < 24
unfolding sum_by
few_turns = omega arith

place_order-Ends_example :
    let out = place_order keys 10 request 24 0 stamps (at_rest book) in
    Rested (Ended keys 10 request 90) out.0 out.1
place_order-Ends_example =
    place_order-Ends keys 10 request 24 0 stamps book book-OrdersKeyed few_turns

-- Of the twenty-four turns two are taken, and one trade is made.
abbrev trades_made : Result Progress → ℕ
trades_made (ok p) = length p.published
trades_made (err e) = 0

one_trade : trades_made (place_order keys 10 request 24 0 stamps (at_rest book)).0 ≡ 1
unfolding place_order tokenization.Database.Tx.◌>>=◌ open_order
    tokenization.Market.Orders.get_token_by_id tokenization.Database.Tx.query
    tokenization.Database.Tx.or_raise tokenization.Common.Table.select_where
    tokenization.Market.Balances.get_wallet_by_user_id tokenization.Market.Placing.check_funds
    tokenization.Market.Orders.get_reserved_buy_commitment tokenization.Database.Tx.raise_if
    tokenization.Market.Placing.wallet_total_balance sum_by
    tokenization.Market.Placing.enforce_kyc_threshold tokenization.Database.Tx.pure
    tokenization.Market.Orders.create_order tokenization.Database.Tx.modify
    tokenization.Common.Sort.order_by tokenization.Common.Table.update_where
    tokenization.Common.Text.from_hex tokenization.Common.Text.hex_digit
    tokenization.Common.Text.is_space tokenization.Common.Text.lower tokenization.Common.Text.strip
    tokenization.Common.Text.strip_left tokenization.Database.Tx.attempt
    tokenization.Database.Tx.catch tokenization.Database.Tx.commit tokenization.Database.Tx.raise
    tokenization.Market.Balances.apply_order_fill
    tokenization.Market.Balances.decrement_token_balance
    tokenization.Market.Book.activate_triggered_orders tokenization.Market.Book.find_best_match
    tokenization.Market.Keys.build_2of3_witness_script
    tokenization.Market.Keys.normalize_participant_pubkey tokenization.Market.Orders.get_order_by_id
    tokenization.Market.Orders.remaining_quantity tokenization.Market.Orders.validate_trade_inputs
    match_orders match_turn tokenization.Market.Placing.reread
    tokenization.Market.Trading.create_trade_escrow
    tokenization.Market.Trading.get_nostr_identity_by_user_id
    tokenization.Market.Trading.insert_escrow tokenization.Market.Trading.insert_trade
    tokenization.Market.Trading.lock_trade tokenization.Market.Trading.resolve_escrow_pubkey
one_trade = refl

-- The owner of the bid cancels it.
delete_order-Deletes_example : Deletes 1001 1 10 book (delete_order 1001 1 10 (at_rest book))
delete_order-Deletes_example = delete_order-Deletes 1001 1 10 book book-OrdersKeyed

-- A stop order that buys at 140 or more, where the last trade was at 150.
abbrev stop_request : OrderRequest
stop_request = record request { order_type = OrderType.stop_limit; trigger_price_sat = some 140 }

last_price : get_reference_price_for_token 7 (at_rest book) ≡ (ok (some 150), at_rest book)
unfolding get_reference_price_for_token ◌>>=◌ query pure select_where order_by
last_price = refl

trigger_time-would_trigger_example :
    (t : Option ℕ) × (trigger_time 1000 stop_request (some 140) (at_rest book)
      ≡ (ok t, at_rest book))
    × (is_some t ≡ would_trigger (some 150) (new_order 90 1000 10 stop_request none))
trigger_time-would_trigger_example =
    trigger_time-would_trigger 90 1000 10 stop_request (at_rest book) (some 150) last_price
