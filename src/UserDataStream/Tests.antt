-- ===== src/UserDataStream/Tests.antt =====
-- Tests and witnesses for websocket/binance_user_data_stream.hpp.
use crypto_bot.Prelude.{◌≡◌, refl, true, none, some, List, [], ◌∷◌, ok, if◌then◌else◌, ◌==◌, arith}
use crypto_bot.Prelude.Int.{ℤ, pos}
use crypto_bot.Assoc.{find}
use crypto_bot.Symbol.{SymbolId, btc_usdt, usdt, string_key}
use crypto_bot.Symbol.Pair.{from_binance_string}
use crypto_bot.Numerals.{to_string}
use crypto_bot.Double.{exact, read_ℤ}
use crypto_bot.Json.Flat.{Flat, words, number, object, reads_as}
use crypto_bot.Order.{Order, buy, limit, new, unknown_type}
use crypto_bot.Exchange.{success, succeeded, get}
use crypto_bot.AccountBalance.{get_locked_balance}
use crypto_bot.AccountManager.{AccountManager}
use crypto_bot.AccountManager.Requests.{limit_order}
use crypto_bot.UserDataStream.{
  Event, Answers, new_stream, stream_uri, on_close, get_type, on_message,
}
use crypto_bot.UserDataStream.Keys.{on_close-first}
use crypto_bot.UserDataStream.Reports.{Report, IsReport, deliver, on_message-canceled}

lower_case : get_type "Limit" ≡ limit
unfolding get_type
lower_case = refl

stop_loss : get_type "STOP_LOSS" ≡ unknown_type
unfolding get_type
stop_loss = refl

abbrev answers : Answers
answers k = if k == 2 then ok (some "key2") else ok none

on_close-first_example :
    on_close 3 answers (new_stream "key1" 7)
    ≡ some (ok (record (new_stream "key1" 7) { uri = stream_uri "key2" }))
on_close-first_example =
    on_close-first answers 2 "key2" (new_stream "key1" 7) (λ i h. ground arith) refl

abbrev report : Report ℤ
report = record {
  event_ms = 9;
  id = 28;
  client_id = "6gC";
  symbol = "BTCUSDT";
  side = "BUY";
  order_type = "LIMIT";
  quantity = pos 5;
  price = pos 100;
  status = "CANCELED";
  executed = pos 0;
  cost = pos 0;
}

abbrev message : Flat
message = object (
    ("e", words "executionReport")
    ∷ ("E", number (pos 9))
    ∷ ("i", number (pos 28))
    ∷ ("c", words "6gC")
    ∷ ("s", words "BTCUSDT")
    ∷ ("S", words "BUY")
    ∷ ("o", words "LIMIT")
    ∷ ("q", words "5")
    ∷ ("p", words "100")
    ∷ ("X", words "CANCELED")
    ∷ ("z", words "0")
    ∷ ("Z", words "0")
    ∷ [])

message-IsReport : IsReport ⦃j = reads_as message⦄ message report
unfolding reads_as read_ℤ
message-IsReport = record {
  has_event = refl;
  event = refl;
  event_ms = refl;
  id = refl;
  client_id = refl;
  symbol = refl;
  side = refl;
  order_type = refl;
  quantity = refl;
  price = refl;
  status = refl;
  executed = refl;
  cost = refl;
}

abbrev manager : AccountManager ℤ
manager = record {
  external_orders = [];
  our_orders = [];
  account_balance = record {
    asset_balance_map = (usdt, pos 1000) ∷ [];
    locked_balance_map = [];
    exchange = "binance";
  };
  is_account_synced = true;
}

abbrev placed : Order ℤ
placed = record {
  id = "28";
  client_id = "6gC";
  symbol_id = btc_usdt;
  side = buy;
  order_type = limit;
  quantity = pos 5;
  price = pos 100;
  status = new;
  creation_time_us = 0;
  executed_quantity = pos 0;
  total_cost = pos 0;
}

on_message-canceled_example :
    (events : List (Event ℤ)) × (on_message Flat ⦃j = reads_as message⦄ 0 message ≡ ok events)
    × (let after = deliver events (limit_order (success "{}" placed) (pos 100) manager).0 in
        (after.1 ≡ none)
        × (after.0.our_orders ≡ manager.our_orders)
        × (after.0.external_orders ≡ manager.external_orders)
        × ((x : SymbolId)
            → get_locked_balance after.0.account_balance x
              ≡ get_locked_balance manager.account_balance x)
        × (after.0.account_balance.asset_balance_map ≡ manager.account_balance.asset_balance_map))
unfolding from_binance_string find to_string succeeded get
on_message-canceled_example =
    on_message-canceled ⦃j = reads_as message⦄ 0 message report message-IsReport refl refl manager
      (success "{}" placed) placed (pos 100) refl refl (λ e. cc) refl refl
