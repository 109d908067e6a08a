-- ===== src/Backtest/Tests.antt =====
-- Tests and witnesses for backtest/backtest_exchange_client.hpp, on amounts that are integers.
use crypto_bot.Prelude.{
  ℕ, ◌+◌, ◌*◌, ◌≤◌, ◌≡◌, refl, true, none, some, [], ◌∷◌, throws, out_of_range, length,
}
use crypto_bot.Prelude.Int.{ℤ, pos, ◌+ℤ◌, ◌-ℤ◌, ◌*ℤ◌}
use crypto_bot.Assoc.{find, insert_or_assign}
use crypto_bot.Symbol.{ada_usdt, ada, usdt}
use crypto_bot.Symbol.Pair.{get_base_asset, get_quote_asset, get_symbol_pair}
use crypto_bot.Double.{exact}
use crypto_bot.Order.{Order, Builder, buy, sell, limit, new, order_eq}
use crypto_bot.AccountBalance.{get_total_balance}
use crypto_bot.Ticker.{Ticker}
use crypto_bot.Backtest.{
  Client, BacktestSettings, new_client, market_order, limit_order, cancel_order,
}
use crypto_bot.Backtest.Execution.{on_book_ticker, handle_limit_orders}
use crypto_bot.Backtest.Cancel.{cancel_order_absent}
use crypto_bot.Backtest.Conservation.{handle_limit_orders_half}

abbrev settings : BacktestSettings ℤ
settings = record {
  exchange = "test";
  fee = pos 0;
  slippage = pos 1;
  network_latency_us = pos 100000;
  execution_delay_us = pos 20000;
  initial_balances = (ada, pos 100000) ∷ (usdt, pos 100000) ∷ [];
}

abbrev ticker : ℕ → ℕ → ℕ → Ticker ℤ
ticker ask bid ts = record {
  ask = pos ask;
  ask_vol = some (pos 1000);
  bid = pos bid;
  bid_vol = some (pos 2000);
  source_ts = none;
  arrived_ts = ts;
  id = 0;
  exchange = "test";
  symbol = ada_usdt;
}

abbrev memory : Builder ℤ
memory = record {
  id = "";
  client_id = "";
  symbol_id = ada_usdt;
  side = buy;
  order_type = limit;
  quantity = pos 0;
  price = pos 0;
  status = new;
  creation_time_us = 0;
}

abbrev client : Client ℤ
unfolding new_client
client = record (new_client settings) { has_user_data_listener = true }

-- After one ticker a market order is sent, which the third ticker finds due.
abbrev waiting : Client ℤ
unfolding client on_book_ticker market_order
waiting =
    (on_book_ticker (ticker 12 11 80000)
      (market_order memory ada_usdt buy (pos 10) (on_book_ticker (ticker 11 10 1) client).0).0).0

order_executed :
    let after = (on_book_ticker (ticker 13 11 230000) waiting).0 in
    (after.pending_market_orders ≡ []) × (get_total_balance after.account_balance usdt ≡ pos 99870)
unfolding waiting get_total_balance find get_base_asset get_quote_asset get_symbol_pair ◌+ℤ◌ ◌-ℤ◌
    ◌*ℤ◌
order_executed = (refl, refl)

abbrev resting : Order ℤ
resting = record {
  id = "1";
  client_id = "1";
  symbol_id = ada_usdt;
  side = sell;
  order_type = limit;
  quantity = pos 5;
  price = pos 9;
  status = new;
  creation_time_us = 0;
  executed_quantity = pos 0;
  total_cost = pos 0;
}

abbrev resting_client : Client ℤ
unfolding client
resting_client = record client {
  limit_orders = resting ∷ record resting { id = "2" } ∷ record resting { id = "3" } ∷ [];
  tickers = (ada_usdt, ticker 11 10 1) ∷ [];
}

-- The second of three orders is passed over.
handle_limit_orders_half_example :
    let after = (handle_limit_orders (ticker 11 10 1) resting_client).0 in
    (length after.limit_orders * 2 ≤ 3) × (3 ≤ length after.limit_orders * 2 + 1)
unfolding resting_client handle_limit_orders get_base_asset get_quote_asset get_symbol_pair ◌+ℤ◌
    ◌-ℤ◌ ◌*ℤ◌ insert_or_assign
handle_limit_orders_half_example =
    handle_limit_orders_half (ticker 11 10 1) resting_client (refl, (refl, (refl, tt))) refl

cancel_order_absent_example :
    cancel_order (record resting { id = "9" }) resting_client
    ≡ (resting_client, throws out_of_range)
unfolding resting_client order_eq crypto_bot.Backtest.has_open_orders
cancel_order_absent_example =
    cancel_order_absent resting_client (record resting { id = "9" }) (refl, (refl, (refl, tt)))
