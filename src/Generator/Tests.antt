-- ===== src/Generator/Tests.antt =====
-- Tests and witnesses for strategy/indicator/indicators_generator.hpp.
use crypto_bot.Prelude.{◌≡◌, refl, true, false, List, [], ◌∷◌, ok, arith}
use crypto_bot.Prelude.Int.{ℤ, pos}
use crypto_bot.Symbol.{btc_usdt}
use crypto_bot.Double.{exact}
use crypto_bot.OrderBook.{OrderBook}
use crypto_bot.Generator.{IndicatorsGenerator, TradeTicker, new_generator}
use crypto_bot.Generator.Columns.{
  Event, trade_ticker, order_book, handle_all, books, HasEqualColumns, handle_all-HasEqualColumns,
}

abbrev book : OrderBook ℤ
book = record {
  bids = record { price = 9000; volume = pos 3; timestamp = 0 } ∷ [];
  asks = record { price = 9010; volume = pos 2; timestamp = 0 } ∷ [];
  exchange_name = "binance";
  symbol = btc_usdt;
  depth = 1000;
  precision_settings = record {
    price_precision = 2;
    volume_precision = 8;
    timestamp_precision = 3;
  };
  last_update = record {
    last_update_id = 0;
    is_snapshot = false;
    bids = [];
    asks = [];
    arrived_ts = 7;
    exchange = "binance";
    symbol = btc_usdt;
  };
}

abbrev trade : TradeTicker ℤ
trade = record {
  event_time = 4;
  trade_time = 4;
  symbol = btc_usdt;
  exchange = "binance";
  trade_id = "1";
  price = pos 90;
  qty = pos 2;
  is_market_maker = true;
  arrived_ts = 5;
}

abbrev events : List (Event ℤ)
events = trade_ticker trade ∷ order_book book ∷ trade_ticker (record trade { arrived_ts = 8 }) ∷ []

handle_all-HasEqualColumns_example :
    (g1 : IndicatorsGenerator ℤ) × (handle_all events new_generator ≡ ok g1) × HasEqualColumns 1 g1
unfolding books
handle_all-HasEqualColumns_example =
    handle_all-HasEqualColumns events
      (omega arith, refl, (omega arith, refl, (omega arith, refl, tt)))
