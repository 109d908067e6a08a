-- ===== src/BinanceTickers/Tests.antt =====
-- Tests for websocket/binance_book_ticker_stream.hpp and websocket/binance_trade_ticker_stream.hpp.
use crypto_bot.Prelude.{◌≡◌, refl, true, some, [], ◌∷◌, ok}
use crypto_bot.Prelude.Int.{ℤ, pos}
use crypto_bot.Double.{exact, read_ℤ}
use crypto_bot.Symbol.{btc_usdt}
use crypto_bot.Json.Flat.{Flat, words, truth, number, object, reads_as}
use crypto_bot.BinanceTickers.{TickerStream, on_trade_message}

abbrev idle : TickerStream
idle = record {
  subscription_msg = [];
  sub_id = 0;
  tickers_watcher = record { interval_ms = 30000; last_arrived = []; sum_delay = 0; count = 0 };
}

abbrev trade : Flat
trade = object (
    ("e", words "trade")
    ∷ ("E", number (pos 5))
    ∷ ("s", words "BTCUSDT")
    ∷ ("t", number (pos 12))
    ∷ ("p", words "90")
    ∷ ("q", words "2")
    ∷ ("T", number (pos 4))
    ∷ ("m", truth true)
    ∷ [])

trade_read :
    (on_trade_message {D = ℤ} ⦃j = reads_as trade⦄ 9 trade idle).1
    ≡ ok (
        some (record {
          event_time = 5;
          trade_time = 4;
          symbol = btc_usdt;
          exchange = "binance";
          trade_id = "12";
          price = pos 90;
          qty = pos 2;
          is_market_maker = true;
          arrived_ts = 9;
        }))
unfolding on_trade_message reads_as read_ℤ
trade_read = refl
