-- ===== src/KrakenStream/Tests.antt =====
-- Tests and witnesses for websocket/kraken_websocket_client.hpp.
use crypto_bot.Prelude.{◌≡◌, refl, false, none, some, [], ◌∷◌, throws, out_of_range}
use crypto_bot.Prelude.Int.{ℤ}
use crypto_bot.Double.{exact}
use crypto_bot.KrakenBook.{BookMessage}
use crypto_bot.KrakenBook.Numbers.{size}
use crypto_bot.KrakenStream.{KrakenStream, book, subscribe, subscribe_order_book, on_message}
use crypto_bot.KrakenStream.Books.{HasValidBooks, subscribe-HasValidBooks, on_message-HasValidBooks}

abbrev idle : KrakenStream ℤ
idle = record {
  subscription_msg = [];
  order_books = [];
  tickers_watcher = record { interval_ms = 30000; last_arrived = []; sum_delay = 0; count = 0 };
  last_ticker_id = 0;
}

abbrev changes : BookMessage
changes = record {
  book = record {
    as_levels = none;
    bs_levels = none;
    a_levels = some (record { price = "4700000"; volume = "7"; timestamp = "1.500000" } ∷ []);
    b_levels = none;
    c_text = some "5";
  };
  second = none;
}

-- The pair is not among those whose precisions are known.
unknown_pair : (subscribe_order_book "XBT/EUR" 10 idle).1 ≡ throws out_of_range
unfolding subscribe
unknown_pair = refl

on_message-HasValidBooks_example :
    HasValidBooks
      (on_message size false 9 (book changes "XBT/USDT") (subscribe "XBT/USDT" 10 10 idle).0).0
on_message-HasValidBooks_example =
    on_message-HasValidBooks size false 9 (book changes "XBT/USDT")
      (subscribe "XBT/USDT" 10 10 idle).0 (subscribe-HasValidBooks "XBT/USDT" 10 10 idle tt)
