-- ===== src/KrakenBook/Tests.antt =====
-- Tests and witnesses for websocket/kraken_order_book_handler.hpp.
use crypto_bot.Prelude.{refl, true, false, none, some, [], ◌∷◌, arith}
use crypto_bot.Prelude.Int.{ℤ, ◌*ℤ◌}
use crypto_bot.Double.{exact, read_ℤ}
use crypto_bot.Symbol.{btc_usdt}
use crypto_bot.OrderBook.{OrderBook}
use crypto_bot.OrderBook.Validity.{IsValid}
use crypto_bot.KrakenBook.{KrakenLevel, BookMessage, on_order_book_message}
use crypto_bot.KrakenBook.Numbers.{size}
use crypto_bot.KrakenBook.Validity.{on_order_book_message-IsValid}
use crypto_bot.KrakenBook.Checksum.{HasChecksum, on_order_book_message-HasChecksum}

abbrev book : OrderBook ℤ
book = record {
  bids = [];
  asks = [];
  exchange_name = "kraken";
  symbol = btc_usdt;
  depth = 10;
  precision_settings = record {
    price_precision = 2;
    volume_precision = 0;
    timestamp_precision = 1;
  };
  last_update = record {
    last_update_id = 0;
    is_snapshot = false;
    bids = [];
    asks = [];
    arrived_ts = 0;
    exchange = "kraken";
    symbol = btc_usdt;
  };
}

-- The price has no point: its two characters pass for two behind one.
abbrev level : KrakenLevel
level = record { price = "47"; volume = "7"; timestamp = "1.5" }

abbrev changes : BookMessage
changes = record {
  book = record {
    as_levels = none;
    bs_levels = none;
    a_levels = some (level ∷ []);
    b_levels = none;
    c_text = some "5";
  };
  second = none;
}

on_order_book_message-IsValid_example : IsValid (on_order_book_message size true changes book).0
on_order_book_message-IsValid_example =
    on_order_book_message-IsValid size true changes book (record {
      bids_sorted = tt;
      asks_sorted = tt;
      bids_fit = omega arith;
      asks_fit = omega arith;
    })

on_order_book_message-HasChecksum_example :
    HasChecksum size "5" (on_order_book_message size true changes book).0
unfolding on_order_book_message ◌*ℤ◌ read_ℤ
on_order_book_message-HasChecksum_example =
    on_order_book_message-HasChecksum size changes "5" book refl refl refl
