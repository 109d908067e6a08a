-- ===== src/BinanceStream/Tests.antt =====
-- Tests and witnesses for websocket/binance_order_book_stream.hpp.
use crypto_bot.Prelude.{List, ℕ, ◌≡◌, refl, false, none, some, [], ◌∷◌, arith}
use crypto_bot.Prelude.Int.{ℤ, pos}
use crypto_bot.Symbol.{btc_usdt}
use crypto_bot.Double.{exact}
use crypto_bot.OrderBook.{OrderBook, OrderBookUpdate, RawLevel}
use crypto_bot.OrderBook.Validity.{IsValid}
use crypto_bot.BinanceStream.{DepthUpdate, no_state, running, Stream, on_message}
use crypto_bot.BinanceStream.Validity.{on_message-IsValid}
use crypto_bot.BinanceStream.{Snapshot}
use crypto_bot.BinanceStream.Sequence.{apply_all, on_messages, on_messages_book}

abbrev raw : RawLevel
raw = record { price = "100"; volume = "7"; timestamp = none }

abbrev no_update : OrderBookUpdate
no_update = record {
  last_update_id = 0;
  is_snapshot = false;
  bids = [];
  asks = [];
  arrived_ts = 0;
  exchange = "binance";
  symbol = btc_usdt;
}

abbrev book : OrderBook ℤ
book = record {
  bids = record { price = 9000; volume = pos 3; timestamp = 0 } ∷ [];
  asks = [];
  exchange_name = "binance";
  symbol = btc_usdt;
  depth = 1000;
  precision_settings = record {
    price_precision = 2;
    volume_precision = 8;
    timestamp_precision = 3;
  };
  last_update = no_update;
}

abbrev depth_update : ℕ → ℕ → DepthUpdate
depth_update first last = record {
  first_update_id = first;
  final_update_id = last;
  symbol = "BTCUSDT";
  bids = raw ∷ [];
  asks = [];
}

abbrev stream : Stream ℤ
stream = record {
  order_book = book;
  previous_update_id = 10;
  book_snapshot_future = no_state;
  depth_updates = [];
  tickers_watcher = record { interval_ms = 30000; last_arrived = []; sum_delay = 0; count = 0 };
  reported = [];
}

-- An update across a gap asks for a snapshot instead of changing the book.
gap_asks :
    (on_message no_update 5 (some (depth_update 13 14)) stream).0.book_snapshot_future ≡ running
unfolding on_message
gap_asks = refl

on_message-IsValid_example :
    IsValid (on_message no_update 5 (some (depth_update 11 12)) stream).0.order_book
on_message-IsValid_example =
    on_message-IsValid no_update 5 (some (depth_update 11 12)) stream (record {
      bids_sorted = (tt, tt);
      asks_sorted = tt;
      bids_fit = omega arith;
      asks_fit = omega arith;
    })

on_messages_book_example :
    let ms = depth_update 9 12 ∷ depth_update 13 13 ∷ [] in
    let (after, fault) = on_messages no_update 5 ms stream in
    (after.order_book ≡ (apply_all 5 ms book).0)
    × (fault ≡ (apply_all 5 ms book).1)
    × (after.book_snapshot_future ≡ no_state)
on_messages_book_example =
    on_messages_book no_update 5 (depth_update 9 12 ∷ depth_update 13 13 ∷ []) stream refl
      (omega arith, (omega arith, tt))

abbrev buffered_updates : List DepthUpdate
buffered_updates = depth_update 9 12 ∷ depth_update 13 13 ∷ []

abbrev snapshot : Snapshot
snapshot = record { last_update_id = 11; bids = raw ∷ []; asks = [] }

abbrev fetching : Stream ℤ
fetching = record stream { book_snapshot_future = running }
