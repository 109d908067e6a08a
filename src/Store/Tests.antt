-- ===== src/Store/Tests.antt =====
-- Tests and witnesses for db/mongo_ticker_consumer.hpp.
use crypto_bot.Prelude.{◌≡◌, refl, false, none, some, [], ◌∷◌, map, ok, arith}
use crypto_bot.Prelude.Int.{ℤ}
use crypto_bot.Double.{exact}
use crypto_bot.Symbol.{btc_usdt}
use crypto_bot.Symbol.Pair.{get_string_symbol}
use crypto_bot.OrderBook.{OrderBook}
use crypto_bot.Store.{Upsert, update_upsert}
use crypto_bot.Store.Reading.{read_events}
use crypto_bot.Store.Values.{Value, values}
use crypto_bot.Store.Values.{values-IsFaithful}
use crypto_bot.Store.RoundTrip.{replayed, read_events-update_upsert}

abbrev book : OrderBook ℤ
book = record {
  bids = [];
  asks = [];
  exchange_name = "kraken";
  symbol = btc_usdt;
  depth = 10;
  precision_settings = record {
    price_precision = 5;
    volume_precision = 8;
    timestamp_precision = 6;
  };
  last_update = record {
    last_update_id = 3;
    is_snapshot = false;
    bids = record { price = "9000.5"; volume = "1.25"; timestamp = some 1600000000 } ∷ [];
    asks = record { price = "9001.5"; volume = "0"; timestamp = none } ∷ [];
    arrived_ts = 120000007;
    exchange = "kraken";
    symbol = btc_usdt;
  };
}

abbrev stored : Upsert Value
unfolding update_upsert
stored = update_upsert values book

read_events-update_upsert_example :
    read_events values 0 stored.kind stored.exchange
      (get_string_symbol stored.symbol)
      (map (λ ob. (update_upsert values ob).pushed) (book ∷ []))
    ≡ ok (map replayed (book ∷ []))
unfolding update_upsert
read_events-update_upsert_example =
    read_events-update_upsert values values-IsFaithful 0 stored (book ∷ []) refl (
      (
        refl,
        refl,
        refl,
        record {
          bids_fit = (omega arith, tt);
          asks_fit = (tt, tt);
          id_fits = omega arith;
          time_fits = omega arith;
        },
      ),
      tt,
    )
