-- ===== src/Producer/Tests.antt =====
-- Tests and witnesses for db/mongo_ticker_producer.hpp.
use crypto_bot.Prelude.{
  ℕ, ◌≡◌, refl, false, none, List, [], ◌∷◌, ok, ltb, if◌then◌else◌, throws, undefined,
}
use crypto_bot.Prelude.Int.{ℤ, pos}
use crypto_bot.Double.{exact}
use crypto_bot.Symbol.{btc_usdt}
use crypto_bot.Ticker.{Ticker}
use crypto_bot.Producer.{
  Event, Document, Replay, book_ticker, order_book_update, on_book_ticker, arrived, flush_events,
  produce,
}
use crypto_bot.Producer.Batches.{batches, flush_closed, produce-batches}

abbrev insert : Event ℤ → List (Event ℤ) → List (Event ℤ)
unfolding arrived
insert e [] = e ∷ []
insert e (x ∷ xs) = if ltb (arrived x) (arrived e) then x ∷ insert e xs else e ∷ x ∷ xs

abbrev by_arrival : List (Event ℤ) → List (Event ℤ)
unfolding insert
by_arrival [] = []
by_arrival (e ∷ es) = insert e (by_arrival es)

abbrev ticker : ℕ → Ticker ℤ
ticker ts = record {
  bid = pos 4;
  bid_vol = none;
  ask = pos 5;
  ask_vol = none;
  source_ts = none;
  arrived_ts = ts;
  id = 0;
  exchange = "binance";
  symbol = btc_usdt;
}

abbrev documents : List (Document ℤ)
documents =
    record { minute_utc = pos 7; events = book_ticker (ticker 30) ∷ [] }
    ∷ record { minute_utc = pos 7; events = book_ticker (ticker 20) ∷ [] }
    ∷ record { minute_utc = pos 8; events = book_ticker (ticker 40) ∷ [] }
    ∷ []

abbrev unused : Replay ℤ
unused = record { order_books = []; calls = [] }

-- The events of minute 7 are replayed in the order of arrival, and that of minute 8 is not.
last_minute_lost :
    produce (flush_events by_arrival (0 ∷ [])) documents unused
    ≡ ok (
      record {
        order_books = [];
        calls = (0, on_book_ticker (ticker 30)) ∷ (0, on_book_ticker (ticker 20)) ∷ [];
      },
      2,
    )
unfolding produce flush_events by_arrival
last_minute_lost = refl

-- An update without bids finds no precision for a new book.
no_bids :
    flush_events by_arrival
      (0 ∷ [])
      (order_book_update (record {
        last_update_id = 1;
        is_snapshot = false;
        bids = [];
        asks = [];
        arrived_ts = 1;
        exchange = "binance";
        symbol = btc_usdt;
      })
        ∷ [])
      unused
    ≡ throws undefined
unfolding flush_events by_arrival
no_bids = refl

produce-batches_example :
    produce (flush_events by_arrival (0 ∷ [])) documents unused
    ≡ flush_closed (flush_events by_arrival (0 ∷ [])) (batches documents) 0 unused
produce-batches_example =
    produce-batches (flush_events by_arrival (0 ∷ [])) documents unused
      (refl, (refl, refl, (refl, refl, tt)))
