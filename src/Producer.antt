-- ===== src/Producer.antt =====
-- db/mongo_ticker_producer.hpp: the replay of stored events. The documents of a cursor come parsed.
-- std::sort is a parameter, since the order of events of the same time is not defined. An exception
-- ends the program.
pub mod Batches
mod Tests
use text.Mathlib.Text.{◌==◌ as str_eq}
use crypto_bot.Prelude.{
  ℕ, ◌+◌, ◌%◌, ◌^◌, Bool, true, false, ◌&&◌, Option, none, some, List, [], ◌∷◌, ◌++◌, length, Fault,
  Outcome, ok, throws, ◌>>=◌, aborted, undefined, ◌==◌,
}
use crypto_bot.Prelude.Int.{ℤ, pos, ltb_ℤ}
use crypto_bot.Symbol.{pair_eq}
use crypto_bot.Double.{Double}
use crypto_bot.Ticker.{Ticker}
use crypto_bot.Generator.{TradeTicker}
use crypto_bot.Settings.{precision_from_string}
use crypto_bot.OrderBook.{RawLevel, OrderBook, OrderBookUpdate, update}

pub data Event {ℓ} (D : Type ℓ) : Type ℓ where
  book_ticker : Ticker D → Event D
  trade_ticker : TradeTicker D → Event D
  order_book_update : OrderBookUpdate → Event D

pub record Document {ℓ} (D : Type ℓ) : Type ℓ where
  pub minute_utc : ℤ
  pub events : List (Event D)

-- What a listener is called with.
pub data Call {ℓ} (D : Type ℓ) : Type ℓ where
  on_book_ticker : Ticker D → Call D
  on_trade_ticker : TradeTicker D → Call D
  on_order_book_update : OrderBook D → Call D

-- The books, and the calls of the listeners, by the place of the listener, the newest first.
pub record Replay {ℓ} (D : Type ℓ) : Type ℓ where
  pub order_books : List (OrderBook D)
  pub calls : List (ℕ × Call D)

module _ {ℓ} {D : Type ℓ} where
  unfoldable pub arrived : Event D → ℕ
  arrived (book_ticker t) = t.arrived_ts
  arrived (trade_ticker t) = t.arrived_ts
  arrived (order_book_update u) = u.arrived_ts

  -- The book that `GetOrCreateOrderBook` creates. An update without bids has no first bid to read.
  abbrev created : OrderBookUpdate → List RawLevel → Outcome (OrderBook D)
  unfolding precision_from_string
  created u [] = throws undefined
  created u (bid ∷ bids) = do
    price_precision ← precision_from_string bid.price
    volume_precision ← precision_from_string bid.volume
    ok (record {
      bids = [];
      asks = [];
      exchange_name = u.exchange;
      symbol = u.symbol;
      depth = 1000;
      precision_settings = record {
        price_precision = price_precision;
        volume_precision = volume_precision;
        timestamp_precision = 3;
      };
      last_update = u;
    })

  abbrev is_book_of : OrderBookUpdate → OrderBook D → Bool
  is_book_of u ob = str_eq ob.exchange_name u.exchange && pair_eq ob.symbol u.symbol

  abbrev was_updated : OrderBook D × Option Fault → Outcome (OrderBook D)
  was_updated (ob, none) = ok ob
  was_updated (ob, some x) = throws x

module _ {ℓ} {D : Type ℓ} ⦃d : Double D⦄ where
  -- `GetOrCreateOrderBook` and the update of the book that it gives: the books, and that one.
  unfoldable pub update_book :
      OrderBookUpdate → List (OrderBook D) → Outcome (List (OrderBook D) × OrderBook D)
  unfolding created update
  update_book u [] = do ob ← created u u.bids; ob1 ← was_updated (update ob u); ok (ob1 ∷ [], ob1)
  update_book u (ob ∷ obs) = elim (is_book_of u ob) [
    | true ↦ do ob1 ← was_updated (update ob u); ok (ob1 ∷ obs, ob1)
    | false ↦ do r ← update_book u obs; ok (ob ∷ r.0, r.1)
  ]

  -- The call of the listener `i` for an event. An update is applied for every listener again.
  abbrev call_listener : Event D → ℕ → Replay D → Outcome (Replay D)
  unfolding update_book
  call_listener (book_ticker t) i s = ok (record s { calls = (i, on_book_ticker t) ∷ s.calls })
  call_listener (trade_ticker t) i s = ok (record s { calls = (i, on_trade_ticker t) ∷ s.calls })
  call_listener (order_book_update u) i s = do
    r ← update_book u s.order_books
    ok (record { order_books = r.0; calls = (i, on_order_book_update r.1) ∷ s.calls })

  abbrev call_listeners : Event D → List ℕ → Replay D → Outcome (Replay D)
  unfolding call_listener
  call_listeners e [] s = ok s
  call_listeners e (i ∷ is') s = do s1 ← call_listener e i s; call_listeners e is' s1

  abbrev call_all : List ℕ → List (Event D) → Replay D → Outcome (Replay D)
  unfolding call_listeners
  call_all listeners [] s = ok s
  call_all listeners (e ∷ es) s = do s1 ← call_listeners e listeners s; call_all listeners es s1

  -- `FlushEvents`
  unfoldable pub flush_events :
      (List (Event D) → List (Event D)) → List ℕ → List (Event D) → Replay D → Outcome (Replay D)
  unfolding call_all
  flush_events sort listeners events s = call_all listeners (sort events) s

abbrev pub is_zero : ℤ → Bool
is_zero (pos n) = n == 0
is_zero _ = false

abbrev bucket_of : Bool → ℤ → ℤ → ℤ
bucket_of true prev minute = minute
bucket_of false prev minute = prev

-- The assertion at the end of a round.
abbrev pub checked {ℓ} : {A : Type ℓ} → Bool → Outcome A → Outcome A
checked true rest = throws aborted
checked false rest = rest

module _ {ℓ κ} {D : Type ℓ} {S : Type κ} (flush : List (Event D) → S → Outcome S) where
  -- One round of the loop: whether the minute of the document is a later one, and whether it is an
  -- earlier one; `go_on` is the rest of the loop.
  abbrev pub next_round :
      Bool
      → Bool
      → Document D
      → List (Event D)
      → ℕ
      → (List (Event D) → ℕ → S → Outcome (S × ℕ))
      → S
      → Outcome (S × ℕ)
  next_round true earlier doc events total go_on s = do
    s1 ← flush events s
    checked earlier (go_on doc.events ((total + length events) % 2 ^ 64) s1)
  next_round false earlier doc events total go_on s =
      checked earlier (go_on (events ++ doc.events) total s)

  -- The loop of `Produce` over the cursor.
  unfoldable pub produce_from : List (Document D) → ℤ → List (Event D) → ℕ → S → Outcome (S × ℕ)
  produce_from [] prev events total s = ok (s, total)
  produce_from (doc ∷ docs) prev events total s =
      let bucket = bucket_of (is_zero prev) prev doc.minute_utc in
      next_round (ltb_ℤ bucket doc.minute_utc) (ltb_ℤ doc.minute_utc bucket) doc events total
        (produce_from docs doc.minute_utc) s

  -- `Produce`
  unfoldable pub produce : List (Document D) → S → Outcome (S × ℕ)
  unfolding produce_from
  produce docs s = produce_from docs (pos 0) [] 0 s
