-- ===== src/BinanceStream.antt =====
-- websocket/binance_order_book_stream.hpp: the order book of Binance, kept from a snapshot and the
-- numbered updates that follow it. The snapshot is fetched by another thread: the future that holds
-- it is a part of the state, and `snapshot_arrives` is the end of that thread. A message is given
-- parsed.
pub mod Sequence
pub mod Snapshots
pub mod Validity
mod Tests
use crypto_bot.Prelude.{
  ℕ, ◌+◌, ◌%◌, ◌^◌, Bool, true, false, ◌&&◌, if◌then◌else◌, Option, none, some, String, List, [],
  ◌∷◌, ◌++◌, Outcome, ok, throws, Fault, ltb, leb,
}
use crypto_bot.Symbol.Pair.{from_binance_string}
use crypto_bot.Double.{Double}
use crypto_bot.OrderBook
use crypto_bot.OrderBook.{OrderBook, OrderBookUpdate, RawLevel, update}
use crypto_bot.TickersWatcher
use crypto_bot.TickersWatcher.{TickersWatcher}

-- A message of the stream that has the fields that `check_message` asks for.
pub record DepthUpdate : Type 0 where
  pub first_update_id : ℕ
  pub final_update_id : ℕ
  pub symbol : String
  pub bids : List RawLevel
  pub asks : List RawLevel

pub record Snapshot : Type 0 where
  pub last_update_id : ℕ
  pub bids : List RawLevel
  pub asks : List RawLevel

-- `std::future`: without a state, with one that is not ready, or ready with a value or an
-- exception.
pub data Future : Type 0 where
  no_state running : Future
  ready : Outcome Snapshot → Future

pub record Stream {ℓ} (D : Type ℓ) : Type ℓ where
  pub order_book : OrderBook D
  pub previous_update_id : ℕ
  pub book_snapshot_future : Future
  pub depth_updates : List DepthUpdate
  pub tickers_watcher : TickersWatcher
  -- The books that `OnOrderBookUpdate` of the listener was called with, the last one first.
  pub reported : List (OrderBook D)

abbrev pub next_id : ℕ → ℕ
next_id n = (n + 1) % 2 ^ 64

-- `memory` is what the memory of the update holds in the members that are not set.
unfoldable pub deserialize_order_book_snapshot : OrderBookUpdate → ℕ → Snapshot → OrderBookUpdate
deserialize_order_book_snapshot memory now snapshot = record memory {
  last_update_id = snapshot.last_update_id;
  is_snapshot = true;
  arrived_ts = now;
  bids = snapshot.bids;
  asks = snapshot.asks;
}

unfoldable pub deserialize_order_book_update : ℕ → DepthUpdate → OrderBookUpdate
unfolding from_binance_string
deserialize_order_book_update now m = record {
  symbol = from_binance_string m.symbol;
  exchange = "binance";
  last_update_id = m.final_update_id;
  is_snapshot = false;
  arrived_ts = now;
  bids = m.bids;
  asks = m.asks;
}

-- The update that holds the first change behind the snapshot.
abbrev pub covers : ℕ → DepthUpdate → Bool
covers last m = leb m.first_update_id (next_id last) && leb (next_id last) m.final_update_id

unfoldable pub drop_until : ℕ → List DepthUpdate → List DepthUpdate
drop_until last [] = []
drop_until last (m ∷ ms) = let rest = drop_until last ms in if covers last m then m ∷ ms else rest

module _ {ℓ} {D : Type ℓ} ⦃d : Double D⦄ where
  unfoldable pub on_open : Stream D → Stream D
  on_open s = record s { book_snapshot_future = running }

  unfoldable pub snapshot_arrives : Outcome Snapshot → Stream D → Stream D
  snapshot_arrives snapshot s = elim s.book_snapshot_future [
    | running ↦ record s { book_snapshot_future = ready snapshot }
    | no_state ↦ s
    | ready other ↦ s
  ]

  -- The book is updated and, if that throws nothing, reported.
  abbrev pub updated : OrderBook D × Option Fault → Stream D → Stream D × Option Fault
  updated (ob, some e) s = (record s { order_book = ob }, some e)
  updated (ob, none) s = (record s { order_book = ob; reported = ob ∷ s.reported }, none)

  unfoldable pub apply_update : OrderBookUpdate → Stream D → Stream D × Option Fault
  unfolding update
  apply_update u s = updated (update s.order_book u) s

  abbrev pub and_then :
      Stream D × Option Fault → (Stream D → Stream D × Option Fault) → Stream D × Option Fault
  and_then (s, some e) f = (s, some e)
  and_then (s, none) f = f s

  -- The loop that replays the buffer behind a snapshot.
  unfoldable pub replay : ℕ → ℕ → List DepthUpdate → Stream D → Stream D × Option Fault
  unfolding apply_update deserialize_order_book_update
  replay now last [] s = (s, none)
  replay now last (m ∷ ms) s = elim (leb m.final_update_id last) [
    | true ↦ replay now last ms s
    | false ↦ elim (update s.order_book (deserialize_order_book_update now m)).1 [
      | some e ↦ apply_update (deserialize_order_book_update now m) s
      | none ↦ replay now last ms (record (apply_update (deserialize_order_book_update now m) s).0 {
        previous_update_id = m.final_update_id;
      })
    ]
  ]

  -- The snapshot is applied, and then the buffer.
  unfoldable pub take_snapshot :
      OrderBookUpdate → ℕ → Outcome Snapshot → Stream D → Stream D × Option Fault
  unfolding apply_update replay drop_until deserialize_order_book_snapshot
  take_snapshot memory now (throws e) s = (record s { book_snapshot_future = no_state }, some e)
  take_snapshot memory now (ok snapshot) s =
      let last = snapshot.last_update_id in
      let s1 = record s { book_snapshot_future = no_state; previous_update_id = last } in
      and_then
        (and_then (apply_update (deserialize_order_book_snapshot memory now snapshot) s1)
          (λ s2. replay now last (drop_until last s2.depth_updates) s2))
        (λ s3. (record s3 { depth_updates = [] }, none))

  -- The end of `OnMessage`: a gap asks for a new snapshot, anything else is applied.
  unfoldable pub follow : ℕ → DepthUpdate → Stream D → Stream D × Option Fault
  unfolding apply_update deserialize_order_book_update OrderBook.clear TickersWatcher.set
  follow now m s =
      if ltb (next_id s.previous_update_id) m.first_update_id
      then (
        record s { order_book = OrderBook.clear s.order_book; book_snapshot_future = running },
        none,
      )
      else (let u = deserialize_order_book_update now m in
          apply_update u (record s {
            previous_update_id = m.final_update_id;
            tickers_watcher = TickersWatcher.set u.symbol now now s.tickers_watcher;
          }))

  -- What is done with an update, by the state of the future.
  abbrev pub by_future :
      Future → OrderBookUpdate → ℕ → DepthUpdate → Stream D → Stream D × Option Fault
  by_future running memory now m s =
      (record s { depth_updates = s.depth_updates ++ (m ∷ []) }, none)
  by_future (ready snapshot) memory now m s =
      and_then (take_snapshot memory now snapshot s) (follow now m)
  by_future no_state memory now m s = follow now m s

  -- `OnMessage`. `none` is a message that is no update: it is passed over.
  unfoldable pub on_message :
      OrderBookUpdate → ℕ → Option DepthUpdate → Stream D → Stream D × Option Fault
  unfolding take_snapshot follow
  on_message memory now none s = (s, none)
  on_message memory now (some m) s = by_future s.book_snapshot_future memory now m s
