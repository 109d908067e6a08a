-- ===== src/BinanceStream/Snapshots.antt =====
-- A snapshot in websocket/binance_order_book_stream.hpp, from its arrival on.
use crypto_bot.Prelude.{ℕ, ◌≡◌, Option, none, List, [], ◌∷◌, Fault}
use crypto_bot.Double.{Double}
use crypto_bot.OrderBook.{OrderBook, OrderBookUpdate, update}
use crypto_bot.BinanceStream.{
  DepthUpdate, Snapshot, no_state, Stream, drop_until, deserialize_order_book_snapshot,
}
use crypto_bot.BinanceStream.Sequence.{newer, apply_all}

-- The id at which the last of some updates ends.
abbrev pub end_id : ℕ → List DepthUpdate → ℕ
end_id id [] = id
end_id id (m ∷ ms) = end_id m.final_update_id ms

module _ {ℓ} {D : Type ℓ} ⦃d : Double D⦄ where
  -- The updates of the buffer that count after a snapshot.
  unfoldable pub kept : Snapshot → Stream D → List DepthUpdate
  unfolding newer drop_until
  kept snapshot s =
      newer snapshot.last_update_id (drop_until snapshot.last_update_id s.depth_updates)

  -- The book with the snapshot applied, and then with the buffer.
  unfoldable pub fresh_book : OrderBookUpdate → ℕ → Snapshot → Stream D → OrderBook D × Option Fault
  unfolding deserialize_order_book_snapshot
  fresh_book memory now snapshot s =
      update s.order_book (deserialize_order_book_snapshot memory now snapshot)

  unfoldable pub synced_book :
      OrderBookUpdate → ℕ → Snapshot → Stream D → OrderBook D × Option Fault
  unfolding apply_all kept fresh_book
  synced_book memory now snapshot s =
      apply_all now (kept snapshot s) (fresh_book memory now snapshot s).0

  IsSynced : ℕ → OrderBook D → Stream D × Option Fault → Type ℓ
  IsSynced id ob r =
      (r.1 ≡ none)
      × (r.0.order_book ≡ ob)
      × (r.0.previous_update_id ≡ id)
      × (r.0.book_snapshot_future ≡ no_state)

  abbrev EndsAt : OrderBook D × Option Fault → Stream D × Option Fault → Type ℓ
  EndsAt b r = (r.0.order_book ≡ b.0) × (r.1 ≡ b.1) × (r.0.book_snapshot_future ≡ no_state)
