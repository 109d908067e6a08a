-- ===== src/BinanceStream/Validity.antt =====
-- The book of websocket/binance_order_book_stream.hpp stays well formed.
use crypto_bot.Prelude.{
  ℕ, inl, inr, Option, none, some, List, [], ◌∷◌, Outcome, ok, throws, Fault, ltb, leb, Bool-cases,
  Option-cases,
}
use crypto_bot.Double.{Double}
use crypto_bot.OrderBook.{OrderBook, OrderBookUpdate, update}
use crypto_bot.OrderBook.Validity.{IsValid, update-IsValid, clear-IsValid}
use crypto_bot.BinanceStream.{
  DepthUpdate, Snapshot, Future, no_state, running, ready, Stream, updated, apply_update, and_then,
  replay, take_snapshot, follow, by_future, on_message, deserialize_order_book_update,
  deserialize_order_book_snapshot, drop_until, next_id,
}

module _ {ℓ} {D : Type ℓ} ⦃d : Double D⦄ where
  updated-IsValid :
      (r : OrderBook D × Option Fault) (s : Stream D)
      → IsValid r.0
      → IsValid (updated r s).0.order_book
  updated-IsValid (ob, some e) s v = v
  updated-IsValid (ob, none) s v = v

  apply_update-IsValid :
      (u : OrderBookUpdate) (s : Stream D)
      → IsValid s.order_book
      → IsValid (apply_update u s).0.order_book
  unfolding apply_update
  apply_update-IsValid u s v =
      updated-IsValid (update s.order_book u) s (update-IsValid s.order_book u v)

  and_then-IsValid :
      (r : Stream D × Option Fault) (f : Stream D → Stream D × Option Fault)
      → IsValid r.0.order_book
      → ((s : Stream D) → IsValid s.order_book → IsValid (f s).0.order_book)
      → IsValid (and_then r f).0.order_book
  and_then-IsValid (s, some e) f v k = v
  and_then-IsValid (s, none) f v k = k s v

  replay-IsValid :
      (now last : ℕ) (ms : List DepthUpdate) (s : Stream D)
      → IsValid s.order_book
      → IsValid (replay now last ms s).0.order_book
  unfolding replay
  replay-IsValid now last [] s v = v
  replay-IsValid now last (m ∷ ms) s v = elim (Bool-cases (leb m.final_update_id last)) [
    | inl e ↦ rw (e, replay) (replay-IsValid now last ms s v)
    | inr e ↦ elim (Option-cases (update s.order_book (deserialize_order_book_update now m)).1) [
      | inr (x, f) ↦
          rw (e, f, replay) (apply_update-IsValid (deserialize_order_book_update now m) s v)
      | inl f ↦
          rw (e, f, replay)
            (replay-IsValid now last ms _
              (apply_update-IsValid (deserialize_order_book_update now m) s v))
    ]
  ]

  take_snapshot-IsValid :
      (memory : OrderBookUpdate) (now : ℕ) (r : Outcome Snapshot) (s : Stream D)
      → IsValid s.order_book
      → IsValid (take_snapshot memory now r s).0.order_book
  unfolding take_snapshot
  take_snapshot-IsValid memory now (throws e) s v = v
  take_snapshot-IsValid memory now (ok snapshot) s v =
      and_then-IsValid _ _
        (and_then-IsValid _ _
          (apply_update-IsValid (deserialize_order_book_snapshot memory now snapshot)
            (record s {
              book_snapshot_future = no_state;
              previous_update_id = snapshot.last_update_id;
            })
            v)
          (λ s2 w.
            replay-IsValid now snapshot.last_update_id
              (drop_until snapshot.last_update_id s2.depth_updates) s2 w))
        (λ s3 w. w)

  follow-IsValid :
      (now : ℕ) (m : DepthUpdate) (s : Stream D)
      → IsValid s.order_book
      → IsValid (follow now m s).0.order_book
  unfolding follow
  follow-IsValid now m s v =
      elim (Bool-cases (ltb (next_id s.previous_update_id) m.first_update_id)) [
        | inl e ↦ rw (e, follow) (clear-IsValid s.order_book)
        | inr e ↦ rw (e, follow) (apply_update-IsValid (deserialize_order_book_update now m) _ v)
      ]

  by_future-IsValid :
      (f : Future) (memory : OrderBookUpdate) (now : ℕ) (m : DepthUpdate) (s : Stream D)
      → IsValid s.order_book
      → IsValid (by_future f memory now m s).0.order_book
  by_future-IsValid running memory now m s v = v
  by_future-IsValid no_state memory now m s v = follow-IsValid now m s v
  by_future-IsValid (ready r) memory now m s v =
      and_then-IsValid _ _ (take_snapshot-IsValid memory now r s v) (follow-IsValid now m)

  -- Whatever message arrives, and whatever the future of the snapshot holds, the book stays sorted
  -- and within its depth, also where the handler leaves by an exception.
  pub on_message-IsValid :
      (memory : OrderBookUpdate) (now : ℕ) (m : Option DepthUpdate) (s : Stream D)
      → IsValid s.order_book
      → IsValid (on_message memory now m s).0.order_book
  unfolding on_message
  on_message-IsValid memory now none s v = v
  on_message-IsValid memory now (some m) s v =
      by_future-IsValid s.book_snapshot_future memory now m s v
