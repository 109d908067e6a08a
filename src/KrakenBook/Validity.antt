-- ===== src/KrakenBook/Validity.antt =====
-- The invariant of the book under websocket/kraken_order_book_handler.hpp.
use crypto_bot.Prelude.{
  ℕ, inl, inr, Bool, Option, none, some, String, List, [], ◌∷◌, Fault, Outcome, ok, throws,
  Outcome-cases,
}
use crypto_bot.Double.{Double}
use crypto_bot.OrderBook.{
  PriceLevel, OrderBook, upsert_bid, upsert_ask, apply_bid, apply_ask, clear,
}
use crypto_bot.OrderBook.Validity.{
  IsValid, apply_bid-IsValid, apply_ask-IsValid, upsert_bid-IsValid, upsert_ask-IsValid,
  clear-IsValid,
}
use crypto_bot.KrakenBook.{
  KrakenLevel, BookPart, BookMessage, parse_price_level, apply_levels, then_levels, or_no_levels,
  end_update, on_order_book_update, end_snapshot, on_order_book_snapshot, then_second,
  changes_by_keys, message_by_key, finish_snapshot, on_order_book_message,
}

module _ {ℓ} {D : Type ℓ} ⦃d : Double D⦄ where
  module _ (apply : OrderBook D → PriceLevel D → OrderBook D)
      (keeps : (ob : OrderBook D) (l : PriceLevel D) → IsValid ob → IsValid (apply ob l)) where
    apply_levels_keeps :
        (ob : OrderBook D) (lvls : List KrakenLevel)
        → IsValid ob
        → IsValid (apply_levels apply ob lvls).0
    unfolding apply_levels
    apply_levels_keeps ob [] v = v
    apply_levels_keeps ob (lvl ∷ lvls) v =
        elim (Outcome-cases (parse_price_level {D = D} ob.precision_settings lvl)) [
          | inl (l, e) ↦ rw (e, apply_levels) (apply_levels_keeps (apply ob l) lvls (keeps ob l v))
          | inr (x, e) ↦ rw (e, apply_levels) v
        ]

    then_levels_keeps :
        (lvls : List KrakenLevel) (r : OrderBook D × Option Fault)
        → IsValid r.0
        → IsValid (then_levels apply lvls r).0
    unfolding then_levels
    then_levels_keeps lvls (ob, some e) v = v
    then_levels_keeps lvls (ob, none) v = apply_levels_keeps ob lvls v

  end_snapshot-IsValid :
      (bids : Option (List KrakenLevel)) (r : OrderBook D × Option Fault)
      → IsValid r.0
      → IsValid (end_snapshot bids r).0
  unfolding end_snapshot
  end_snapshot-IsValid bids (ob, some e) v = v
  end_snapshot-IsValid none (ob, none) v = v
  end_snapshot-IsValid (some bids) (ob, none) v =
      kept (apply_levels upsert_bid ob bids)
        (apply_levels_keeps upsert_bid upsert_bid-IsValid ob bids v)
    where
      kept : (r : OrderBook D × Option Fault) → IsValid r.0 → IsValid (finish_snapshot r).0
      kept (ob1, some e) v1 = v1
      kept (ob1, none) v1 = v1

  module _ (crc : String → ℕ) (checks : Bool) where
    end_update-IsValid :
        (c : Option String) (r : OrderBook D × Option Fault)
        → IsValid r.0
        → IsValid (end_update crc checks c r).0
    unfolding end_update
    end_update-IsValid c (ob, some e) v = v
    end_update-IsValid c (ob, none) v = v

    on_order_book_update-IsValid :
        (p : BookPart) (ob : OrderBook D)
        → IsValid ob
        → IsValid (on_order_book_update crc checks p ob).0
    unfolding on_order_book_update
    on_order_book_update-IsValid p ob v = end_update-IsValid p.c_text _ (
        then_levels_keeps apply_bid apply_bid-IsValid (or_no_levels p.b_levels) _
          (then_levels_keeps apply_ask apply_ask-IsValid (or_no_levels p.a_levels) (ob, none) v))

    then_second-IsValid :
        (second : Option BookPart) (r : OrderBook D × Outcome Bool)
        → IsValid r.0
        → IsValid (then_second crc checks second r).0
    unfolding then_second
    then_second-IsValid second (ob, throws e) v = v
    then_second-IsValid none (ob, ok b) v = v
    then_second-IsValid (some p) (ob, ok b) v = on_order_book_update-IsValid p ob v

    changes_by_keys-IsValid :
        (a b : Option (List KrakenLevel)) (m : BookMessage) (ob : OrderBook D)
        → IsValid ob
        → IsValid (changes_by_keys crc checks a b m ob).0
    unfolding changes_by_keys
    changes_by_keys-IsValid none none m ob v = v
    changes_by_keys-IsValid (some a) b m ob v =
        then_second-IsValid m.second _ (on_order_book_update-IsValid m.book ob v)
    changes_by_keys-IsValid none (some b) m ob v =
        then_second-IsValid m.second _ (on_order_book_update-IsValid m.book ob v)

    message_by_key-IsValid :
        (asks : Option (List KrakenLevel)) (m : BookMessage) (ob : OrderBook D)
        → IsValid ob
        → IsValid (message_by_key crc checks asks m ob).0
    unfolding message_by_key on_order_book_snapshot
    message_by_key-IsValid (some asks) m ob v =
        end_snapshot-IsValid m.book.bs_levels _
          (apply_levels_keeps upsert_ask upsert_ask-IsValid (clear ob) _ (clear-IsValid ob))
    message_by_key-IsValid none m ob v =
        changes_by_keys-IsValid m.book.a_levels m.book.b_levels m ob v

    -- A message keeps the invariant of the book: both sides are in order, without a price that
    -- stands twice, and not longer than the depth. That holds whatever the message and however the
    -- handler ends, also where it leaves by an exception half-way.
    pub on_order_book_message-IsValid :
        (m : BookMessage) (ob : OrderBook D)
        → IsValid ob
        → IsValid (on_order_book_message crc checks m ob).0
    unfolding on_order_book_message
    on_order_book_message-IsValid m ob v = message_by_key-IsValid m.book.as_levels m ob v
