-- ===== src/KrakenBook.antt =====
-- websocket/kraken_order_book_handler.hpp: the book messages of Kraken. They come as the fields
-- that the handler looks for, with `none` for a key that a message does not have. The sum that
-- boost computes over a text is a parameter.
pub mod Numbers
pub mod Validity
pub mod Checksum
mod Tests
use Prim.Native.String.{◌++◌ as str_append}
use crypto_bot.Prelude.{
  ℕ, ◌+◌, ◌-◌, ◌%◌, ◌^◌, Bool, true, false, if◌then◌else◌, Option, none, some, String, List, [],
  ◌∷◌, reverse, Outcome, ok, throws, ◌>>=◌, Fault, or_throw, undefined, runtime_error,
  invalid_argument, ◌==◌,
}
use crypto_bot.Double.{Double}
use crypto_bot.QuickMath.{quick_pow10}
use crypto_bot.Numerals.{to_string}
use crypto_bot.OrderBook.{
  OrderBook, PriceLevel, PrecisionSettings, clear, upsert_bid, upsert_ask, apply_bid, apply_ask,
}
use crypto_bot.KrakenBook.Numbers.{size, find_dot, erase_at, stoull}

pub record KrakenLevel : Type 0 where
  pub price : String
  pub volume : String
  pub timestamp : String

pub record BookPart : Type 0 where
  pub as_levels : Option (List KrakenLevel)
  pub bs_levels : Option (List KrakenLevel)
  pub a_levels : Option (List KrakenLevel)
  pub b_levels : Option (List KrakenLevel)
  pub c_text : Option String

-- A message of five elements has a second part.
pub record BookMessage : Type 0 where
  pub book : BookPart
  pub second : Option BookPart

-- The test that as many characters as the precision says stand behind the point. `find` gives
-- `npos` where there is none, and the difference is one of 64 bits.
abbrev pub has_precision : String → ℕ → Bool
has_precision text precision =
    (size text + 2 ^ 64 + 2 ^ 64 - 1 - find_dot text) % 2 ^ 64 == precision

abbrev pub or_no_levels : Option (List KrakenLevel) → List KrakenLevel
or_no_levels none = []
or_no_levels (some lvls) = lvls

module _ {ℓ} {D : Type ℓ} ⦃d : Double D⦄ where
  unfoldable pub parse_price_level : PrecisionSettings → KrakenLevel → Outcome (PriceLevel D)
  unfolding quick_pow10
  parse_price_level ps lvl =
      if has_precision lvl.price ps.price_precision
      then (do
        price ← or_throw (d.stod lvl.price) invalid_argument
        scale ← quick_pow10 ps.price_precision
        if has_precision lvl.timestamp ps.timestamp_precision
            then (do
              ts ← erase_at (find_dot lvl.timestamp) lvl.timestamp
              volume ← or_throw (d.stod lvl.volume) invalid_argument
              timestamp ← stoull ts
              ok (record {
                price = d.to_ℕ (d.mul price (d.of_ℕ scale));
                volume = volume;
                timestamp = timestamp;
              }))
            else throws runtime_error)
      else throws runtime_error

  -- A loop over levels. An exception leaves the book with the levels applied so far.
  unfoldable pub apply_levels :
      (OrderBook D → PriceLevel D → OrderBook D)
      → OrderBook D
      → List KrakenLevel
      → OrderBook D × Option Fault
  unfolding parse_price_level
  apply_levels apply ob [] = (ob, none)
  apply_levels apply ob (lvl ∷ lvls) = elim (parse_price_level ob.precision_settings lvl) [
    | throws e ↦ (ob, some e)
    | ok l ↦ apply_levels apply (apply ob l) lvls
  ]

  -- The next loop, when the one before it has ended.
  unfoldable pub then_levels :
      (OrderBook D → PriceLevel D → OrderBook D)
      → List KrakenLevel
      → OrderBook D × Option Fault
      → OrderBook D × Option Fault
  unfolding apply_levels
  then_levels apply lvls (ob, some e) = (ob, some e)
  then_levels apply lvls (ob, none) = apply_levels apply ob lvls

  -- The texts of one side, from the best level on.
  unfoldable pub side_input : PrecisionSettings → List (PriceLevel D) → Outcome String
  unfolding quick_pow10 to_string
  side_input ps [] = ok ""
  side_input ps (l ∷ ls) = do
    scale ← quick_pow10 ps.volume_precision
    rest ← side_input ps ls
    ok (
        str_append
          (str_append (to_string l.price) (to_string (d.to_ℕ (d.mul l.volume (d.of_ℕ scale)))))
          rest)

  unfoldable pub calculate_checksum_input : OrderBook D → Outcome String
  unfolding side_input
  calculate_checksum_input ob = do
    asks ← side_input ob.precision_settings (reverse ob.asks)
    bids ← side_input ob.precision_settings (reverse ob.bids)
    ok (str_append asks bids)

  module _ (crc : String → ℕ) (with_checksum_validation : Bool) where
    -- Whether a book has the checksum that an update names.
    unfoldable pub check_book : Option String → OrderBook D → Outcome Bool
    unfolding calculate_checksum_input
    check_book none ob = ok true
    check_book (some c) ob =
        if with_checksum_validation
        then (do
          crc32_in ← calculate_checksum_input ob
          expected ← stoull c
          ok (crc crc32_in == expected))
        else ok true

    unfoldable pub end_update :
        Option String → OrderBook D × Option Fault → OrderBook D × Outcome Bool
    unfolding check_book
    end_update c (ob, some e) = (ob, throws e)
    end_update c (ob, none) = (ob, check_book c ob)

    unfoldable pub on_order_book_update : BookPart → OrderBook D → OrderBook D × Outcome Bool
    unfolding end_update then_levels apply_bid apply_ask
    on_order_book_update p ob = end_update p.c_text (
        then_levels apply_bid (or_no_levels p.b_levels)
          (then_levels apply_ask (or_no_levels p.a_levels) (ob, none)))

  abbrev pub finish_snapshot : OrderBook D × Option Fault → OrderBook D × Outcome Bool
  finish_snapshot (ob, some e) = (ob, throws e)
  finish_snapshot (ob, none) = (ob, ok true)

  -- Without bids the snapshot is read at a key that it does not have.
  unfoldable pub end_snapshot :
      Option (List KrakenLevel) → OrderBook D × Option Fault → OrderBook D × Outcome Bool
  unfolding then_levels upsert_bid
  end_snapshot bids (ob, some e) = (ob, throws e)
  end_snapshot none (ob, none) = (ob, throws undefined)
  end_snapshot (some bids) (ob, none) = finish_snapshot (apply_levels upsert_bid ob bids)

  unfoldable pub on_order_book_snapshot : BookPart → OrderBook D → OrderBook D × Outcome Bool
  unfolding end_snapshot apply_levels upsert_ask clear
  on_order_book_snapshot p ob =
      end_snapshot p.bs_levels (apply_levels upsert_ask (clear ob) (or_no_levels p.as_levels))

  module _ (crc : String → ℕ) (with_checksum_validation : Bool) where
    -- What the second part makes of the book and of the result of the first.
    unfoldable pub then_second :
        Option BookPart → OrderBook D × Outcome Bool → OrderBook D × Outcome Bool
    unfolding on_order_book_update
    then_second second (ob, throws e) = (ob, throws e)
    then_second none (ob, ok is_valid) = (ob, ok is_valid)
    then_second (some p) (ob, ok is_valid) = on_order_book_update crc with_checksum_validation p ob

    -- The branch for a message with the keys "a" or "b", and the one for a message with neither.
    unfoldable pub changes_by_keys :
        Option (List KrakenLevel)
        → Option (List KrakenLevel)
        → BookMessage
        → OrderBook D
        → OrderBook D × Outcome Bool
    unfolding then_second
    changes_by_keys none none m ob = (ob, ok false)
    changes_by_keys a b m ob =
        then_second m.second (on_order_book_update crc with_checksum_validation m.book ob)

    -- The branches by the key "as".
    unfoldable pub message_by_key :
        Option (List KrakenLevel) → BookMessage → OrderBook D → OrderBook D × Outcome Bool
    unfolding changes_by_keys on_order_book_snapshot
    message_by_key (some asks) m ob = on_order_book_snapshot m.book ob
    message_by_key none m ob = changes_by_keys m.book.a_levels m.book.b_levels m ob

    unfoldable pub on_order_book_message : BookMessage → OrderBook D → OrderBook D × Outcome Bool
    unfolding message_by_key
    on_order_book_message m ob = message_by_key m.book.as_levels m ob
