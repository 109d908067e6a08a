-- ===== src/Store.antt =====
-- db/mongo_ticker_consumer.hpp, which stores tickers and updates of books in MongoDB. The values of
-- BSON are an interface.
pub mod Reading
pub mod RoundTrip
pub mod Values
mod Tests
use crypto_bot.Prelude.{
  ℕ, ◌/◌, ◌%◌, ◌^◌, ◌≡◌, Bool, true, if◌then◌else◌, Option, none, some, String, List, [], ◌∷◌, map,
  Outcome, ok, ◌>>=◌, ◌==◌,
}
use crypto_bot.Symbol.Tables.{print_pair}
use crypto_bot.Double.{Double}
use crypto_bot.Ticker.{Ticker}
use crypto_bot.OrderBook.{OrderBook, OrderBookUpdate, RawLevel}
use crypto_bot.Arbitrage.Strategy.{ticker_from_order_book}
use crypto_bot.Generator.{TradeTicker}

-- The values of BSON, and how they are read: a value of another type, a field that is missing and
-- an element that is not there end by an exception. An integer of 64 bits is given by its unsigned
-- value.
pub record Bson {ℓ} (B : Type 0) (D : Type ℓ) : Type ℓ where
  pub double : D → B
  pub utf8 : String → B
  pub int64 : ℕ → B
  pub boolean : Bool → B
  pub array : List B → B
  pub document : List (String × B) → B
  pub get_double : B → Outcome D
  pub get_utf8 : B → Outcome String
  pub get_int64 : B → Outcome ℕ
  pub get_bool : B → Outcome Bool
  pub get_array : B → Outcome (List B)
  pub get_fields : B → Outcome (List (String × B))
  pub is_double : B → Bool

-- What is written is read back.
pub record IsFaithful {ℓ} {B : Type 0} {D : Type ℓ} (b : Bson B D) : Type ℓ where
  pub get_double-double : (x : D) → b.get_double (b.double x) ≡ ok x
  pub get_utf8-utf8 : (s : String) → b.get_utf8 (b.utf8 s) ≡ ok s
  pub get_int64-int64 : (n : ℕ) → b.get_int64 (b.int64 n) ≡ ok (n % 2 ^ 64)
  pub get_bool-boolean : (t : Bool) → b.get_bool (b.boolean t) ≡ ok t
  pub get_array-array : (l : List B) → b.get_array (b.array l) ≡ ok l
  pub get_fields-document : (l : List (String × B)) → b.get_fields (b.document l) ≡ ok l
  pub is_double-double : (x : D) → b.is_double (b.double x) ≡ true

-- An update of MongoDB with upsert: the four fields that the document is looked for by, and the
-- value that is pushed at the end of one of its arrays.
pub record Upsert (B : Type 0) : Type 0 where
  pub exchange : String
  pub symbol : String
  pub minute_utc : ℕ
  pub kind : String
  pub pushed_to : String
  pub pushed : B

-- Whole minutes of a number of microseconds.
abbrev pub minute_of : ℕ → ℕ
minute_of arrived_ts = arrived_ts / 60000000

module _ {ℓ} {B : Type 0} {D : Type ℓ} (b : Bson B D) where
  -- The arrays of levels: two texts, and the time if there is one.
  abbrev pub level_array : RawLevel → B
  level_array l = b.array (elements l.timestamp)
    where
      elements : Option ℕ → List B
      elements none = b.utf8 l.price ∷ b.utf8 l.volume ∷ []
      elements (some ts) = b.utf8 l.price ∷ b.utf8 l.volume ∷ b.int64 ts ∷ []

  abbrev pub update_document : OrderBookUpdate → B
  update_document u = b.document (
      ("bids", b.array (map level_array u.bids))
      ∷ ("asks", b.array (map level_array u.asks))
      ∷ ("a_us", b.int64 u.arrived_ts)
      ∷ ("is_snapshot", b.boolean u.is_snapshot)
      ∷ ("last_update_id", b.int64 u.last_update_id)
      ∷ [])

  abbrev pub update_upsert : OrderBook D → Upsert B
  unfolding print_pair
  update_upsert ob = record {
    exchange = ob.exchange_name;
    symbol = print_pair ob.symbol;
    minute_utc = minute_of ob.last_update.arrived_ts;
    kind = "ORDER_BOOK";
    pushed_to = "updates";
    pushed = update_document ob.last_update;
  }

module _ {ℓ} {B : Type 0} {D : Type ℓ} ⦃d : Double D⦄ (b : Bson B D) where
  abbrev pub volume_or_nought : Option D → D
  volume_or_nought none = d.of_ℕ 0
  volume_or_nought (some v) = v

  -- The time of the source is written as a double.
  abbrev time_or_nought : Option ℕ → D
  time_or_nought none = d.of_ℕ 0
  time_or_nought (some ts) = d.of_ℕ ts

  abbrev pub ticker_document : Ticker D → B
  ticker_document t = b.document (
      ("bid", b.double t.bid)
      ∷ ("bid_vol", b.double (volume_or_nought t.bid_vol))
      ∷ ("ask", b.double t.ask)
      ∷ ("ask_vol", b.double (volume_or_nought t.ask_vol))
      ∷ ("a_us", b.int64 t.arrived_ts)
      ∷ ("s_us", b.double (time_or_nought t.source_ts))
      ∷ [])

  -- `OnBookTicker`
  unfoldable pub ticker_upsert : Ticker D → Upsert B
  unfolding print_pair
  ticker_upsert t = record {
    exchange = t.exchange;
    symbol = print_pair t.symbol;
    minute_utc = minute_of t.arrived_ts;
    kind = "BOOK_TICKER";
    pushed_to = "tickers";
    pushed = ticker_document t;
  }

  abbrev pub trade_document : TradeTicker D → B
  trade_document t = b.document (
      ("event_time", b.int64 t.event_time)
      ∷ ("trade_time", b.int64 t.trade_time)
      ∷ ("trade_id", b.utf8 t.trade_id)
      ∷ ("price", b.double t.price)
      ∷ ("qty", b.double t.qty)
      ∷ ("is_market_maker", b.boolean t.is_market_maker)
      ∷ ("a_us", b.int64 t.arrived_ts)
      ∷ ("s_us", b.int64 t.trade_time)
      ∷ [])

  -- `OnTradeTicker`
  unfoldable pub trade_upsert : TradeTicker D → Upsert B
  unfolding print_pair
  trade_upsert t = record {
    exchange = t.exchange;
    symbol = print_pair t.symbol;
    minute_utc = minute_of t.arrived_ts;
    kind = "TRADE_TICKER";
    pushed_to = "tickers";
    pushed = trade_document t;
  }

  -- `OnOrderBookUpdate`: a book of depth 1 is stored as a ticker.
  unfoldable pub on_order_book_update : ℕ → Ticker D → OrderBook D → Outcome (Upsert B)
  unfolding ticker_from_order_book ticker_upsert update_upsert
  on_order_book_update now memory ob =
      let as_ticker = (do t ← ticker_from_order_book now ob memory; ok (ticker_upsert t)) in
      if ob.depth == 1 then as_ticker else ok (update_upsert b ob)
