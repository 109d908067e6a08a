-- ===== src/Store/Reading.antt =====
-- The part of db/mongo_ticker_producer.hpp that reads the stored events back.
use text.Mathlib.Text.{◌==◌ as str_eq}
use crypto_bot.Prelude.{
  ℕ, if◌then◌else◌, Option, none, some, String, List, [], ◌∷◌, length, Outcome, ok, ◌>>=◌, or_throw,
  ltb, runtime_error, get_elem?,
}
use crypto_bot.Assoc.{find}
use crypto_bot.Symbol.{SymbolPairId, string_key}
use crypto_bot.Double.{Double}
use crypto_bot.Ticker.{Ticker}
use crypto_bot.OrderBook.{OrderBookUpdate, RawLevel}
use crypto_bot.Generator.{TradeTicker}
use crypto_bot.Producer.{Event, trade_ticker, book_ticker, order_book_update}
use crypto_bot.Store.{Bson}

module _ {ℓ} {B : Type 0} {D : Type ℓ} (b : Bson B D) where
  abbrev pub field : B → String → Outcome B
  unfolding find
  field v key = do fields ← b.get_fields v; or_throw (find key fields) runtime_error

  abbrev pub element : List B → ℕ → Outcome B
  element l k = or_throw (get_elem? l k) runtime_error

  -- `PushOrderBookUpdates`: one level, and one update.
  abbrev read_time : List B → Outcome (Option ℕ)
  read_time l =
      let time = (do e ← element l 2; ts ← b.get_int64 e; ok (some ts)) in
      if ltb 2 (length l) then time else ok none

  unfoldable pub read_level : B → Outcome RawLevel
  read_level v = do
    l ← b.get_array v
    price_element ← element l 0
    price ← b.get_utf8 price_element
    volume_element ← element l 1
    volume ← b.get_utf8 volume_element
    timestamp ← read_time l
    ok (record { price = price; volume = volume; timestamp = timestamp })

  unfoldable pub read_levels : List B → Outcome (List RawLevel)
  unfolding read_level
  read_levels [] = ok []
  read_levels (v ∷ vs) = do l ← read_level v; ls ← read_levels vs; ok (l ∷ ls)

  unfoldable pub read_update : String → SymbolPairId → B → Outcome OrderBookUpdate
  unfolding field read_levels
  read_update exchange symbol v = do
    bids_field ← field v "bids"
    bids_arr ← b.get_array bids_field
    bids ← read_levels bids_arr
    asks_field ← field v "asks"
    asks_arr ← b.get_array asks_field
    asks ← read_levels asks_arr
    id_field ← field v "last_update_id"
    last_update_id ← b.get_int64 id_field
    snapshot_field ← field v "is_snapshot"
    is_snapshot ← b.get_bool snapshot_field
    time_field ← field v "a_us"
    arrived_ts ← b.get_int64 time_field
    ok (record {
      last_update_id = last_update_id;
      is_snapshot = is_snapshot;
      bids = bids;
      asks = asks;
      arrived_ts = arrived_ts;
      exchange = exchange;
      symbol = symbol;
    })

module _ {ℓ} {B : Type 0} {D : Type ℓ} ⦃d : Double D⦄ (b : Bson B D) where
  -- One ticker of `PushBookTickers`, where a bid of another type is passed over. The id is what the
  -- memory holds.
  unfoldable pub read_ticker : ℕ → String → SymbolPairId → B → Outcome (Option (Ticker D))
  unfolding field
  read_ticker memory exchange symbol v = do
    bid_field ← field b v "bid"
    let ticker = (do
      bid ← b.get_double bid_field
      bid_vol_field ← field b v "bid_vol"
      bid_vol ← b.get_double bid_vol_field
      ask_field ← field b v "ask"
      ask ← b.get_double ask_field
      ask_vol_field ← field b v "ask_vol"
      ask_vol ← b.get_double ask_vol_field
      time_field ← field b v "a_us"
      arrived_ts ← b.get_int64 time_field
      ok (
          some (record {
            ask = ask;
            ask_vol = some ask_vol;
            bid = bid;
            bid_vol = some bid_vol;
            source_ts = none;
            arrived_ts = arrived_ts;
            id = memory;
            exchange = exchange;
            symbol = symbol;
          })))
    if b.is_double bid_field then ticker else ok none

  -- One trade of `PushTradeTickers`.
  unfoldable pub read_trade : String → SymbolPairId → B → Outcome (TradeTicker D)
  unfolding field
  read_trade exchange symbol v = do
    event_field ← field b v "event_time"
    event_time ← b.get_int64 event_field
    trade_field ← field b v "trade_time"
    trade_time ← b.get_int64 trade_field
    id_field ← field b v "trade_id"
    trade_id ← b.get_utf8 id_field
    price_field ← field b v "price"
    price ← b.get_double price_field
    qty_field ← field b v "qty"
    qty ← b.get_double qty_field
    maker_field ← field b v "is_market_maker"
    is_market_maker ← b.get_bool maker_field
    time_field ← field b v "a_us"
    arrived_ts ← b.get_int64 time_field
    ok (record {
      event_time = event_time;
      trade_time = trade_time;
      symbol = symbol;
      exchange = exchange;
      trade_id = trade_id;
      price = price;
      qty = qty;
      is_market_maker = is_market_maker;
      arrived_ts = arrived_ts;
    })

  -- The loops of `PushBookTickers`, `PushTradeTickers` and `PushOrderBookUpdates`.
  abbrev with_ticker : Option (Ticker D) → List (Event D) → List (Event D)
  with_ticker none es = es
  with_ticker (some t) es = book_ticker t ∷ es

  unfoldable pub push_book_tickers : ℕ → String → SymbolPairId → List B → Outcome (List (Event D))
  unfolding read_ticker
  push_book_tickers memory exchange symbol [] = ok []
  push_book_tickers memory exchange symbol (v ∷ vs) = do
    t ← read_ticker memory exchange symbol v
    es ← push_book_tickers memory exchange symbol vs
    ok (with_ticker t es)

  unfoldable pub push_trade_tickers : String → SymbolPairId → List B → Outcome (List (Event D))
  unfolding read_trade
  push_trade_tickers exchange symbol [] = ok []
  push_trade_tickers exchange symbol (v ∷ vs) = do
    t ← read_trade exchange symbol v
    es ← push_trade_tickers exchange symbol vs
    ok (trade_ticker t ∷ es)

  unfoldable pub push_order_book_updates : String → SymbolPairId → List B → Outcome (List (Event D))
  unfolding read_update
  push_order_book_updates exchange symbol [] = ok []
  push_order_book_updates exchange symbol (v ∷ vs) = do
    u ← read_update b exchange symbol v
    es ← push_order_book_updates exchange symbol vs
    ok (order_book_update u ∷ es)

  -- The part of a round of `Produce` that reads a document of the given kind, the values of which
  -- stand in `vs`.
  unfoldable pub read_events :
      ℕ → String → String → SymbolPairId → List B → Outcome (List (Event D))
  unfolding push_book_tickers push_trade_tickers push_order_book_updates
  read_events memory kind exchange symbol vs =
      let books = push_order_book_updates exchange symbol vs in
      let trades = push_trade_tickers exchange symbol vs in
      let tickers = push_book_tickers memory exchange symbol vs in
      if str_eq kind "BOOK_TICKER"
      then tickers
      else if str_eq kind "TRADE_TICKER"
      then trades
      else if str_eq kind "ORDER_BOOK"
      then books
      else ok []
