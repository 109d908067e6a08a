-- ===== src/Store/RoundTrip.antt =====
-- An update of a book that db/mongo_ticker_consumer.hpp stores, and db/mongo_ticker_producer.hpp
-- reads.
use crypto_bot.Prelude.{
  ℕ, ◌^◌, ◌<◌, ◌≡◌, refl, ap, ◌∙◌, Option, none, some, String, List, [], ◌∷◌, map, All, ok, arith,
}
use crypto_bot.Assoc.{find}
use crypto_bot.Symbol.{
  SymbolPairId, ada_usdt, bnb_usdt, btc_usdt, doge_usdt, dot_usdt, eth_usdt, eos_usdt, ada_btc,
  bnb_btc, dot_btc, eth_btc, eos_btc, eos_eth, xlm_btc, unknown, string_key,
}
use crypto_bot.Symbol.Tables.{print_pair}
use crypto_bot.Symbol.Pair.{get_string_symbol}
use crypto_bot.OrderBook.{OrderBook, OrderBookUpdate, RawLevel}
use crypto_bot.Store.{
  Bson, IsFaithful, Upsert, level_array, update_document, update_upsert, volume_or_nought,
  trade_upsert, ticker_upsert,
}
use crypto_bot.Store.Reading.{
  read_level, read_levels, read_update, read_trade, read_ticker, push_order_book_updates,
  read_events,
}
use crypto_bot.Double.{Double}
use crypto_bot.Ticker.{Ticker}
use crypto_bot.Generator.{TradeTicker}
use crypto_bot.Producer.{Event, order_book_update}

-- What is printed of a pair is read as that pair.
pub get_string_symbol-print_pair : (s : SymbolPairId) → get_string_symbol (print_pair s) ≡ s
unfolding get_string_symbol print_pair find
get_string_symbol-print_pair ada_usdt = refl
get_string_symbol-print_pair bnb_usdt = refl
get_string_symbol-print_pair btc_usdt = refl
get_string_symbol-print_pair doge_usdt = refl
get_string_symbol-print_pair dot_usdt = refl
get_string_symbol-print_pair eth_usdt = refl
get_string_symbol-print_pair eos_usdt = refl
get_string_symbol-print_pair ada_btc = refl
get_string_symbol-print_pair bnb_btc = refl
get_string_symbol-print_pair dot_btc = refl
get_string_symbol-print_pair eth_btc = refl
get_string_symbol-print_pair eos_btc = refl
get_string_symbol-print_pair eos_eth = refl
get_string_symbol-print_pair xlm_btc = refl
get_string_symbol-print_pair unknown = refl

-- A time of 64 bits, if there is one.
abbrev pub FitsTime : Option ℕ → Type 0
FitsTime none = Unit
FitsTime (some ts) = ts < 2 ^ 64

abbrev pub FitsLevel : RawLevel → Type 0
FitsLevel l = FitsTime l.timestamp

-- The numbers of an update have 64 bits.
pub record Fits (u : OrderBookUpdate) : Type 0 where
  pub bids_fit : All FitsLevel u.bids
  pub asks_fit : All FitsLevel u.asks
  pub id_fits : u.last_update_id < 2 ^ 64
  pub time_fits : u.arrived_ts < 2 ^ 64

module _ {ℓ} {B : Type 0} {D : Type ℓ} (b : Bson B D) (f : IsFaithful b) where
  int64_kept : (n : ℕ) → n < 2 ^ 64 → b.get_int64 (b.int64 n) ≡ ok n
  int64_kept n h = f.get_int64-int64 n ∙ ap ok (omega (arith, h))

  read_level-level_array : (l : RawLevel) → FitsLevel l → read_level b (level_array b l) ≡ ok l
  unfolding read_level
  read_level-level_array l h = by_time l.price l.volume l.timestamp h
    where
      by_time :
          (p v : String) (t : Option ℕ)
          → FitsTime t
          → read_level b (level_array b (record { price = p; volume = v; timestamp = t }))
            ≡ ok (record { price = p; volume = v; timestamp = t })
      by_time p v none h =
          rw (f.get_array-array (b.utf8 p ∷ b.utf8 v ∷ []), f.get_utf8-utf8 p, f.get_utf8-utf8 v)
            refl
      by_time p v (some ts) h =
          rw
            (
              f.get_array-array (b.utf8 p ∷ b.utf8 v ∷ b.int64 ts ∷ []),
              f.get_utf8-utf8 p,
              f.get_utf8-utf8 v,
              int64_kept ts h,
            )
            refl

  read_levels-map :
      (ls : List RawLevel) → All FitsLevel ls → read_levels b (map (level_array b) ls) ≡ ok ls
  unfolding read_levels
  read_levels-map [] h = refl
  read_levels-map (l ∷ ls) (h, hs) = rw (read_level-level_array l h, read_levels-map ls hs) refl

  read_update-update_document :
      (exchange : String) (symbol : SymbolPairId) (u : OrderBookUpdate)
      → Fits u
      → read_update b exchange symbol (update_document b u)
        ≡ ok (record u { exchange = exchange; symbol = symbol })
  unfolding read_update find
  read_update-update_document exchange symbol u h =
      rw
        (
          f.get_fields-document _,
          f.get_array-array (map (level_array b) u.bids),
          read_levels-map u.bids h.bids_fit,
          f.get_array-array (map (level_array b) u.asks),
          read_levels-map u.asks h.asks_fit,
          int64_kept u.last_update_id h.id_fits,
          f.get_bool-boolean u.is_snapshot,
          int64_kept u.arrived_ts h.time_fits,
        )
        refl

module _ {ℓ} {D : Type ℓ} where
  abbrev pub replayed : OrderBook D → Event D
  replayed ob =
      order_book_update (record ob.last_update { exchange = ob.exchange_name; symbol = ob.symbol })

  -- The numbers of a trade have 64 bits.
  abbrev pub FitsTrade : TradeTicker D → Type 0
  FitsTrade t = (t.event_time < 2 ^ 64) × (t.trade_time < 2 ^ 64) × (t.arrived_ts < 2 ^ 64)

module _ {ℓ} {B : Type 0} {D : Type ℓ} (b : Bson B D) where
  -- Books of one exchange and one pair, the last updates of which arrived in one minute.
  abbrev pub BelongsTo : Upsert B → OrderBook D → Type 0
  unfolding update_upsert
  BelongsTo doc ob =
      (doc.exchange ≡ (update_upsert b ob).exchange)
      × (doc.symbol ≡ (update_upsert b ob).symbol)
      × (doc.minute_utc ≡ (update_upsert b ob).minute_utc)
      × Fits ob.last_update

module _ {ℓ} {B : Type 0} {D : Type ℓ} ⦃d : Double D⦄ (b : Bson B D) (f : IsFaithful b) where
  push_order_book_updates-map :
      (doc : Upsert B) (obs : List (OrderBook D))
      → All (BelongsTo b doc) obs
      → push_order_book_updates b doc.exchange
          (get_string_symbol doc.symbol)
          (map (λ ob. (update_upsert b ob).pushed) obs)
        ≡ ok (map replayed obs)
  unfolding push_order_book_updates update_upsert
  push_order_book_updates-map doc [] h = refl
  push_order_book_updates-map doc (ob ∷ obs) ((e, s, m, fits), hs) =
      rw
        (
          read_update-update_document b f doc.exchange (get_string_symbol doc.symbol) ob.last_update
              fits,
          push_order_book_updates-map doc obs hs,
        )
        (ap
            (λ x. ok (
              order_book_update
                (record ob.last_update { exchange = x; symbol = get_string_symbol doc.symbol })
              ∷ map replayed obs))
            e
          ∙ ap
              (λ x. ok (
                order_book_update
                  (record ob.last_update { exchange = ob.exchange_name; symbol = x })
                ∷ map replayed obs))
              (ap get_string_symbol s ∙ get_string_symbol-print_pair ob.symbol))

  -- The values of BSON are read back as they were written, and the updates of books of one exchange
  -- and one pair are pushed to the document of one minute, the numbers in them having 64 bits. Then
  -- what is read from the document are these updates, in the order in which they were pushed: the
  -- same levels in the same order, with their texts and times, under the exchange and the pair of
  -- the book.
  pub read_events-update_upsert :
      (memory : ℕ) (doc : Upsert B) (obs : List (OrderBook D))
      → doc.kind ≡ "ORDER_BOOK"
      → All (BelongsTo b doc) obs
      → read_events b memory doc.kind doc.exchange
          (get_string_symbol doc.symbol)
          (map (λ ob. (update_upsert b ob).pushed) obs)
        ≡ ok (map replayed obs)
  unfolding read_events update_upsert
  read_events-update_upsert memory doc obs k h = rw k (push_order_book_updates-map doc obs h)

  -- A trade that is stored is read back as it was.
  pub read_trade-trade_upsert :
      (t : TradeTicker D)
      → FitsTrade t
      → let up = trade_upsert b t in
        read_trade b up.exchange (get_string_symbol up.symbol) up.pushed ≡ ok t
  unfolding trade_upsert read_trade find
  read_trade-trade_upsert t (h, k, l) =
      rw
        (
          get_string_symbol-print_pair t.symbol,
          f.get_fields-document _,
          int64_kept b f t.event_time h,
          int64_kept b f t.trade_time k,
          f.get_utf8-utf8 t.trade_id,
          f.get_double-double t.price,
          f.get_double-double t.qty,
          f.get_bool-boolean t.is_market_maker,
          int64_kept b f t.arrived_ts l,
        )
        refl

  -- A ticker that is stored is read back without the time of its source, and with volumes of 0
  -- where it had none.
  pub read_ticker-ticker_upsert :
      (memory : ℕ) (t : Ticker D)
      → t.arrived_ts < 2 ^ 64
      → let up = ticker_upsert b t in
        read_ticker b memory up.exchange (get_string_symbol up.symbol) up.pushed
        ≡ ok (
            some (record t {
              bid_vol = some (volume_or_nought b t.bid_vol);
              ask_vol = some (volume_or_nought b t.ask_vol);
              source_ts = none;
              id = memory;
            }))
  unfolding ticker_upsert read_ticker find
  read_ticker-ticker_upsert memory t h =
      rw
        (
          get_string_symbol-print_pair t.symbol,
          f.get_fields-document _,
          f.is_double-double t.bid,
          f.get_double-double t.bid,
          f.get_double-double (volume_or_nought b t.bid_vol),
          f.get_double-double t.ask,
          f.get_double-double (volume_or_nought b t.ask_vol),
          int64_kept b f t.arrived_ts h,
        )
        refl
