-- ===== src/KrakenStream.antt =====
-- websocket/kraken_websocket_client.hpp: the books and tickers that Kraken sends. Messages come
-- parsed, as in KrakenBook; the time is an argument, and what the handlers call or send is a list.
pub mod Books
mod Tests
use Prim.Native.String.{◌++◌ as str_append}
use crypto_bot.Prelude.{
  ℕ, ◌+◌, ◌%◌, ◌^◌, Bool, true, false, Option, none, some, String, List, [], ◌∷◌, ◌++◌, Outcome, ok,
  throws, ◌>>=◌, runtime_error, out_of_range, invalid_argument,
}
use crypto_bot.Assoc.{find, insert_or_assign, emplace}
use crypto_bot.Symbol.{
  SymbolPairId, pair_eq_key, btc_usdt, dot_btc, dot_usdt, eos_btc, eos_usdt, ada_btc, ada_usdt,
  eth_btc, eos_eth, eth_usdt, xlm_btc,
}
use crypto_bot.Symbol.Pair.{from_kraken_string}
use crypto_bot.Numerals.{to_string}
use crypto_bot.Double.{Double}
use crypto_bot.Ticker.{Ticker}
use crypto_bot.TickersWatcher
use crypto_bot.TickersWatcher.{TickersWatcher}
use crypto_bot.OrderBook.{
  OrderBook, OrderBookUpdate, PrecisionSettings, get_latest_update_timestamp,
}
use crypto_bot.KrakenBook.{BookMessage, on_order_book_message}

abbrev precisions : ℕ → PrecisionSettings
precisions price = record { price_precision = price; volume_precision = 8; timestamp_precision = 6 }

-- `SENT_PRECISIONS`
abbrev pub sent_precisions : List (SymbolPairId × PrecisionSettings)
sent_precisions =
    (btc_usdt, precisions 5)
    ∷ (dot_btc, precisions 10)
    ∷ (dot_usdt, precisions 6)
    ∷ (eos_btc, precisions 8)
    ∷ (eos_usdt, precisions 6)
    ∷ (ada_btc, precisions 9)
    ∷ (ada_usdt, precisions 8)
    ∷ (eth_btc, precisions 6)
    ∷ (eos_eth, precisions 8)
    ∷ (eth_usdt, precisions 5)
    ∷ (xlm_btc, precisions 9)
    ∷ []

-- The texts of a message of the ticker channel that `ParseTicker` reads.
pub record TickerTexts : Type 0 where
  pub bid : String
  pub bid_vol : String
  pub ask : String
  pub ask_vol : String

-- A message: one that is no array, and else by its channel, with the name of the pair.
pub data Message : Type 0 where
  event : Message
  ticker : TickerTexts → String → Message
  book : BookMessage → String → Message
  other_channel : String → Message

-- What the handlers call at the listener, and what they send.
pub data Call {ℓ} (D : Type ℓ) : Type ℓ where
  connection_open connection_close : Call D
  book_ticker : Ticker D → Call D
  order_book : OrderBook D → Call D
  sent : String → Call D

pub record KrakenStream {ℓ} (D : Type ℓ) : Type ℓ where
  pub subscription_msg : List String
  pub order_books : List (SymbolPairId × OrderBook D)
  pub tickers_watcher : TickersWatcher
  pub last_ticker_id : ℕ

-- `OrderBookSubscribeMsg` with its default argument.
unfoldable pub order_book_subscribe_msg : String → ℕ → String
unfolding to_string
order_book_subscribe_msg symbol depth =
    str_append
      (str_append
        (str_append (str_append "{\"event\": \"subscribe\",\"pair\": [\"" symbol)
          "\"],\"subscription\": {\"name\": \"book\",\"depth\": ")
        (to_string depth))
      "}}"

abbrev no_update : SymbolPairId → OrderBookUpdate
no_update spid = record {
  last_update_id = 0;
  is_snapshot = false;
  bids = [];
  asks = [];
  arrived_ts = 0;
  exchange = "";
  symbol = spid;
}

module _ {ℓ} {D : Type ℓ} where
  -- A new book. Its last update, whose numbers are not initialised, is not read by the handlers
  -- here.
  abbrev pub new_book : SymbolPairId → ℕ → PrecisionSettings → OrderBook D
  new_book spid depth ps = record {
    bids = [];
    asks = [];
    exchange_name = "kraken";
    symbol = spid;
    depth = depth;
    precision_settings = ps;
    last_update = no_update spid;
  }

  -- `SubscribeOrderBook` and `SubscribeBookTicker`: the depth that is asked for, and the one of the
  -- book.
  unfoldable pub subscribe :
      String → ℕ → ℕ → KrakenStream D → KrakenStream D × Outcome (List (Call D))
  unfolding order_book_subscribe_msg from_kraken_string find emplace
  subscribe symbol requested depth s =
      let msg = order_book_subscribe_msg symbol requested in
      let remembered = record s { subscription_msg = s.subscription_msg ++ (msg ∷ []) } in
      elim (find (from_kraken_string symbol) sent_precisions) [
        | none ↦ (remembered, throws out_of_range)
        | some ps ↦ (
          record remembered {
            order_books =
                emplace (from_kraken_string symbol) (new_book (from_kraken_string symbol) depth ps)
                  s.order_books;
          },
          ok (sent msg ∷ []),
        )
      ]

  -- `SubscribeTicker`
  unfoldable pub subscribe_ticker : String → KrakenStream D → KrakenStream D × List (Call D)
  subscribe_ticker symbol s =
      let message =
        str_append (str_append "{\"event\": \"subscribe\",\"pair\": [\"" symbol)
          "\"],\"subscription\": {\"name\": \"ticker\"}}" in
      (record s { subscription_msg = s.subscription_msg ++ (message ∷ []) }, sent message ∷ [])

  unfoldable pub unsubscribe_order_book : String → List (Call D)
  unsubscribe_order_book symbol =
      sent (
        str_append (str_append "{\"event\": \"unsubscribe\",\"pair\": [\"" symbol)
          "\"],\"subscription\": {\"name\": \"book\",\"depth\": 10}}")
      ∷ []

  abbrev pub subscribe_order_book :
      String → ℕ → KrakenStream D → KrakenStream D × Outcome (List (Call D))
  unfolding subscribe
  subscribe_order_book symbol depth = subscribe symbol depth depth

  abbrev pub subscribe_book_ticker :
      String → KrakenStream D → KrakenStream D × Outcome (List (Call D))
  unfolding subscribe
  subscribe_book_ticker symbol = subscribe symbol 10 1

  abbrev sent_all : List String → List (Call D)
  sent_all [] = connection_open ∷ []
  sent_all (m ∷ ms) = sent m ∷ sent_all ms

  unfoldable pub on_open : KrakenStream D → List (Call D)
  on_open s = sent_all s.subscription_msg

  unfoldable pub on_close : KrakenStream D → List (Call D)
  on_close s = connection_close ∷ []

module _ {ℓ} {D : Type ℓ} ⦃d : Double D⦄ where
  unfoldable pub read_ticker :
      ℕ
      → SymbolPairId
      → KrakenStream D
      → Option D
      → Option D
      → Option D
      → Option D
      → KrakenStream D × Outcome (List (Call D))
  unfolding TickersWatcher.set
  read_ticker now spid s (some bid) (some bid_vol) (some ask) (some ask_vol) = (
    record s {
      last_ticker_id = (s.last_ticker_id + 1) % 2 ^ 64;
      tickers_watcher = TickersWatcher.set spid now now s.tickers_watcher;
    },
    ok (
        book_ticker (record {
          ask = ask;
          ask_vol = some ask_vol;
          bid = bid;
          bid_vol = some bid_vol;
          source_ts = none;
          arrived_ts = now;
          id = s.last_ticker_id;
          exchange = "kraken";
          symbol = spid;
        })
        ∷ []),
  )
  read_ticker now spid s _ _ _ _ = (s, throws invalid_argument)

  -- `ParseTicker`
  unfoldable pub parse_ticker :
      ℕ → TickerTexts → String → KrakenStream D → KrakenStream D × Outcome (List (Call D))
  unfolding from_kraken_string read_ticker
  parse_ticker now texts symbol s =
      read_ticker now (from_kraken_string symbol) s (d.stod texts.bid) (d.stod texts.bid_vol)
        (d.stod texts.ask) (d.stod texts.ask_vol)

  module _ (crc : String → ℕ) (validate : Bool) where
    -- After the handler of the book: the book is a reference into the map, so it stays as it was
    -- left.
    abbrev pub after_book :
        ℕ
        → String
        → SymbolPairId
        → KrakenStream D
        → OrderBook D × Outcome Bool
        → KrakenStream D × Outcome (List (Call D))
    unfolding TickersWatcher.set get_latest_update_timestamp order_book_subscribe_msg
        insert_or_assign
    after_book now symbol spid s (ob, throws x) =
        (record s { order_books = insert_or_assign spid ob s.order_books }, throws x)
    after_book now symbol spid s (ob, ok true) = (
      record s {
        order_books = insert_or_assign spid ob s.order_books;
        tickers_watcher =
            TickersWatcher.set ob.symbol now (get_latest_update_timestamp ob) s.tickers_watcher;
      },
      ok (order_book ob ∷ []),
    )
    after_book now symbol spid s (ob, ok false) = (
      record s { order_books = insert_or_assign spid ob s.order_books },
      ok (sent (order_book_subscribe_msg symbol ob.depth) ∷ []),
    )

    unfoldable pub on_book :
        ℕ → BookMessage → String → KrakenStream D → KrakenStream D × Outcome (List (Call D))
    unfolding after_book from_kraken_string find on_order_book_message
    on_book now m symbol s = elim (find (from_kraken_string symbol) s.order_books) [
      | none ↦ (s, throws runtime_error)
      | some ob ↦
          after_book now symbol (from_kraken_string symbol) s
            (on_order_book_message crc validate m ob)
    ]

    -- `OnMessage`
    unfoldable pub on_message :
        ℕ → Message → KrakenStream D → KrakenStream D × Outcome (List (Call D))
    unfolding parse_ticker on_book
    on_message now event s = (s, ok [])
    on_message now (ticker texts symbol) s = parse_ticker now texts symbol s
    on_message now (book m symbol) s = on_book now m symbol s
    on_message now (other_channel symbol) s = (s, ok [])
