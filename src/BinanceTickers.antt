-- ===== src/BinanceTickers.antt =====
-- websocket/binance_book_ticker_stream.hpp and websocket/binance_trade_ticker_stream.hpp. Both have
-- the same state; the time is an argument. `utils::check_message` stands in
-- serialization_utils.hpp.
pub mod Messages
mod Tests
use Prim.Native.String.{◌++◌ as str_append}
use crypto_bot.Prelude.{
  ℕ, ◌+◌, Bool, true, ◌&&◌, if◌then◌else◌, Option, none, some, String, List, [], ◌∷◌, ◌++◌, Outcome,
  ok, throws, ◌>>=◌,
}
use crypto_bot.Symbol.Pair.{from_binance_string}
use crypto_bot.Numerals.{to_string}
use crypto_bot.Double.{Double}
use crypto_bot.Json.{Json, text_field, uint_field, bool_field, double_field}
use crypto_bot.Ticker.{Ticker}
use crypto_bot.Generator.{TradeTicker}
use crypto_bot.TickersWatcher
use crypto_bot.TickersWatcher.{TickersWatcher}

pub record TickerStream : Type 0 where
  pub subscription_msg : List String
  pub sub_id : ℕ
  pub tickers_watcher : TickersWatcher

-- `SubscribeTicker`, for the channel "@bookTicker" or "@trade": the state, and what is sent.
unfoldable pub subscribe_ticker : String → String → TickerStream → TickerStream × String
unfolding to_string
subscribe_ticker channel symbol s =
    let message =
      str_append
        (str_append
          (str_append
            (str_append (str_append "{\"method\": \"SUBSCRIBE\",\"params\": [\"" symbol) channel)
            "\"],\"id\": ")
          (to_string (s.sub_id + 1)))
        "}" in
    (
      record s { sub_id = s.sub_id + 1; subscription_msg = s.subscription_msg ++ (message ∷ []) },
      message,
    )

unfoldable pub list_subscriptions : TickerStream → TickerStream × String
unfolding to_string
list_subscriptions s = (
  record s { sub_id = s.sub_id + 1 },
  str_append (str_append "{\"method\": \"LIST_SUBSCRIPTIONS\",\"id\": " (to_string (s.sub_id + 1)))
      "}",
)

module _ {J : Type 0} ⦃j : Json J⦄ where
  -- `utils::check_message`
  unfoldable pub check_message : J → List String → Bool
  check_message v [] = true
  check_message v (f ∷ fs) = j.contains v f && check_message v fs

module _ {ℓ} {D : Type ℓ} where
  -- The end of `OnMessage`: the watcher is set, and the listener has the ticker.
  abbrev pub after_book_ticker :
      TickerStream → Outcome (Ticker D) → TickerStream × Outcome (Option (Ticker D))
  unfolding TickersWatcher.set
  after_book_ticker s (throws x) = (s, throws x)
  after_book_ticker s (ok t) = (
    record s {
      tickers_watcher = TickersWatcher.set t.symbol t.arrived_ts t.arrived_ts s.tickers_watcher;
    },
    ok (some t),
  )

  abbrev pub after_trade_ticker :
      TickerStream → Outcome (TradeTicker D) → TickerStream × Outcome (Option (TradeTicker D))
  unfolding TickersWatcher.set
  after_trade_ticker s (throws x) = (s, throws x)
  after_trade_ticker s (ok t) = (
    record s {
      tickers_watcher = TickersWatcher.set t.symbol t.arrived_ts t.arrived_ts s.tickers_watcher;
    },
    ok (some t),
  )

module _ {ℓ} {J : Type 0} {D : Type ℓ} ⦃j : Json J⦄ ⦃d : Double D⦄ where
  unfoldable pub read_book_ticker : ℕ → J → Outcome (Ticker D)
  unfolding from_binance_string
  read_book_ticker now v = do
    bid ← double_field v "b"
    bid_vol ← double_field v "B"
    ask ← double_field v "a"
    ask_vol ← double_field v "A"
    symbol ← text_field v "s"
    ok (record {
      ask = ask;
      ask_vol = some ask_vol;
      bid = bid;
      bid_vol = some bid_vol;
      source_ts = none;
      arrived_ts = now;
      id = 1;
      exchange = "binance";
      symbol = from_binance_string symbol;
    })

  unfoldable pub read_trade_ticker : ℕ → J → Outcome (TradeTicker D)
  unfolding from_binance_string to_string
  read_trade_ticker now v = do
    event_time ← uint_field v "E"
    trade_time ← uint_field v "T"
    symbol ← text_field v "s"
    trade_id ← uint_field v "t"
    price ← double_field v "p"
    qty ← double_field v "q"
    is_market_maker ← bool_field v "m"
    ok (record {
      event_time = event_time;
      trade_time = trade_time;
      symbol = from_binance_string symbol;
      exchange = "binance";
      trade_id = to_string trade_id;
      price = price;
      qty = qty;
      is_market_maker = is_market_maker;
      arrived_ts = now;
    })

  -- `BinanceBookTickerStream::OnMessage`: the state, and the ticker that the listener is called
  -- with.
  unfoldable pub on_book_message : ℕ → J → TickerStream → TickerStream × Outcome (Option (Ticker D))
  unfolding check_message after_book_ticker read_book_ticker
  on_book_message now v s =
      if j.is_object v && check_message v ("u" ∷ "s" ∷ "b" ∷ "B" ∷ "a" ∷ "A" ∷ [])
      then after_book_ticker s (read_book_ticker now v)
      else (s, ok none)

  -- `BinanceTradeTickerStream::OnMessage`
  unfoldable pub on_trade_message :
      ℕ → J → TickerStream → TickerStream × Outcome (Option (TradeTicker D))
  unfolding check_message after_trade_ticker read_trade_ticker
  on_trade_message now v s =
      if j.is_object v && check_message v ("e" ∷ "E" ∷ "s" ∷ "t" ∷ "p" ∷ "q" ∷ "T" ∷ "m" ∷ [])
      then after_trade_ticker s (read_trade_ticker now v)
      else (s, ok none)
