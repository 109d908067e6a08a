-- ===== src/Arbitrage/Strategy.antt =====
-- strategy/arbitrage/arbitrage_strategy.hpp, as the Makefile builds it: without the signal of
-- WITH_MEAN_REVERSION_SIGNAL. And the ticker that exchange/exchange_listener.h makes of a book.
use crypto_bot.Prelude.{
  ℕ, ◌+◌, ◌-◌, ◌%◌, ◌^◌, Bool, false, not, ◌||◌, if◌then◌else◌, Option, none, some, String, List,
  [], ◌∷◌, Outcome, ok, throws, ◌>>=◌, or_throw, out_of_range, invalid_argument, exited, Fault, ltb,
  length, min,
}
use crypto_bot.Assoc.{find, insert_or_assign, emplace}
use crypto_bot.Symbol.{SymbolPairId, SymbolId, pair_eq_key, asset_eq_key, string_key}
use crypto_bot.Symbol.Pair.{get_base_asset, get_quote_asset}
use crypto_bot.Double.{Double}
use crypto_bot.QuickMath.{quick_pow10}
use crypto_bot.Exchange.{Result, succeeded}
use crypto_bot.Order.{Order, Builder, Side, sell, buy}
use crypto_bot.OrderBook.{OrderBook, get_best_bid, get_best_ask}
use crypto_bot.Ticker.{Ticker}
use crypto_bot.Arbitrage.{
  ExchangeParams, ArbitrageStrategyMatch, ArbitrageOrders, find_match, calculate,
}

-- What the strategy uses of an account manager: what it is told by it at this moment, and what the
-- order that is sent through it is answered.
pub record Manager {ℓ} (D : Type ℓ) : Type ℓ where
  pub is_account_synced : Bool
  pub has_open_orders : SymbolPairId → Bool
  pub get_free_balance : SymbolId → D
  pub limit_order : SymbolPairId → Side → D → D → Outcome (Result (Order D))

-- `m_opts` and the maps. The clock is an argument of the handler.
pub record Strategy {ℓ} (D : Type ℓ) : Type ℓ where
  pub exchange_params : List (String × ExchangeParams D)
  pub min_amount : List (SymbolId × D)
  pub arbitrage_match_profit_margin : D
  pub tickers : List (SymbolPairId × List (String × Ticker D))
  pub account_managers : List (String × Manager D)

-- A call of `LimitOrder` on the account manager of an exchange.
pub record Sent {ℓ} (D : Type ℓ) : Type ℓ where
  pub exchange : String
  pub symbol : SymbolPairId
  pub side : Side
  pub quantity : D
  pub price : D

-- A difference of two `uint64_t`.
abbrev pub age : ℕ → ℕ → ℕ
age now ts = (now + 2 ^ 64 - ts) % 2 ^ 64

abbrev delay_from : Option ℕ → ℕ → ℕ
delay_from none ts = 0
delay_from (some source) ts = age ts source

abbrev first_fault : Option Fault → Option Fault → Option Fault
first_fault none f = f
first_fault (some e) f = some e

-- What a handler leaves: the state, the orders sent, and the exception if there is one.
abbrev pub Step {ℓ} : Type ℓ → Type ℓ
Step D = (Strategy D × List (Sent D)) × Option Fault

module _ {ℓ} {D : Type ℓ} ⦃d : Double D⦄ where
  -- The validations of the constructor.
  unfoldable pub has_negative : List (SymbolId × D) → Bool
  has_negative [] = false
  has_negative ((a, v) ∷ m) = d.lt v (d.lit 0 1) || has_negative m

  unfoldable pub validate : List (String × ExchangeParams D) → List (SymbolId × D) → Option Fault
  unfolding has_negative
  validate params default_amount =
      if ltb (length params) 2
      then some invalid_argument
      else if has_negative default_amount
      then some invalid_argument
      else none

  unfoldable pub register_exchange_client : String → Manager D → Strategy D → Strategy D
  unfolding insert_or_assign
  register_exchange_client name am s = record s {
    account_managers = insert_or_assign name am s.account_managers;
  }

  abbrev or_empty : Option (List (String × Ticker D)) → List (String × Ticker D)
  or_empty none = []
  or_empty (some m) = m

  -- The tickers of a pair by their exchange.
  unfoldable pub tickers_of : SymbolPairId → Strategy D → List (String × Ticker D)
  unfolding find
  tickers_of pair s = or_empty (find pair s.tickers)

  unfoldable pub store_ticker : Ticker D → Strategy D → Strategy D
  unfolding tickers_of insert_or_assign
  store_ticker t s = record s {
    tickers =
        insert_or_assign t.symbol (insert_or_assign t.exchange t (tickers_of t.symbol s)) s.tickers;
  }

  abbrev pub delay : Ticker D → ℕ
  delay t = delay_from t.source_ts t.arrived_ts

  abbrev pub is_too_old : ℕ → Ticker D → ExchangeParams D → Bool
  is_too_old now t p = ltb p.max_ticker_age_us (age now t.arrived_ts)

  abbrev pub is_delayed : Ticker D → ExchangeParams D → Bool
  is_delayed t p = ltb p.max_ticker_delay_us (delay t)

  unfoldable pub has_open_orders : SymbolPairId → List (String × Manager D) → Bool
  has_open_orders pair [] = false
  has_open_orders pair ((k, am) ∷ m) = am.has_open_orders pair || has_open_orders pair m

  -- What becomes of a reply: an exception comes out of `get`, and a failure ends the program.
  abbrev reply_fault : Outcome (Result (Order D)) → Option Fault
  reply_fault (throws e) = some e
  reply_fault (ok res) = if succeeded res then none else some exited

  -- `SendBasicArbitrageOrders`: both orders are sent before either reply is looked at.
  abbrev pub send_orders :
      Ticker D → Ticker D → D → D → D → Manager D → Manager D → List (Sent D) × Option Fault
  send_orders bid_ticker ask_ticker qty sell_price buy_price bid_am ask_am =
      let selling : Sent D = record {
        exchange = bid_ticker.exchange;
        symbol = bid_ticker.symbol;
        side = sell;
        quantity = qty;
        price = sell_price;
      } in
      let buying : Sent D = record {
        exchange = ask_ticker.exchange;
        symbol = bid_ticker.symbol;
        side = buy;
        quantity = qty;
        price = buy_price;
      } in
      (
        selling ∷ buying ∷ [],
        first_fault (reply_fault (bid_am.limit_order bid_ticker.symbol sell qty sell_price))
            (reply_fault (ask_am.limit_order bid_ticker.symbol buy qty buy_price)),
      )

  abbrev amount_or_nought : Option D → D
  amount_or_nought none = d.of_ℕ 0
  amount_or_nought (some v) = v

  -- The least amount of an asset. `min_amount[...]` puts a 0 in for an asset that is not there.
  abbrev pub with_minimum : SymbolId → Strategy D → Strategy D
  with_minimum base s = record s { min_amount = emplace base (d.of_ℕ 0) s.min_amount }

  abbrev pub minimum : SymbolId → Strategy D → D
  minimum base s = amount_or_nought (find base (with_minimum base s).min_amount)

  -- From the check of the amount on.
  abbrev pub place :
      Bool
      → SymbolPairId
      → SymbolId
      → Ticker D
      → Ticker D
      → ArbitrageOrders D
      → Manager D
      → Manager D
      → Strategy D
      → Step D
  place is_lock_free pair base bid_ticker ask_ticker orders bid_am ask_am s =
      let s1 = with_minimum base s in
      if d.lt orders.buy_order.quantity (minimum base s)
        || (not bid_am.is_account_synced || not ask_am.is_account_synced)
        || has_open_orders pair s1.account_managers
        || not is_lock_free
      then ((s1, []), none)
      else (let (sent, fault) =
            send_orders bid_ticker ask_ticker orders.buy_order.quantity orders.sell_order.price
              orders.buy_order.price bid_am ask_am in
          ((s1, sent), fault))

  -- The balances and the orders.
  unfoldable pub plan :
      Builder D
      → SymbolPairId
      → ArbitrageStrategyMatch D
      → Manager D
      → Manager D
      → Strategy D
      → Outcome (SymbolId × ArbitrageOrders D)
  unfolding calculate
  plan memory pair match bid_am ask_am s = do
    base ← get_base_asset pair
    quote ← get_quote_asset pair
    orders ←
        calculate memory s.exchange_params match.best_bid match.best_ask
          (bid_am.get_free_balance base) (ask_am.get_free_balance quote)
    ok (base, orders)

  abbrev pub placed_from :
      Outcome (SymbolId × ArbitrageOrders D)
      → Bool
      → SymbolPairId
      → ArbitrageStrategyMatch D
      → Manager D
      → Manager D
      → Strategy D
      → Step D
  placed_from (throws e) is_lock_free pair match bid_am ask_am s = ((s, []), some e)
  placed_from (ok (base, orders)) is_lock_free pair match bid_am ask_am s =
      place is_lock_free pair base match.best_bid match.best_ask orders bid_am ask_am s

  abbrev pub with_managers :
      Option (Manager D)
      → Option (Manager D)
      → Builder D
      → Bool
      → SymbolPairId
      → ArbitrageStrategyMatch D
      → Strategy D
      → Step D
  with_managers none ask_am memory is_lock_free pair match s = ((s, []), none)
  with_managers (some bid_am) none memory is_lock_free pair match s = ((s, []), none)
  with_managers (some bid_am) (some ask_am) memory is_lock_free pair match s =
      placed_from (plan memory pair match bid_am ask_am s) is_lock_free pair match bid_am ask_am s

  -- The checks of the arrivals and the delays.
  abbrev pub with_params :
      Outcome (ExchangeParams D × ExchangeParams D)
      → Builder D
      → ℕ
      → Bool
      → SymbolPairId
      → ArbitrageStrategyMatch D
      → Strategy D
      → Step D
  with_params (throws e) memory now is_lock_free pair match s = ((s, []), some e)
  with_params (ok (p, q)) memory now is_lock_free pair match s =
      if (is_too_old now match.best_bid p || is_too_old now match.best_ask q)
        || (is_delayed match.best_bid p || is_delayed match.best_ask q)
      then ((s, []), none)
      else with_managers (find match.best_bid.exchange s.account_managers)
          (find match.best_ask.exchange s.account_managers) memory is_lock_free pair match s

  unfoldable pub params_of :
      ArbitrageStrategyMatch D → Strategy D → Outcome (ExchangeParams D × ExchangeParams D)
  unfolding find
  params_of match s = do
    p ← or_throw (find match.best_bid.exchange s.exchange_params) out_of_range
    q ← or_throw (find match.best_ask.exchange s.exchange_params) out_of_range
    ok (p, q)

  abbrev pub with_match :
      Outcome (Option (ArbitrageStrategyMatch D))
      → Builder D
      → ℕ
      → Bool
      → SymbolPairId
      → Strategy D
      → Step D
  with_match (throws e) memory now is_lock_free pair s = ((s, []), some e)
  with_match (ok none) memory now is_lock_free pair s = ((s, []), none)
  with_match (ok (some match)) memory now is_lock_free pair s =
      with_params (params_of match s) memory now is_lock_free pair match s

  -- `OnBookTicker`. `now` is the clock's time, and `is_lock_free` whether `try_lock` gets the
  -- mutex.
  unfoldable pub on_book_ticker : Builder D → ℕ → Bool → Ticker D → Strategy D → Step D
  unfolding store_ticker find_match tickers_of
  on_book_ticker memory now is_lock_free t s =
      let s1 = store_ticker t s in
      with_match
        (find_match s1.exchange_params s1.arbitrage_match_profit_margin (tickers_of t.symbol s1))
        memory now is_lock_free t.symbol s1

  -- `OnConnectionClose` erases the tickers of the exchange from a copy of each map, and leaves the
  -- maps as they are.
  unfoldable pub on_connection_close : String → Strategy D → Strategy D
  on_connection_close name s = s

  -- `ExchangeListener::TickerFromOrderBook`; `now` is the clock's time.
  unfoldable pub ticker_from_order_book : ℕ → OrderBook D → Ticker D → Outcome (Ticker D)
  unfolding quick_pow10 get_best_bid get_best_ask
  ticker_from_order_book now ob memory = do
    scale ← quick_pow10 ob.precision_settings.price_precision
    ok (record memory {
      ask = d.div (d.of_ℕ (get_best_ask ob).price) (d.of_ℕ scale);
      ask_vol = some (get_best_ask ob).volume;
      bid = d.div (d.of_ℕ (get_best_bid ob).price) (d.of_ℕ scale);
      bid_vol = some (get_best_bid ob).volume;
      source_ts = some (min (get_best_ask ob).timestamp (get_best_bid ob).timestamp);
      arrived_ts = now;
      exchange = ob.exchange_name;
      symbol = ob.symbol;
    })
