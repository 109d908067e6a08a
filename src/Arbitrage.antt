-- ===== src/Arbitrage.antt =====
-- strategy/arbitrage: orders on two exchanges at once, where one bids more than another asks. This
-- file has the types, the matcher of arbitrage_strategy_matcher.cc and the calculator of
-- arbitrage_order_calculator.cc; the children have the strategy and what is proved.
pub mod Matching
pub mod Strategy
pub mod Guards
pub mod Bounds
pub mod Prices
mod Tests
use crypto_bot.Prelude.{
  ℕ, Bool, true, ◌&&◌, ◌||◌, if◌then◌else◌, Option, none, some, String, List, [], ◌∷◌, Outcome, ok,
  throws, ◌>>=◌, or_throw, out_of_range, bad_optional_access, aborted,
}
use text.Mathlib.Text.{◌==◌ as str_eq}
use crypto_bot.Assoc.{find}
use crypto_bot.Symbol.{SymbolPairId, pair_eq, string_key}
use crypto_bot.Double.{Double, min_double}
use crypto_bot.Order.{Order, Builder, sell, buy, limit, build}
use crypto_bot.Ticker.{Ticker}

pub record ExchangeParams {ℓ} (D : Type ℓ) : Type ℓ where
  pub exchange_name : String
  pub slippage : D
  pub fee : D
  pub daily_volume : D
  pub max_ticker_age_us : ℕ
  pub max_ticker_delay_us : ℕ

pub record ArbitrageStrategyMatch {ℓ} (D : Type ℓ) : Type ℓ where
  pub best_bid : Ticker D
  pub best_ask : Ticker D
  pub profit : D

-- The variables of the loop in `FindMatch`.
pub record Best {ℓ} (D : Type ℓ) : Type ℓ where
  pub best_bid : D
  pub best_bid_ex : String
  pub best_ask : D
  pub best_ask_ex : String

pub record ArbitrageOrders {ℓ} (D : Type ℓ) : Type ℓ where
  pub sell_order : Order D
  pub buy_order : Order D

pub record ArbitragePrices {ℓ} (D : Type ℓ) : Type ℓ where
  pub sell_price : D
  pub buy_price : D

abbrev is_empty : String → Bool
is_empty s = str_eq s ""

module _ {ℓ} {D : Type ℓ} ⦃d : Double D⦄ where
  -- One turn of the loop of `FindMatch`.
  abbrev pub see_ask : Ticker D → Best D → Best D
  see_ask t b =
      if d.lt t.ask b.best_ask then record b { best_ask = t.ask; best_ask_ex = t.exchange } else b

  abbrev pub see_bid : Ticker D → Best D → Best D
  see_bid t b =
      if d.lt b.best_bid t.bid then record b { best_bid = t.bid; best_bid_ex = t.exchange } else b

  unfoldable pub scan : List (String × Ticker D) → Best D → Best D
  scan [] b = b
  scan ((k, t) ∷ m) b = scan m (see_bid t (see_ask t b))

  abbrev pub start : Best D
  start = record { best_bid = d.of_ℕ 0; best_bid_ex = ""; best_ask = d.greatest; best_ask_ex = "" }

  -- The assertion in the loop, on all the tickers at once.
  unfoldable pub same_symbol : SymbolPairId → List (String × Ticker D) → Bool
  same_symbol symbol [] = true
  same_symbol symbol ((k, t) ∷ m) = pair_eq symbol t.symbol && same_symbol symbol m

  abbrev pub profit_of : ExchangeParams D → ExchangeParams D → D → Ticker D → Ticker D → D
  profit_of bid_side ask_side margin bid_ticker ask_ticker =
      d.sub
        (d.mul (d.sub (d.sub (d.of_ℕ 1) bid_side.fee) margin)
          (d.sub bid_ticker.bid bid_side.slippage))
        (d.mul (d.add (d.add (d.of_ℕ 1) ask_side.fee) margin)
          (d.add ask_ticker.ask ask_side.slippage))

  abbrev pub profit_from :
      Option (ExchangeParams D) → Option (ExchangeParams D) → D → Ticker D → Ticker D → D
  profit_from none ask_side margin bid_ticker ask_ticker = d.lowest
  profit_from (some p) none margin bid_ticker ask_ticker = d.lowest
  profit_from (some p) (some q) margin bid_ticker ask_ticker =
      profit_of p q margin bid_ticker ask_ticker

  unfoldable pub calculate_profit : List (String × ExchangeParams D) → D → Ticker D → Ticker D → D
  unfolding find
  calculate_profit params margin bid_ticker ask_ticker =
      profit_from (find bid_ticker.exchange params) (find ask_ticker.exchange params) margin
        bid_ticker ask_ticker

  abbrev pub match_of :
      List (String × ExchangeParams D) → D → Ticker D → Ticker D → Option (ArbitrageStrategyMatch D)
  match_of params margin bid_ticker ask_ticker =
      let profit = calculate_profit params margin bid_ticker ask_ticker in
      if d.le (d.of_ℕ 0) profit
      then some (record { best_bid = bid_ticker; best_ask = ask_ticker; profit = profit })
      else none

  abbrev pub match_best :
      List (String × ExchangeParams D)
      → D
      → List (String × Ticker D)
      → Best D
      → Outcome (Option (ArbitrageStrategyMatch D))
  match_best params margin tickers b =
      if is_empty b.best_bid_ex || is_empty b.best_ask_ex then ok none else (do
        bid_ticker ← or_throw (find b.best_bid_ex tickers) out_of_range
        ask_ticker ← or_throw (find b.best_ask_ex tickers) out_of_range
        ok (match_of params margin bid_ticker ask_ticker))

  unfoldable pub find_match :
      List (String × ExchangeParams D)
      → D
      → List (String × Ticker D)
      → Outcome (Option (ArbitrageStrategyMatch D))
  unfolding find scan same_symbol calculate_profit
  find_match params margin [] = ok none
  find_match params margin ((k, t) ∷ m) =
      if same_symbol t.symbol ((k, t) ∷ m)
      then match_best params margin ((k, t) ∷ m) (scan ((k, t) ∷ m) start)
      else throws aborted

  -- `CalculateQuantity`, from the two volumes that it asserts to be there.
  abbrev pub quantity_of : D → D → D → D → D → D
  quantity_of book_bid_vol book_ask_vol ask base_balance quote_balance =
      let base_vol = d.mul (d.lit 3 1) (min_double book_bid_vol book_ask_vol) in
      let tradable_base_balance = d.mul (d.lit 90 2) base_balance in
      let tradable_quote_balance = d.mul (d.lit 90 2) quote_balance in
      let quote_vol = min_double (d.mul base_vol ask) tradable_quote_balance in
      min_double (min_double base_vol (d.div quote_vol ask)) tradable_base_balance

  unfoldable pub calculate_quantity : Ticker D → Ticker D → D → D → Outcome D
  calculate_quantity bid_ticker ask_ticker base_balance quote_balance = do
    book_bid_vol ← or_throw bid_ticker.bid_vol aborted
    book_ask_vol ← or_throw ask_ticker.ask_vol aborted
    ok (quantity_of book_bid_vol book_ask_vol ask_ticker.ask base_balance quote_balance)

  -- `CalculatePrices`, from the parameters of the two exchanges and the two volumes.
  abbrev pub prices_of :
      ExchangeParams D → ExchangeParams D → D → D → Ticker D → Ticker D → ArbitragePrices D
  prices_of bid_side ask_side book_bid_vol book_ask_vol bid_ticker ask_ticker =
      let sell_cost_coeff = d.sub (d.lit 10 1) bid_side.fee in
      let buy_cost_coeff = d.add (d.lit 10 1) ask_side.fee in
      let max_buy_price = d.mul (d.div sell_cost_coeff buy_cost_coeff) bid_ticker.bid in
      let min_sell_price = d.mul (d.div buy_cost_coeff sell_cost_coeff) ask_ticker.ask in
      let vol_sum = d.add book_bid_vol book_ask_vol in
      let daily_vol_sum = d.add ask_side.daily_volume bid_side.daily_volume in
      let ask_coeff =
        d.div (d.add (d.div ask_side.daily_volume daily_vol_sum) (d.div book_ask_vol vol_sum))
          (d.of_ℕ 2) in
      let bid_coeff =
        d.div (d.add (d.div bid_side.daily_volume daily_vol_sum) (d.div book_bid_vol vol_sum))
          (d.of_ℕ 2) in
      record {
        buy_price = d.add (d.mul ask_ticker.ask ask_coeff) (d.mul max_buy_price bid_coeff);
        sell_price = d.add (d.mul bid_ticker.bid bid_coeff) (d.mul min_sell_price ask_coeff);
      }

  unfoldable pub calculate_prices :
      List (String × ExchangeParams D) → Ticker D → Ticker D → Outcome (ArbitragePrices D)
  unfolding find
  calculate_prices params bid_ticker ask_ticker = do
    bid_side ← or_throw (find bid_ticker.exchange params) out_of_range
    ask_side ← or_throw (find ask_ticker.exchange params) out_of_range
    book_bid_vol ← or_throw bid_ticker.bid_vol bad_optional_access
    book_ask_vol ← or_throw ask_ticker.ask_vol bad_optional_access
    ok (prices_of bid_side ask_side book_bid_vol book_ask_vol bid_ticker ask_ticker)

  -- `memory` is what the memory of the builders holds in the members that are not set.
  unfoldable pub calculate :
      Builder D
      → List (String × ExchangeParams D)
      → Ticker D
      → Ticker D
      → D
      → D
      → Outcome (ArbitrageOrders D)
  unfolding calculate_quantity calculate_prices build
  calculate memory params bid_ticker ask_ticker base_balance quote_balance = do
    qty ← calculate_quantity bid_ticker ask_ticker base_balance quote_balance
    prices ← calculate_prices params bid_ticker ask_ticker
    ok (record {
      sell_order = build (record memory {
        id = "";
        client_id = "";
        symbol_id = bid_ticker.symbol;
        quantity = qty;
        price = prices.sell_price;
        side = sell;
        order_type = limit;
      });
      buy_order = build (record memory {
        id = "";
        client_id = "";
        symbol_id = ask_ticker.symbol;
        quantity = qty;
        price = prices.buy_price;
        side = buy;
        order_type = limit;
      });
    })
