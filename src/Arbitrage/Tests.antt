-- ===== src/Arbitrage/Tests.antt =====
-- Tests and witnesses for strategy/arbitrage, on amounts that are integers.
use native.Mathlib.Nat.{add_comm, mul_assoc, mul-add}
use crypto_bot.Prelude.{
  ◌+◌, ◌-◌, ◌*◌, ◌/◌, ◌^◌, ltb, leb, ◌==◌, ℕ, ◌≡◌, refl, true, false, some, none, String, List, [],
  ◌∷◌, ok,
}
use crypto_bot.Prelude.Int.{ℤ, pos, ◌+ℤ◌, ◌-ℤ◌, ◌*ℤ◌}
use crypto_bot.Assoc.{find, emplace}
use crypto_bot.Symbol.{ada_usdt}
use crypto_bot.Symbol.Pair.{get_base_asset, get_quote_asset}
use crypto_bot.Double.{exact, exact-IsStrict, min_double, Double}
use crypto_bot.Exchange.{success}
use crypto_bot.Order.{Builder, buy, sell, limit, new, build}
use crypto_bot.Ticker.{Ticker}
use crypto_bot.Arbitrage.{
  ExchangeParams, ArbitrageStrategyMatch, find_match, calculate_profit, calculate_quantity,
  ArbitragePrices, calculate_prices,
}
use crypto_bot.Arbitrage.Strategy.{
  Strategy, Manager, Sent, on_book_ticker, store_ticker, tickers_of, params_of, plan,
  has_open_orders,
}
use crypto_bot.Arbitrage.Matching.{IsBestOf, find_match_best}
use crypto_bot.Arbitrage.Guards.{IsSafe, on_book_ticker-IsSafe}
use crypto_bot.Arbitrage.Prices.{IsExact, calculate_prices_zero_profit}
use crypto_bot.Arbitrage.Bounds.{calculate_quantity_bounds}

abbrev params : ExchangeParams ℤ
params = record {
  exchange_name = "A";
  slippage = pos 1;
  fee = pos 0;
  daily_volume = pos 1;
  max_ticker_age_us = 1000;
  max_ticker_delay_us = 1000;
}

abbrev both_params : List (String × ExchangeParams ℤ)
both_params = ("A", params) ∷ ("B", params) ∷ []

abbrev ticker : String → ℕ → ℕ → Ticker ℤ
ticker exchange ask bid = record {
  ask = pos ask;
  ask_vol = some (pos 200);
  bid = pos bid;
  bid_vol = some (pos 100);
  source_ts = some 400;
  arrived_ts = 500;
  id = 0;
  exchange = exchange;
  symbol = ada_usdt;
}

abbrev tickers : List (String × Ticker ℤ)
tickers = ("A", ticker "A" 110 100) ∷ ("B", ticker "B" 130 120) ∷ []

abbrev match : ArbitrageStrategyMatch ℤ
match = record { best_bid = ticker "B" 130 120; best_ask = ticker "A" 110 100; profit = pos 8 }

find_match_best_example :
    IsBestOf (pos 120) (pos 110) tickers
    × (exact.le (pos 0) (pos 8) ≡ true)
    × (pos 8 ≡ calculate_profit both_params (pos 0) match.best_bid match.best_ask)
unfolding find find_match ◌+ℤ◌ ◌-ℤ◌ ◌*ℤ◌
find_match_best_example =
    find_match_best both_params (pos 0) tickers match exact-IsStrict (refl, (refl, tt)) refl

calculate_quantity_bounds_example :
    let volume = exact.mul (exact.lit 3 1) (min_double (pos 100) (pos 200)) in
    let spendable =
      min_double (exact.mul volume (pos 110)) (exact.mul (exact.lit 90 2) (pos 1000)) in
    (qty : ℤ) × (calculate_quantity (ticker "B" 130 120) (ticker "A" 110 100) (pos 50) (pos 1000)
      ≡ ok qty)
    × (exact.lt volume qty ≡ false)
    × (exact.lt (exact.mul (exact.lit 90 2) (pos 50)) qty ≡ false)
    × (exact.lt (exact.div spendable (pos 110)) qty ≡ false)
calculate_quantity_bounds_example =
    calculate_quantity_bounds (ticker "B" 130 120) (ticker "A" 110 100) (pos 100) (pos 200) (pos 50)
      (pos 1000) exact-IsStrict refl refl

abbrev memory : Builder ℤ
memory = record {
  id = "";
  client_id = "";
  symbol_id = ada_usdt;
  side = buy;
  order_type = limit;
  quantity = pos 0;
  price = pos 0;
  status = new;
  creation_time_us = 0;
}

abbrev manager : Manager ℤ
unfolding build
manager = record {
  is_account_synced = true;
  has_open_orders = λ pair. false;
  get_free_balance = λ asset. pos 5000;
  limit_order = λ pair side qty price. ok (success "" (build memory));
}

abbrev strategy : Strategy ℤ
unfolding manager
strategy = record {
  exchange_params = both_params;
  min_amount = [];
  arbitrage_match_profit_margin = pos 0;
  tickers = (ada_usdt, ("A", ticker "A" 110 100) ∷ []) ∷ [];
  account_managers = ("A", manager) ∷ ("B", manager) ∷ [];
}

abbrev selling : Sent ℤ
selling = record { exchange = "B"; symbol = ada_usdt; side = sell; quantity = pos 0; price = pos 0 }

abbrev buying : Sent ℤ
buying = record { exchange = "A"; symbol = ada_usdt; side = buy; quantity = pos 0; price = pos 0 }

-- The second exchange's ticker makes a match, and two orders are sent.
on_book_ticker-IsSafe_example :
    (m : ArbitrageStrategyMatch ℤ) × (find_match both_params
        (pos 0)
        (tickers_of ada_usdt (store_ticker (ticker "B" 130 120) strategy))
      ≡ ok (some m))
    × IsSafe 600 ada_usdt m (store_ticker (ticker "B" 130 120) strategy) (selling ∷ buying ∷ [])
    × (true ≡ true)
unfolding strategy on_book_ticker get_base_asset get_quote_asset ◌+ℤ◌ ◌-ℤ◌ ◌*ℤ◌ params_of plan
    emplace has_open_orders
on_book_ticker-IsSafe_example =
    on_book_ticker-IsSafe memory 600 true (ticker "B" 130 120) strategy selling (buying ∷ []) refl

-- Amounts that are natural numbers. Nothing below subtracts a greater number from a smaller one.
abbrev naturals : Double ℕ
naturals = record {
  add = λ a b. a + b;
  sub = λ a b. a - b;
  mul = λ a b. a * b;
  div = λ a b. a / b;
  neg = λ a. 0;
  lt = ltb;
  le = leb;
  eq = λ a b. a == b;
  of_ℕ = λ a. a;
  lit = λ m k. m / 10 ^ k;
  to_ℕ = λ a. a;
  stod = λ s. none;
  greatest = 2 ^ 1024 - 2 ^ 971;
  lowest = 0;
}

naturals-IsExact : IsExact ℕ ⦃d = naturals⦄
naturals-IsExact = record { add_comm = add_comm; mul_assoc = mul_assoc; mul_add = mul-add }

abbrev free : ExchangeParams ℕ
free = record {
  exchange_name = "A";
  slippage = 0;
  fee = 0;
  daily_volume = 1;
  max_ticker_age_us = 1000;
  max_ticker_delay_us = 1000;
}

abbrev whole_ticker : String → ℕ → ℕ → Ticker ℕ
whole_ticker exchange ask bid = record {
  ask = ask;
  ask_vol = some 1;
  bid = bid;
  bid_vol = some 1;
  source_ts = none;
  arrived_ts = 500;
  id = 0;
  exchange = exchange;
  symbol = ada_usdt;
}

calculate_prices_zero_profit_example :
    (prices : ArbitragePrices ℕ) × (calculate_prices ⦃d = naturals⦄
        (("A", free) ∷ ("B", free) ∷ [])
        (whole_ticker "B" 130 120)
        (whole_ticker "A" 110 100)
      ≡ ok prices)
    × (1 * prices.sell_price ≡ 1 * prices.buy_price)
unfolding find
calculate_prices_zero_profit_example =
    calculate_prices_zero_profit ⦃d = naturals⦄ (("A", free) ∷ ("B", free) ∷ [])
      (whole_ticker "B" 130 120) (whole_ticker "A" 110 100) free free 1 1 naturals-IsExact refl refl
      refl refl refl refl
