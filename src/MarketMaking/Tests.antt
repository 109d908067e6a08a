-- ===== src/MarketMaking/Tests.antt =====
-- Tests and witnesses for strategy/market_making.
use crypto_bot.Prelude.{ℕ, ◌*◌, ◌≡◌, refl, none, List, [], ◌∷◌, ok, false, arith}
use crypto_bot.Prelude.Int.{ℤ, pos, ◌*ℤ◌, ◌-ℤ◌, ◌+ℤ◌}
use crypto_bot.Double.{exact, fixed_point}
use crypto_bot.Symbol.{btc_usdt}
use crypto_bot.Ticker.{Ticker}
use crypto_bot.Order.{Order, new, filled, sell, limit}
use crypto_bot.OrderBook.{OrderBook}
use crypto_bot.MarketMaking.{MarketMakingSignal, Prediction, new_signal, feed_signal, predict}
use crypto_bot.Indicator.{SimpleMovingAverage}
use crypto_bot.MarketMaking.Risk.{calculate_orders, RiskManager, Draw, on_price_prediction}
use crypto_bot.MarketMaking.Strategy.{MarketMakingStrategy, on_order_book_update}
use crypto_bot.MarketMaking.Feeding.{predict-feed_signal}
use crypto_bot.MarketMaking.Signals.{IsPositive, HasSent, on_order_book_update-HasSent}

abbrev ticker : ℕ → ℕ → Ticker ℤ
ticker minute price = record {
  ask = pos price;
  ask_vol = none;
  bid = pos price;
  bid_vol = none;
  source_ts = none;
  arrived_ts = minute * 60000000;
  id = 1;
  exchange = "binance";
  symbol = btc_usdt;
}

predict-feed_signal_example :
    (s : MarketMakingSignal ℤ) × (p : Prediction ℤ) × (feed_signal
        (ticker 2 5 ∷ ticker 1 4 ∷ [])
        (new_signal (pos 0, pos 0, pos 0) (ticker 0 0))
      ≡ ok s)
    × (predict 7 s ≡ ok p)
predict-feed_signal_example =
    predict-feed_signal (pos 0, pos 0, pos 0) (ticker 0 0) (ticker 2 5 ∷ ticker 1 4 ∷ []) 7
      (omega arith)

-- Numbers with three digits behind the point.
fixed_point-IsPositive : IsPositive ℤ ⦃d = fixed_point⦄
unfolding ◌*ℤ◌
fixed_point-IsPositive = record { positive = λ n h. ground arith }

abbrev average : ℕ → List ℤ → SimpleMovingAverage ℤ
average period smas = record { period = period; smas = smas; sum = pos 0; count = 60 }

-- The short average falls back to the two longer ones.
abbrev signal : MarketMakingSignal ℤ
signal = record {
  rsi = record { period = 55 };
  sma_short = average 8 (pos 9000 ∷ pos 9500 ∷ []);
  sma_mid = average 21 (pos 8000 ∷ pos 7900 ∷ []);
  sma_long = average 55 (pos 7000 ∷ pos 6900 ∷ []);
  minute = pos 60;
  book_ticker = ticker 60 9000;
  mid_closes = [];
}

abbrev risk_manager : RiskManager ℤ
risk_manager = record {
  options = record { default_order_qty = pos 1000; exchange_fee = pos 1; our_fee = pos 1 };
  orders = [];
  account_balance = record {
    asset_balance_map = [];
    locked_balance_map = [];
    exchange = "binance";
  };
  trading_balance = pos 0;
  last_order_timestamp_us = 0;
}

abbrev strategy : MarketMakingStrategy ℤ
strategy = record { risk_manager = risk_manager; signal = signal; book_ticker = ticker 60 9000 }

abbrev draw : Draw
draw = record { number = 30; sell_id = "s"; buy_id = "b"; memory = new }

abbrev book : OrderBook ℤ
book = record {
  bids = [];
  asks = [];
  exchange_name = "binance";
  symbol = btc_usdt;
  depth = 10;
  precision_settings = record {
    price_precision = 2;
    volume_precision = 2;
    timestamp_precision = 1;
  };
  last_update = record {
    last_update_id = 0;
    is_snapshot = false;
    bids = [];
    asks = [];
    arrived_ts = 77;
    exchange = "binance";
    symbol = btc_usdt;
  };
}

-- The prediction that the book leads to, and the orders that the strategy sends on it.
abbrev prediction : Prediction ℤ
prediction = record {
  symbol = btc_usdt;
  base_price = pos 9000;
  signal = pos 0;
  confidence = pos 40;
  timeframe_ms = 1000000;
  timestamp_us = 77;
}

abbrev sent : List (Order ℤ)
unfolding calculate_orders
sent = calculate_orders ⦃d = fixed_point⦄ draw prediction risk_manager.options

abbrev quoting : MarketMakingStrategy ℤ
quoting = record strategy {
  risk_manager = record risk_manager { orders = sent; last_order_timestamp_us = 77 };
}

on_order_book_update-HasSent_example : HasSent ⦃d = fixed_point⦄ draw 77 strategy quoting sent
unfolding on_order_book_update ◌*ℤ◌ ◌+ℤ◌ ◌-ℤ◌
on_order_book_update-HasSent_example =
    on_order_book_update-HasSent ⦃d = fixed_point⦄ draw book strategy quoting sent
      fixed_point-IsPositive (omega arith) refl

abbrev fill : Order ℤ
fill = record {
  id = "7";
  client_id = "s";
  symbol_id = btc_usdt;
  side = sell;
  order_type = limit;
  quantity = pos 1000;
  price = pos 9018;
  status = filled;
  creation_time_us = 0;
  executed_quantity = pos 1000;
  total_cost = pos 9018;
}

abbrev after : RiskManager ℤ
unfolding on_price_prediction
after = (on_price_prediction draw prediction risk_manager).0
