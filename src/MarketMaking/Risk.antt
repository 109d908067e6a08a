-- ===== src/MarketMaking/Risk.antt =====
-- strategy/market_making/market_making_risk_manager.cc. The mutex makes each handler one step. The
-- ids that boost makes up, the number that is drawn and what the memory of a builder holds are
-- arguments.
use crypto_bot.Prelude.{ℕ, Bool, true, false, if◌then◌else◌, String, List, [], ◌∷◌, ◌++◌}
use crypto_bot.Double.{Double}
use crypto_bot.AccountBalance.{AccountBalance, assign_balance}
use crypto_bot.Order.{Order, OrderStatus, Side, filled, sell, buy, limit, build, order_eq}
use crypto_bot.MarketMaking.{Prediction}

-- `MarketMakingRiskMangerOptions`. The fields that only code in comments reads are left out.
pub record RiskOptions {ℓ} (D : Type ℓ) : Type ℓ where
  pub default_order_qty : D
  pub exchange_fee : D
  pub our_fee : D

pub record RiskManager {ℓ} (D : Type ℓ) : Type ℓ where
  pub options : RiskOptions D
  pub orders : List (Order D)
  pub account_balance : AccountBalance D
  pub trading_balance : D
  pub last_order_timestamp_us : ℕ

-- What a call of `OnPricePrediction` takes from outside.
pub record Draw : Type 0 where
  pub number : ℕ
  pub sell_id : String
  pub buy_id : String
  pub memory : OrderStatus

module _ {ℓ} {D : Type ℓ} ⦃d : Double D⦄ where
  unfoldable pub on_account_balance_update : AccountBalance D → RiskManager D → RiskManager D
  unfolding assign_balance
  on_account_balance_update b s = record s { account_balance = assign_balance s.account_balance b }

  -- `std::find`
  unfoldable pub is_ours : Order D → List (Order D) → Bool
  unfolding order_eq
  is_ours o [] = false
  is_ours o (x ∷ xs) = let rest = is_ours o xs in if order_eq x o then true else rest

  -- `m_orders.erase(it)`
  unfoldable pub drop_order : Order D → List (Order D) → List (Order D)
  unfolding order_eq
  drop_order o [] = []
  drop_order o (x ∷ xs) = if order_eq x o then xs else x ∷ drop_order o xs

  abbrev pub traded : Side → D → D → D
  traded sell balance qty = d.sub balance qty
  traded buy balance qty = d.add balance qty

  abbrev pub close_order : OrderStatus → Order D → RiskManager D → RiskManager D
  unfolding drop_order
  close_order filled o s = record s {
    orders = drop_order o s.orders;
    trading_balance = traded o.side s.trading_balance o.executed_quantity;
  }
  close_order _ o s = s

  unfoldable pub on_order_update : Order D → RiskManager D → RiskManager D
  unfolding is_ours close_order
  on_order_update o s = if is_ours o s.orders then close_order o.status o s else s

  -- `CalculateOrders`
  abbrev pub sell_price_of : RiskOptions D → Prediction D → D
  sell_price_of opts p =
      let price = d.div p.base_price (d.sub (d.sub (d.lit 10 1) opts.exchange_fee) opts.our_fee) in
      d.add price (d.mul p.signal (d.sub price p.base_price))

  abbrev pub buy_price_of : RiskOptions D → Prediction D → D
  buy_price_of opts p =
      let price = d.div p.base_price (d.add (d.add (d.lit 10 1) opts.exchange_fee) opts.our_fee) in
      d.add price (d.mul p.signal (d.sub p.base_price price))

  abbrev pub quote : Side → String → D → Draw → RiskOptions D → Prediction D → Order D
  unfolding build
  quote side client_id price draw opts p = build (record {
    id = "";
    client_id = client_id;
    symbol_id = p.symbol;
    side = side;
    order_type = limit;
    quantity = opts.default_order_qty;
    price = price;
    status = draw.memory;
    creation_time_us = p.timestamp_us;
  })

  unfoldable pub calculate_orders : Draw → Prediction D → RiskOptions D → List (Order D)
  unfolding quote
  calculate_orders draw p opts =
      quote sell draw.sell_id (sell_price_of opts p) draw opts p
      ∷ quote buy draw.buy_id (buy_price_of opts p) draw opts p
      ∷ []

  -- Whether the number that is drawn, from 1 to 1000, holds the orders back.
  abbrev pub holds_back : Draw → Prediction D → Bool
  holds_back draw p = d.lt p.confidence (d.div (d.of_ℕ draw.number) (d.lit 10000 1))

  -- `OnPricePrediction`: the state, and the orders that it sends. Their replies are not read.
  unfoldable pub on_price_prediction :
      Draw → Prediction D → RiskManager D → RiskManager D × List (Order D)
  unfolding calculate_orders
  on_price_prediction draw p s = if holds_back draw p then (s, []) else (
    record s {
      orders = s.orders ++ calculate_orders draw p s.options;
      last_order_timestamp_us = p.timestamp_us;
    },
    calculate_orders draw p s.options,
  )
