-- ===== src/MarketMaking/Strategy.antt =====
-- strategy/market_making/market_making_strategy.cc. Its mutex makes each handler one step.
use crypto_bot.Prelude.{List, Outcome, ok, ◌>>=◌}
use crypto_bot.Double.{Double}
use crypto_bot.Ticker.{Ticker}
use crypto_bot.Order.{Order}
use crypto_bot.OrderBook.{OrderBook}
use crypto_bot.MarketMaking
use crypto_bot.MarketMaking.{MarketMakingSignal, predict}
use crypto_bot.MarketMaking.Risk.{RiskManager, Draw, on_price_prediction}

pub record MarketMakingStrategy {ℓ} (D : Type ℓ) : Type ℓ where
  pub risk_manager : RiskManager D
  pub signal : MarketMakingSignal D
  pub book_ticker : Ticker D

module _ {ℓ} {D : Type ℓ} ⦃d : Double D⦄ where
  unfoldable pub on_book_ticker :
      Ticker D → MarketMakingStrategy D → Outcome (MarketMakingStrategy D)
  on_book_ticker t s = do
    signal ← MarketMaking.on_book_ticker t s.signal
    ok (record s { book_ticker = t; signal = signal })

  abbrev pub with_risk :
      MarketMakingStrategy D
      → RiskManager D × List (Order D)
      → MarketMakingStrategy D × List (Order D)
  with_risk s (risk_manager, sent) = (record s { risk_manager = risk_manager }, sent)

  -- The handlers of trades and books that the signal inherits do nothing.
  unfoldable pub on_order_book_update :
      Draw
      → OrderBook D
      → MarketMakingStrategy D
      → Outcome (MarketMakingStrategy D × List (Order D))
  unfolding predict on_price_prediction
  on_order_book_update draw ob s = do
    p ← predict ob.last_update.arrived_ts s.signal
    ok (with_risk s (on_price_prediction draw p s.risk_manager))
