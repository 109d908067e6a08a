-- ===== src/MarketMaking/Fills.antt =====
-- How strategy/market_making/market_making_risk_manager.cc keeps its position.
use text.Mathlib.Text.{◌==◌ as str_eq}
use crypto_bot.Prelude.{◌≡◌, false, List, [], ◌∷◌, All}
use crypto_bot.Double.{Double}
use crypto_bot.Order.{Order}
use crypto_bot.AccountBalance.{AccountBalance}
use crypto_bot.MarketMaking.{Prediction}
use crypto_bot.MarketMaking.Risk.{
  RiskManager, Draw, on_price_prediction, on_account_balance_update, on_order_update,
}

module _ {ℓ} {D : Type ℓ} ⦃d : Double D⦄ where
  -- Orders that have no id of the exchange, as `CalculateOrders` makes them, and different client
  -- ids.
  abbrev pub IsTidy : List (Order D) → Type ℓ
  IsTidy [] = Unit
  IsTidy (x ∷ xs) = (x.id ≡ "") × All (λ y. str_eq x.client_id y.client_id ≡ false) xs × IsTidy xs

  -- Ids that boost makes up: not those of each other, nor of an order that is held.
  abbrev pub IsFresh : Draw → List (Order D) → Type 0
  IsFresh draw xs =
      (str_eq draw.sell_id draw.buy_id ≡ false)
      × All (λ (y : Order D). str_eq y.client_id draw.sell_id ≡ false) xs
      × All (λ (y : Order D). str_eq y.client_id draw.buy_id ≡ false) xs

  -- What the handlers make of a risk manager that starts without orders.
  pub data Session : RiskManager D → Type ℓ where
    started : (s : RiskManager D) → s.orders ≡ [] → Session s
    balanced :
        {s : RiskManager D} (b : AccountBalance D)
        → Session s
        → Session (on_account_balance_update b s)
    updated : {s : RiskManager D} (o : Order D) → Session s → Session (on_order_update o s)
    predicted :
        {s : RiskManager D} (draw : Draw) (p : Prediction D)
        → IsFresh draw s.orders
        → Session s
        → Session (on_price_prediction draw p s).0
