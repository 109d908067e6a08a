-- ===== src/Arbitrage/Prices.antt =====
-- The prices that arbitrage_order_calculator.cc settles on.
use crypto_bot.Prelude.{◌≡◌, refl, sym, ap, ◌∙◌, some, String, List, ok}
use crypto_bot.Assoc.{find}
use crypto_bot.Symbol.{string_key}
use crypto_bot.Double.{Double}
use crypto_bot.Ticker.{Ticker}
use crypto_bot.Arbitrage.{ExchangeParams, ArbitragePrices, prices_of, calculate_prices}

-- Sums and products that do not round.
pub record IsExact {ℓ} (D : Type ℓ) ⦃d : Double D⦄ : Type ℓ where
  pub add_comm : (a b : D) → d.add a b ≡ d.add b a
  pub mul_assoc : (a b c : D) → d.mul (d.mul a b) c ≡ d.mul a (d.mul b c)
  pub mul_add : (a b c : D) → d.mul a (d.add b c) ≡ d.add (d.mul a b) (d.mul a c)

module _ {ℓ} {D : Type ℓ} ⦃d : Double D⦄ where
  -- What is left of a price after the fee of a sale, and what a buy costs with its fee.
  abbrev pub sale_share : ExchangeParams D → D
  sale_share p = d.sub (d.lit 10 1) p.fee

  abbrev pub cost_share : ExchangeParams D → D
  cost_share p = d.add (d.lit 10 1) p.fee

  module _ (exact : IsExact D) where
    -- A share of a price that is a quotient's multiple of another price.
    undo_quotient :
        (s t r price share : D)
        → d.mul s r ≡ t
        → d.mul s (d.mul (d.mul r price) share) ≡ d.mul t (d.mul price share)
    undo_quotient s t r price share h =
        ap (d.mul s) (exact.mul_assoc r price share)
        ∙ sym (exact.mul_assoc s r (d.mul price share))
        ∙ ap (λ x. d.mul x (d.mul price share)) h

    balance :
        (s c r q bid ask a b : D)
        → d.mul c r ≡ s
        → d.mul s q ≡ c
        → d.mul s (d.add (d.mul bid b) (d.mul (d.mul q ask) a))
          ≡ d.mul c (d.add (d.mul ask a) (d.mul (d.mul r bid) b))
    balance s c r q bid ask a b h k =
        exact.mul_add s (d.mul bid b) (d.mul (d.mul q ask) a)
        ∙ ap (d.add (d.mul s (d.mul bid b))) (undo_quotient s c q ask a k)
        ∙ exact.add_comm (d.mul s (d.mul bid b)) (d.mul c (d.mul ask a))
        ∙ ap (d.add (d.mul c (d.mul ask a))) (sym (undo_quotient c s r bid b h))
        ∙ sym (exact.mul_add c (d.mul ask a) (d.mul (d.mul r bid) b))

  -- The worst case of the two limit prices is a profit of zero, as a comment in the code says: with
  -- arithmetic that does not round, and where the quotients of the two shares are exact, what a
  -- unit brings when it is sold at the sell price, less the fee, is just what a unit costs when it
  -- is bought at the buy price, with the fee. The exchanges' parameters and both volumes are there.
  pub calculate_prices_zero_profit :
      (params : List (String × ExchangeParams D)) (bid_ticker ask_ticker : Ticker D)
      (p q : ExchangeParams D) (bid_vol ask_vol : D)
      → IsExact D
      → find bid_ticker.exchange params ≡ some p
      → find ask_ticker.exchange params ≡ some q
      → bid_ticker.bid_vol ≡ some bid_vol
      → ask_ticker.ask_vol ≡ some ask_vol
      → d.mul (cost_share q) (d.div (sale_share p) (cost_share q)) ≡ sale_share p
      → d.mul (sale_share p) (d.div (cost_share q) (sale_share p)) ≡ cost_share q
      → (prices : ArbitragePrices D) × (calculate_prices params bid_ticker ask_ticker ≡ ok prices)
        × (d.mul (sale_share p) prices.sell_price ≡ d.mul (cost_share q) prices.buy_price)
  unfolding calculate_prices
  calculate_prices_zero_profit params bid_ticker ask_ticker p q bid_vol ask_vol exact fp fq v w h
        k =
      (
        prices_of p q bid_vol ask_vol bid_ticker ask_ticker,
        rw (fp, fq, v, w) refl,
        balance exact (sale_share p) (cost_share q) _ _ bid_ticker.bid ask_ticker.ask _ _ h k,
      )
