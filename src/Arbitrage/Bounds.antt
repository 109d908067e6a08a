-- ===== src/Arbitrage/Bounds.antt =====
-- The quantity that arbitrage_order_calculator.cc settles on.
use crypto_bot.Prelude.{◌≡◌, false, some, ok}
use crypto_bot.Double.{Double, IsStrict, min_double}
use crypto_bot.Double.Strict.{IsUp-trans, not_below, min_double-IsUp, min_double_second}
use crypto_bot.Ticker.{Ticker}
use crypto_bot.Arbitrage.{calculate_quantity, quantity_of}

module _ {ℓ} {D : Type ℓ} ⦃d : Double D⦄ where
  -- With both volumes there, `CalculateQuantity` gives a quantity, which is not above 0.3 of either
  -- volume's smaller one, not above 0.9 of the base balance, and not above what the smaller of that
  -- volume's cost and 0.9 of the quote balance buys at the asked price. This needs of the order on
  -- `double` only that it is strict.
  pub calculate_quantity_bounds :
      (bid_ticker ask_ticker : Ticker D) (bid_vol ask_vol base_balance quote_balance : D)
      → IsStrict D
      → bid_ticker.bid_vol ≡ some bid_vol
      → ask_ticker.ask_vol ≡ some ask_vol
      → let volume = d.mul (d.lit 3 1) (min_double bid_vol ask_vol) in
        let spendable =
          min_double (d.mul volume ask_ticker.ask) (d.mul (d.lit 90 2) quote_balance) in
        (qty : D) × (calculate_quantity bid_ticker ask_ticker base_balance quote_balance ≡ ok qty)
        × (d.lt volume qty ≡ false)
        × (d.lt (d.mul (d.lit 90 2) base_balance) qty ≡ false)
        × (d.lt (d.div spendable ask_ticker.ask) qty ≡ false)
  unfolding calculate_quantity
  calculate_quantity_bounds bid_ticker ask_ticker bid_vol ask_vol base_balance quote_balance strict
        v w =
      let volume = d.mul (d.lit 3 1) (min_double bid_vol ask_vol) in
      let spendable = min_double (d.mul volume ask_ticker.ask) (d.mul (d.lit 90 2) quote_balance) in
      let bought = d.div spendable ask_ticker.ask in
      let owned = d.mul (d.lit 90 2) base_balance in
      let last = min_double-IsUp strict (min_double volume bought) owned in
      (
        quantity_of bid_vol ask_vol ask_ticker.ask base_balance quote_balance,
        rw (v, w),
        not_below strict _ _ volume (strict.lt_irrefl volume)
            (IsUp-trans strict _ _ _ last (min_double-IsUp strict volume bought)),
        min_double_second strict (min_double volume bought) owned,
        not_below strict _ _ bought (min_double_second strict volume bought) last,
      )
