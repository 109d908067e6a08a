-- ===== src/Indicator/Tests.antt =====
-- Tests and witnesses for strategy/indicator.
use crypto_bot.Prelude.{◌≡◌, refl, List, [], ◌∷◌, ok, some, arith}
use crypto_bot.Prelude.Int.{ℤ, pos, ◌+ℤ◌, ◌*ℤ◌, ◌-ℤ◌}
use crypto_bot.Double.{exact}
use crypto_bot.Indicator.{
  SimpleMovingAverage, new_average, feed_average, Candle, reset_candle, add_candle,
}
use crypto_bot.Indicator.MovingAverage.{IsWindow, feed_average-IsWindow}
use crypto_bot.Indicator.Strength.{
  calculate_strength, averages, strength_of, calculate_strength-averages,
}

abbrev prices : List ℤ
prices = pos 9 ∷ pos 5 ∷ pos 4 ∷ pos 100 ∷ []

feed_average-IsWindow_example :
    (s : SimpleMovingAverage ℤ) × (feed_average prices (new_average 3 (pos 0)) ≡ ok s)
    × IsWindow 3 (pos 0) prices s
feed_average-IsWindow_example = feed_average-IsWindow 3 (pos 0) prices (omega arith)

abbrev candles : List (Candle ℤ)
unfolding reset_candle add_candle
candles =
    add_candle (pos 12) (pos 1) (reset_candle (pos 10) (pos 0))
    ∷ add_candle (pos 7) (pos 1) (reset_candle (pos 10) (pos 0))
    ∷ []

-- The closes of relative_strength_index_unittest.cc, times 1000; the older one does not count.
abbrev closes : List ℤ
closes = pos 5000 ∷ pos 2000 ∷ pos 4000 ∷ pos 3000 ∷ pos 9000 ∷ []

calculate_strength-averages_example :
    calculate_strength (record { period = 3 }) closes
    ≡ ok (some (strength_of (averages 3 3 closes)))
calculate_strength-averages_example = calculate_strength-averages 2 closes

unittest_strength : calculate_strength (record { period = 3 }) closes ≡ ok (some (pos 75))
unfolding calculate_strength ◌+ℤ◌ ◌*ℤ◌ ◌-ℤ◌
unittest_strength = refl
