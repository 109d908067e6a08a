-- ===== src/Settings/Tests.antt =====
-- Tests and witnesses for utils/string.cc and exchange/binance_settings.hpp: the cases of
-- utils/string_unittest.cc.
use crypto_bot.Prelude.{◌≡◌, refl, ok, throws, invalid_argument}
use crypto_bot.Settings.{precision_from_string}
use crypto_bot.Settings.Precision.{precision_from_string-counts}

no_decimals : precision_from_string "1.0000000" ≡ ok 0
unfolding precision_from_string
no_decimals = refl

zeros_behind : precision_from_string "0.00100000" ≡ ok 3
unfolding precision_from_string
zeros_behind = refl

no_point : precision_from_string "128" ≡ ok 0
unfolding precision_from_string
no_point = refl

no_number : precision_from_string "asdf" ≡ throws invalid_argument
unfolding precision_from_string
no_number = refl

precision_from_string-counts_example : precision_from_string "0.1234500" ≡ ok 5
precision_from_string-counts_example =
    precision_from_string-counts "0" "12345" "00" (refl, tt)
      (refl, (refl, (refl, (refl, (refl, tt))))) refl (refl, (refl, tt))
