-- ===== src/Symbol/Tests.antt =====
-- Tests and witnesses for the tables of symbols.
use crypto_bot.Prelude.{◌≡◌, refl, throws, out_of_range}
use crypto_bot.Symbol.{unknown}
use crypto_bot.Symbol.Pair.{get_base_asset}

no_base : get_base_asset unknown ≡ throws out_of_range
unfolding get_base_asset
no_base = refl
