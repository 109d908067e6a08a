-- ===== src/Symbol/RoundTrip.antt =====
-- What the tables of symbols agree on.
use Prim.Native.String.{String}
use mathlib.Core.Option.{some-injective}
use crypto_bot.Prelude.{
  ◌≡◌, refl, sym, ap, ◌∙◌, if◌then◌else◌, ◌≢◌, Outcome, ok, ◌>>=◌, Option, some, none,
}
use crypto_bot.Assoc.{find}
use crypto_bot.Symbol.{
  SymbolPairId, unknown, pair_eq, pair_eq_key, string_key, ada_usdt, bnb_usdt, btc_usdt, doge_usdt,
  dot_usdt, eth_usdt, eos_usdt, ada_btc, bnb_btc, dot_btc, eth_btc, eos_btc, eos_eth, xlm_btc,
}
use crypto_bot.Symbol.Tables.{binance_symbol_to_string, kraken_symbol_to_string}
use crypto_bot.Symbol.Pair.{
  get_base_asset, get_quote_asset, get_symbol_pair, from_binance_string, from_kraken_string,
}

-- The pair that has the assets of a pair.
abbrev pub of_its_assets : SymbolPairId → Outcome SymbolPairId
of_its_assets p = do base ← get_base_asset p; quote ← get_quote_asset p; get_symbol_pair base quote

-- The pair that an exchange's name of a pair is read as.
abbrev pub reread : (String → SymbolPairId) → Option String → Option SymbolPairId
reread read none = none
reread read (some s) = some (read s)

-- Every pair but UNKNOWN is the pair of its base asset and its quote asset: the two maps of assets
-- and the map of pairs are inverse, and none of the three `at` throws.
pub get_symbol_pair_round_trip : (p : SymbolPairId) → p ≢ unknown → of_its_assets p ≡ ok p
unfolding get_base_asset get_quote_asset get_symbol_pair
get_symbol_pair_round_trip ada_usdt _ = refl
get_symbol_pair_round_trip bnb_usdt _ = refl
get_symbol_pair_round_trip btc_usdt _ = refl
get_symbol_pair_round_trip doge_usdt _ = refl
get_symbol_pair_round_trip dot_usdt _ = refl
get_symbol_pair_round_trip eth_usdt _ = refl
get_symbol_pair_round_trip eos_usdt _ = refl
get_symbol_pair_round_trip ada_btc _ = refl
get_symbol_pair_round_trip bnb_btc _ = refl
get_symbol_pair_round_trip dot_btc _ = refl
get_symbol_pair_round_trip eth_btc _ = refl
get_symbol_pair_round_trip eos_btc _ = refl
get_symbol_pair_round_trip eos_eth _ = refl
get_symbol_pair_round_trip xlm_btc _ = refl
get_symbol_pair_round_trip unknown h = absurd (h refl)

-- Every pair but UNKNOWN has a Binance name, and `FromBinanceString` reads that name as the pair.
pub from_binance_string_round_trip :
    (p : SymbolPairId)
    → p ≢ unknown
    → reread from_binance_string (find p binance_symbol_to_string) ≡ some p
unfolding from_binance_string find
from_binance_string_round_trip ada_usdt _ = refl
from_binance_string_round_trip bnb_usdt _ = refl
from_binance_string_round_trip btc_usdt _ = refl
from_binance_string_round_trip doge_usdt _ = refl
from_binance_string_round_trip dot_usdt _ = refl
from_binance_string_round_trip eth_usdt _ = refl
from_binance_string_round_trip eos_usdt _ = refl
from_binance_string_round_trip ada_btc _ = refl
from_binance_string_round_trip bnb_btc _ = refl
from_binance_string_round_trip dot_btc _ = refl
from_binance_string_round_trip eth_btc _ = refl
from_binance_string_round_trip eos_btc _ = refl
from_binance_string_round_trip eos_eth _ = refl
from_binance_string_round_trip xlm_btc _ = refl
from_binance_string_round_trip unknown h = absurd (h refl)

reread_kraken :
    (p : SymbolPairId) (s : String)
    → find p kraken_symbol_to_string ≡ some s
    → reread from_kraken_string (find p kraken_symbol_to_string)
      ≡ some (if pair_eq p btc_usdt then unknown else p)
unfolding from_kraken_string find
reread_kraken ada_usdt s e = refl
reread_kraken bnb_usdt s e = absurd cc
reread_kraken btc_usdt s e = refl
reread_kraken doge_usdt s e = refl
reread_kraken dot_usdt s e = refl
reread_kraken eth_usdt s e = refl
reread_kraken eos_usdt s e = refl
reread_kraken ada_btc s e = refl
reread_kraken bnb_btc s e = absurd cc
reread_kraken dot_btc s e = refl
reread_kraken eth_btc s e = refl
reread_kraken eos_btc s e = refl
reread_kraken eos_eth s e = refl
reread_kraken xlm_btc s e = refl
reread_kraken unknown s e = absurd cc

-- The name under which `KRAKEN_SYMBOL_TO_STRING_MAP` sends a pair to Kraken is read back by
-- `FromKrakenString` as the same pair, unless the pair is BTC_USDT: that one is written BTCUSDT,
-- which the table of Kraken's names does not have, and is read back as UNKNOWN.
pub from_kraken_string_round_trip :
    (p : SymbolPairId) (s : String)
    → find p kraken_symbol_to_string ≡ some s
    → from_kraken_string s ≡ (if pair_eq p btc_usdt then unknown else p)
from_kraken_string_round_trip p s e =
    some-injective _ _ (ap (reread from_kraken_string) (sym e) ∙ reread_kraken p s e)
