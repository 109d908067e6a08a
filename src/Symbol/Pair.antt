-- ===== src/Symbol/Pair.antt =====
-- class SymbolPair of model/symbol.h: the assets of a pair, and the pair of a text.
use Prim.Native.String.{String}
use crypto_bot.Prelude.{
  ◌≡◌, refl, ◌⊎◌, inl, inr, ok, throws, Bool, ◌&&◌, Option, none, some, List, [], ◌∷◌,
  if◌then◌else◌, Outcome, or_throw, out_of_range,
}
use crypto_bot.Assoc.{find}
use crypto_bot.Symbol.{
  SymbolPairId, SymbolId, unknown, ada_usdt, bnb_usdt, btc_usdt, doge_usdt, dot_usdt, eth_usdt,
  eos_usdt, ada_btc, bnb_btc, dot_btc, eth_btc, eos_btc, eos_eth, xlm_btc, ada, bnb, btc, doge, dot,
  eth, eos, usdt, xlm, asset_eq, pair_eq_key, string_key,
}
use crypto_bot.Symbol.Tables.{
  base_map, quote_map, symbol_pair_map, binance_symbols, kraken_symbols, string_symbols,
}

-- The key of `s_symbol_pair_map` is a pair of assets.
abbrev pub symbol_pair_key_eq : SymbolId × SymbolId → SymbolId × SymbolId → Bool
symbol_pair_key_eq (a, b) (c, d) = asset_eq a c && asset_eq b d

find_pair : SymbolId × SymbolId → List ((SymbolId × SymbolId) × SymbolPairId) → Option SymbolPairId
find_pair k [] = none
find_pair k ((j, v) ∷ m) = if symbol_pair_key_eq j k then some v else find_pair k m

abbrev or_unknown : Option SymbolPairId → SymbolPairId
or_unknown none = unknown
or_unknown (some p) = p

unfoldable pub get_base_asset : SymbolPairId → Outcome SymbolId
unfolding find
get_base_asset p = or_throw (find p base_map) out_of_range

unfoldable pub get_quote_asset : SymbolPairId → Outcome SymbolId
unfolding find
get_quote_asset p = or_throw (find p quote_map) out_of_range

unfoldable pub get_symbol_pair : SymbolId → SymbolId → Outcome SymbolPairId
unfolding find_pair
get_symbol_pair base quote = or_throw (find_pair (base, quote) symbol_pair_map) out_of_range

unfoldable pub from_binance_string : String → SymbolPairId
unfolding find
from_binance_string s = or_unknown (find s binance_symbols)

unfoldable pub from_kraken_string : String → SymbolPairId
unfolding find
from_kraken_string s = or_unknown (find s kraken_symbols)

unfoldable pub get_string_symbol : String → SymbolPairId
unfolding find
get_string_symbol s = or_unknown (find s string_symbols)

-- A pair has both assets, or it is UNKNOWN and the look-up of either throws.
pub assets_of_pair :
    (p : SymbolPairId)
    → ((b : SymbolId) × (q : SymbolId) × (get_base_asset p ≡ ok b) × (get_quote_asset p ≡ ok q))
      ⊎ ((p ≡ unknown)
          × (get_base_asset p ≡ throws out_of_range)
          × (get_quote_asset p ≡ throws out_of_range))
unfolding get_base_asset get_quote_asset
assets_of_pair ada_usdt = inl (ada, usdt, refl, refl)
assets_of_pair bnb_usdt = inl (bnb, usdt, refl, refl)
assets_of_pair btc_usdt = inl (btc, usdt, refl, refl)
assets_of_pair doge_usdt = inl (doge, usdt, refl, refl)
assets_of_pair dot_usdt = inl (dot, usdt, refl, refl)
assets_of_pair eth_usdt = inl (eth, usdt, refl, refl)
assets_of_pair eos_usdt = inl (eos, usdt, refl, refl)
assets_of_pair ada_btc = inl (ada, btc, refl, refl)
assets_of_pair bnb_btc = inl (bnb, btc, refl, refl)
assets_of_pair dot_btc = inl (dot, btc, refl, refl)
assets_of_pair eth_btc = inl (eth, btc, refl, refl)
assets_of_pair eos_btc = inl (eos, btc, refl, refl)
assets_of_pair eos_eth = inl (eos, eth, refl, refl)
assets_of_pair xlm_btc = inl (xlm, btc, refl, refl)
assets_of_pair unknown = inr (refl, refl, refl)
