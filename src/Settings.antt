-- ===== src/Settings.antt =====
-- utils/string.cc, exchange/symbol_pair_settings.hpp and exchange/binance_settings.hpp: the
-- settings of a pair, as Binance sends them.
pub mod Precision
mod Tests
use Prim.Native.Char.{code}
use text.Mathlib.Text.{◌==◌ as str_eq}
use crypto_bot.Prelude.{
  ℕ, ◌+◌, Bool, ◌&&◌, if◌then◌else◌, String, List, [], ◌∷◌, Outcome, ok, throws, ◌>>=◌, or_throw,
  invalid_argument, out_of_range, ltb, leb, ◌==◌,
}
use crypto_bot.Assoc.{find, emplace}
use crypto_bot.Symbol.{SymbolPairId, unknown, pair_eq_key, pair_eq}
use crypto_bot.Symbol.Pair.{from_binance_string}
use crypto_bot.Double.{Double}
use crypto_bot.Json.{Json, text_field, uint_field, double_field}

-- `is_digit`
abbrev pub is_digit : ℕ → Bool
is_digit c = leb 48 c && leb c 57

-- The second loop of `precision_from_string`, behind the point: `j` digits have been read, and the
-- last of them that is not 0 is the digit number `last`.
unfoldable pub decimals_from : ℕ → ℕ → String → Outcome ℕ
decimals_from j last String.[] = ok last
decimals_from j last (String.◌∷◌ c s) =
    let rest = decimals_from (j + 1) (if ltb 48 (code c) then j + 1 else last) s in
    if is_digit (code c) then rest else throws invalid_argument

-- `precision_from_string`: the first loop, up to the point.
unfoldable pub precision_from_string : String → Outcome ℕ
unfolding decimals_from
precision_from_string String.[] = ok 0
precision_from_string (String.◌∷◌ c s) =
    let rest = precision_from_string s in
    let decimals = decimals_from 0 0 s in
    if code c == 46 then decimals else if is_digit (code c) then rest else throws invalid_argument

-- `SymbolPairSettings`
pub record SymbolPairSettings {ℓ} (D : Type ℓ) : Type ℓ where
  pub symbol : String
  pub base_asset : String
  pub quote_asset : String
  pub quote_precision : ℕ
  pub base_asset_precision : ℕ
  pub quote_asset_precision : ℕ
  pub min_price : D
  pub max_price : D
  pub tick_size : D
  pub min_qty : D
  pub max_qty : D
  pub step_size : D
  pub price_precision : ℕ
  pub order_precision : ℕ

-- The settings of the pairs, by their ids.
abbrev pub PairSettings {ℓ} : Type ℓ → Type ℓ
PairSettings D = List (SymbolPairId × SymbolPairSettings D)

module _ {ℓ} {D : Type ℓ} where
  unfoldable pub add_settings : SymbolPairSettings D → PairSettings D → PairSettings D
  unfolding from_binance_string emplace
  add_settings sps m =
      if pair_eq (from_binance_string sps.symbol) unknown
      then m
      else emplace (from_binance_string sps.symbol) sps m

  unfoldable pub get_pair_settings : SymbolPairId → PairSettings D → Outcome (SymbolPairSettings D)
  unfolding find
  get_pair_settings spid m = or_throw (find spid m) out_of_range

module _ {ℓ} {J : Type 0} {D : Type ℓ} ⦃j : Json J⦄ ⦃d : Double D⦄ where
  abbrev with_price_filter : J → SymbolPairSettings D → Outcome (SymbolPairSettings D)
  unfolding precision_from_string
  with_price_filter filter sps = do
    min_price ← double_field filter "minPrice"
    max_price ← double_field filter "maxPrice"
    tick_size_str ← text_field filter "tickSize"
    tick_size ← or_throw (d.stod tick_size_str) invalid_argument
    price_precision ← precision_from_string tick_size_str
    ok (record sps {
      min_price = min_price;
      max_price = max_price;
      tick_size = tick_size;
      price_precision = price_precision;
    })

  abbrev with_lot_size : J → SymbolPairSettings D → Outcome (SymbolPairSettings D)
  unfolding precision_from_string
  with_lot_size filter sps = do
    min_qty ← double_field filter "minQty"
    max_qty ← double_field filter "maxQty"
    step_size_str ← text_field filter "stepSize"
    step_size ← or_throw (d.stod step_size_str) invalid_argument
    order_precision ← precision_from_string step_size_str
    ok (record sps {
      min_qty = min_qty;
      max_qty = max_qty;
      step_size = step_size;
      order_precision = order_precision;
    })

  -- One filter of a symbol; those of another type are left aside.
  unfoldable pub with_filter : J → SymbolPairSettings D → Outcome (SymbolPairSettings D)
  unfolding with_price_filter with_lot_size
  with_filter filter sps = do
    filter_type ← text_field filter "filterType"
    let priced = with_price_filter filter sps
    let sized = with_lot_size filter sps
    if str_eq filter_type "PRICE_FILTER"
        then priced
        else if str_eq filter_type "LOT_SIZE"
        then sized
        else ok sps

  unfoldable pub with_filters : List J → SymbolPairSettings D → Outcome (SymbolPairSettings D)
  unfolding with_filter
  with_filters [] sps = ok sps
  with_filters (f ∷ fs) sps = do sps1 ← with_filter f sps; with_filters fs sps1

  -- One symbol of the payload. What the memory holds in fields that no filter sets is `memory`.
  unfoldable pub parse_symbol : SymbolPairSettings D → J → Outcome (SymbolPairSettings D)
  unfolding with_filters
  parse_symbol memory symbol_json = do
    symbol ← text_field symbol_json "symbol"
    base_asset ← text_field symbol_json "baseAsset"
    quote_asset ← text_field symbol_json "quoteAsset"
    quote_precision ← uint_field symbol_json "quotePrecision"
    base_asset_precision ← uint_field symbol_json "baseAssetPrecision"
    quote_asset_precision ← uint_field symbol_json "quoteAssetPrecision"
    filters ← j.field symbol_json "filters"
    with_filters (j.values filters) (record memory {
      symbol = symbol;
      base_asset = base_asset;
      quote_asset = quote_asset;
      quote_precision = quote_precision;
      base_asset_precision = base_asset_precision;
      quote_asset_precision = quote_asset_precision;
    })

  unfoldable pub parse_symbols :
      SymbolPairSettings D → List J → PairSettings D → Outcome (PairSettings D)
  unfolding parse_symbol add_settings
  parse_symbols memory [] m = ok m
  parse_symbols memory (s ∷ ss) m = do
    sps ← parse_symbol memory s
    parse_symbols memory ss (add_settings sps m)

  -- `BinanceSettings::ParseExchangeInfo`
  unfoldable pub parse_exchange_info : SymbolPairSettings D → J → Outcome (PairSettings D)
  unfolding parse_symbols
  parse_exchange_info memory payload = do
    symbols ← j.field payload "symbols"
    parse_symbols memory (j.values symbols) []
