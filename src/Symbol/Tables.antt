-- ===== src/Symbol/Tables.antt =====
-- The constant tables of model/symbol.h and model/symbol.cc.
use Prim.Native.String.{String}
use crypto_bot.Prelude.{List, [], ◌∷◌}
use crypto_bot.Symbol.{
  SymbolPairId, SymbolId, ada_usdt, bnb_usdt, btc_usdt, doge_usdt, dot_usdt, eth_usdt, eos_usdt,
  ada_btc, bnb_btc, dot_btc, eth_btc, eos_btc, eos_eth, xlm_btc, ada, bnb, btc, doge, dot, eth, eos,
  usdt, xlm, unknown, unknown_asset,
}

-- `s_base_map`
abbrev pub base_map : List (SymbolPairId × SymbolId)
base_map =
    (ada_usdt, ada)
    ∷ (bnb_usdt, bnb)
    ∷ (btc_usdt, btc)
    ∷ (doge_usdt, doge)
    ∷ (dot_usdt, dot)
    ∷ (eth_usdt, eth)
    ∷ (eos_usdt, eos)
    ∷ (ada_btc, ada)
    ∷ (bnb_btc, bnb)
    ∷ (dot_btc, dot)
    ∷ (eth_btc, eth)
    ∷ (eos_btc, eos)
    ∷ (eos_eth, eos)
    ∷ (xlm_btc, xlm)
    ∷ []

-- `s_quote_map`
abbrev pub quote_map : List (SymbolPairId × SymbolId)
quote_map =
    (ada_usdt, usdt)
    ∷ (bnb_usdt, usdt)
    ∷ (btc_usdt, usdt)
    ∷ (doge_usdt, usdt)
    ∷ (dot_usdt, usdt)
    ∷ (eth_usdt, usdt)
    ∷ (eos_usdt, usdt)
    ∷ (ada_btc, btc)
    ∷ (bnb_btc, btc)
    ∷ (dot_btc, btc)
    ∷ (eth_btc, btc)
    ∷ (eos_btc, btc)
    ∷ (eos_eth, eth)
    ∷ (xlm_btc, btc)
    ∷ []

-- `getBinanceSymbols`
abbrev pub binance_symbols : List (String × SymbolPairId)
binance_symbols =
    ("ADAUSDT", ada_usdt)
    ∷ ("BNBUSDT", bnb_usdt)
    ∷ ("BTCUSDT", btc_usdt)
    ∷ ("DOGEUSDT", doge_usdt)
    ∷ ("DOTUSDT", dot_usdt)
    ∷ ("ETHUSDT", eth_usdt)
    ∷ ("EOSUSDT", eos_usdt)
    ∷ ("ADABTC", ada_btc)
    ∷ ("BNBBTC", bnb_btc)
    ∷ ("DOTBTC", dot_btc)
    ∷ ("ETHBTC", eth_btc)
    ∷ ("EOSBTC", eos_btc)
    ∷ ("EOSETH", eos_eth)
    ∷ ("XLMBTC", xlm_btc)
    ∷ []

-- `BINANCE_SYMBOL_TO_STRING_MAP`
abbrev pub binance_symbol_to_string : List (SymbolPairId × String)
binance_symbol_to_string =
    (ada_usdt, "ADAUSDT")
    ∷ (bnb_usdt, "BNBUSDT")
    ∷ (btc_usdt, "BTCUSDT")
    ∷ (doge_usdt, "DOGEUSDT")
    ∷ (dot_usdt, "DOTUSDT")
    ∷ (eth_usdt, "ETHUSDT")
    ∷ (eos_usdt, "EOSUSDT")
    ∷ (ada_btc, "ADABTC")
    ∷ (bnb_btc, "BNBBTC")
    ∷ (dot_btc, "DOTBTC")
    ∷ (eth_btc, "ETHBTC")
    ∷ (eos_btc, "EOSBTC")
    ∷ (eos_eth, "EOSETH")
    ∷ (xlm_btc, "XLMBTC")
    ∷ []

-- `getStringSymbols`
abbrev pub string_symbols : List (String × SymbolPairId)
string_symbols =
    ("ADA_USDT", ada_usdt)
    ∷ ("BNB_USDT", bnb_usdt)
    ∷ ("BTC_USDT", btc_usdt)
    ∷ ("DOGE_USDT", doge_usdt)
    ∷ ("DOT_USDT", dot_usdt)
    ∷ ("ETH_USDT", eth_usdt)
    ∷ ("EOS_USDT", eos_usdt)
    ∷ ("ADA_BTC", ada_btc)
    ∷ ("BNB_BTC", bnb_btc)
    ∷ ("DOT_BTC", dot_btc)
    ∷ ("ETH_BTC", eth_btc)
    ∷ ("EOS_BTC", eos_btc)
    ∷ ("EOS_ETH", eos_eth)
    ∷ ("XLM_BTC", xlm_btc)
    ∷ []

-- `getKrakenSymbols`
abbrev pub kraken_symbols : List (String × SymbolPairId)
kraken_symbols =
    ("ADA/USDT", ada_usdt)
    ∷ ("ADAUSDT", ada_usdt)
    ∷ ("XBT/USDT", btc_usdt)
    ∷ ("XBTUSDT", btc_usdt)
    ∷ ("XDG/USDT", doge_usdt)
    ∷ ("XDGUSDT", doge_usdt)
    ∷ ("DOGE/USDT", doge_usdt)
    ∷ ("DOGEUSDT", doge_usdt)
    ∷ ("DOT/USDT", dot_usdt)
    ∷ ("DOTUSDT", dot_usdt)
    ∷ ("ETH/USDT", eth_usdt)
    ∷ ("ETHUSDT", eth_usdt)
    ∷ ("EOS/USDT", eos_usdt)
    ∷ ("EOSUSDT", eos_usdt)
    ∷ ("ETH/XBT", eth_btc)
    ∷ ("ETHXBT", eth_btc)
    ∷ ("ADA/XBT", ada_btc)
    ∷ ("ADAXBT", ada_btc)
    ∷ ("DOT/XBT", dot_btc)
    ∷ ("DOTXBT", dot_btc)
    ∷ ("EOS/XBT", eos_btc)
    ∷ ("EOSXBT", eos_btc)
    ∷ ("EOS/ETH", eos_eth)
    ∷ ("EOSETH", eos_eth)
    ∷ ("XLM/XBT", xlm_btc)
    ∷ ("XLMXBT", xlm_btc)
    ∷ []

-- `KRAKEN_SYMBOL_TO_STRING_MAP`
abbrev pub kraken_symbol_to_string : List (SymbolPairId × String)
kraken_symbol_to_string =
    (ada_usdt, "ADAUSDT")
    ∷ (btc_usdt, "BTCUSDT")
    ∷ (doge_usdt, "DOGEUSDT")
    ∷ (dot_usdt, "DOTUSDT")
    ∷ (eth_usdt, "ETHUSDT")
    ∷ (eos_usdt, "EOSUSDT")
    ∷ (ada_btc, "ADAXBT")
    ∷ (dot_btc, "DOTXBT")
    ∷ (eth_btc, "ETHXBT")
    ∷ (eos_btc, "EOSXBT")
    ∷ (eos_eth, "EOSETH")
    ∷ (xlm_btc, "XLMXBT")
    ∷ []

-- `s_symbol_pair_map`
abbrev pub symbol_pair_map : List ((SymbolId × SymbolId) × SymbolPairId)
symbol_pair_map =
    ((ada, usdt), ada_usdt)
    ∷ ((bnb, usdt), bnb_usdt)
    ∷ ((btc, usdt), btc_usdt)
    ∷ ((doge, usdt), doge_usdt)
    ∷ ((dot, usdt), dot_usdt)
    ∷ ((eth, usdt), eth_usdt)
    ∷ ((eos, usdt), eos_usdt)
    ∷ ((ada, btc), ada_btc)
    ∷ ((bnb, btc), bnb_btc)
    ∷ ((dot, btc), dot_btc)
    ∷ ((eth, btc), eth_btc)
    ∷ ((eos, btc), eos_btc)
    ∷ ((eos, eth), eos_eth)
    ∷ ((xlm, btc), xlm_btc)
    ∷ []

-- `BINANCE_ASSET_MAP`
abbrev pub binance_asset_map : List (String × SymbolId)
binance_asset_map =
    ("ADA", ada)
    ∷ ("BNB", bnb)
    ∷ ("BTC", btc)
    ∷ ("DOGE", doge)
    ∷ ("DOT", dot)
    ∷ ("ETH", eth)
    ∷ ("EOS", eos)
    ∷ ("USDT", usdt)
    ∷ ("XLM", xlm)
    ∷ []

-- `KRAKEN_ASSET_MAP`
abbrev pub kraken_asset_map : List (String × SymbolId)
kraken_asset_map =
    ("ADA", ada)
    ∷ ("DOT", dot)
    ∷ ("XBT", btc)
    ∷ ("XXBT", btc)
    ∷ ("XDG", doge)
    ∷ ("XXDG", doge)
    ∷ ("ETH", eth)
    ∷ ("XETH", eth)
    ∷ ("EOS", eos)
    ∷ ("USDT", usdt)
    ∷ ("XXLM", xlm)
    ∷ []

-- `operator<<` of a pair and of an asset.
unfoldable pub print_pair : SymbolPairId → String
print_pair ada_usdt = "ADA_USDT"
print_pair bnb_usdt = "BNB_USDT"
print_pair btc_usdt = "BTC_USDT"
print_pair doge_usdt = "DOGE_USDT"
print_pair dot_usdt = "DOT_USDT"
print_pair eth_usdt = "ETH_USDT"
print_pair eos_usdt = "EOS_USDT"
print_pair ada_btc = "ADA_BTC"
print_pair bnb_btc = "BNB_BTC"
print_pair dot_btc = "DOT_BTC"
print_pair eth_btc = "ETH_BTC"
print_pair eos_btc = "EOS_BTC"
print_pair eos_eth = "EOS_ETH"
print_pair xlm_btc = "XLM_BTC"
print_pair unknown = "UNKNOWN"

unfoldable pub print_asset : SymbolId → String
print_asset ada = "ADA"
print_asset bnb = "BNB"
print_asset btc = "BTC"
print_asset doge = "DOGE"
print_asset dot = "DOT"
print_asset eth = "ETH"
print_asset eos = "EOS"
print_asset usdt = "USDT"
print_asset xlm = "XLM"
print_asset unknown_asset = "UNKNOWN_ASSET"
