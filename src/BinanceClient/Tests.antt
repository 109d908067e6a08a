-- ===== src/BinanceClient/Tests.antt =====
-- Tests and witnesses for http/binance_client.hpp.
use crypto_bot.Prelude.{ℕ, String, [], ◌∷◌}
use crypto_bot.Prelude.Int.{ℤ, pos}
use crypto_bot.Double.{exact}
use crypto_bot.Symbol.{btc_usdt, string_key}
use crypto_bot.Order.{Order, buy, limit, new}
use crypto_bot.Exchange.{Result, success}
use crypto_bot.Http.{Request, Reply}
use crypto_bot.Json.Flat.{Flat, words, number, object}
use crypto_bot.Settings.{PairSettings, SymbolPairSettings}

abbrev answer : Flat
answer = object (
    ("orderId", number (pos 28))
    ∷ ("clientOrderId", words "6gC")
    ∷ ("transactTime", number (pos 1507725176595))
    ∷ ("cummulativeQuoteQty", words "10")
    ∷ ("status", words "NEW")
    ∷ [])

abbrev http : Request → Reply
http r = record { errmsg = ""; response = "{}" }

abbrev btc_settings : SymbolPairSettings ℤ
btc_settings = record {
  symbol = "BTCUSDT";
  base_asset = "BTC";
  quote_asset = "USDT";
  quote_precision = 8;
  base_asset_precision = 8;
  quote_asset_precision = 8;
  min_price = pos 1;
  max_price = pos 1000000;
  tick_size = pos 1;
  min_qty = pos 1;
  max_qty = pos 9000;
  step_size = pos 1;
  price_precision = 2;
  order_precision = 6;
}

abbrev settings : PairSettings ℤ
settings = (btc_usdt, btc_settings) ∷ []

abbrev format : ℤ → ℕ → String
format x n = "1.00"

abbrev placed : ℤ → Result (Order ℤ)
placed price = success "{}" (record {
  id = "28";
  client_id = "6gC";
  symbol_id = btc_usdt;
  side = buy;
  order_type = limit;
  quantity = pos 5;
  price = price;
  status = new;
  creation_time_us = 1507725176595;
  executed_quantity = pos 0;
  total_cost = pos 0;
})
