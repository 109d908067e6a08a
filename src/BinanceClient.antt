-- ===== src/BinanceClient.antt =====
-- http/binance_client.hpp: the requests to Binance and what is read of its replies. The HTTP client
-- is a function from requests to replies; the formatting of a number with fixed decimals, the keys,
-- the clock and the HMAC are arguments.
pub mod Account
pub mod Orders
mod Tests
use Prim.Native.String.{◌++◌ as str_append}
use crypto_bot.Prelude.{
  ℕ, ◌+◌, ◌-◌, ◌%◌, ◌^◌, if◌then◌else◌, String, Outcome, ok, throws, ◌>>=◌, or_throw, exited,
  runtime_error,
}
use crypto_bot.Prelude.Int.{ℤ, pos, negsuc}
use crypto_bot.Assoc.{find}
use crypto_bot.Symbol.{SymbolPairId, pair_eq_key}
use crypto_bot.Symbol.Tables.{binance_symbol_to_string}
use crypto_bot.Numerals.{to_string}
use crypto_bot.Double.{Double}
use crypto_bot.Json.{Json, text_field, int_field, double_field}
use crypto_bot.Settings.{PairSettings, get_pair_settings}
use crypto_bot.Order.{Order, Side, sell, buy, OrderType, market, limit, get_status}
use crypto_bot.Exchange.{Result, success, failure}
use crypto_bot.Http.{Request, Reply, is_success, new_request, query_param, header, get, post}

-- `std::to_string` of a signed integer, and its conversion to an unsigned one of 64 bits.
unfoldable pub int_to_string : ℤ → String
unfolding to_string
int_to_string (pos n) = to_string n
int_to_string (negsuc n) = str_append "-" (to_string (n + 1))

abbrev pub to_unsigned : ℤ → ℕ
to_unsigned (pos n) = n % 2 ^ 64
to_unsigned (negsuc n) = (2 ^ 64 - (n + 1) % 2 ^ 64) % 2 ^ 64

-- `GetSymbolString` ends the program for a pair that is not in its table.
unfoldable pub get_symbol_string : SymbolPairId → Outcome String
unfolding find
get_symbol_string spid = or_throw (find spid binance_symbol_to_string) exited

abbrev pub side_text : Side → String
side_text buy = "BUY"
side_text sell = "SELL"

abbrev pub host : String
host = "api.binance.com"

-- `BinanceOrderBookDepth` is given by its value, and a key by `api_key`.
module _ (api_key : String) where
  abbrev pub signed_post : String → Request
  unfolding header
  signed_post path = header "X-MBX-APIKEY" api_key (new_request host "443" path post)

  abbrev pub signed_get : String → Request
  unfolding header
  signed_get path = header "X-MBX-APIKEY" api_key (new_request host "443" path get)

module _ {ℓ} {D : Type ℓ} (api_key : String) (format : D → ℕ → String)
    (settings : PairSettings D) where
  unfoldable pub market_order_request : SymbolPairId → Side → D → Outcome Request
  unfolding get_symbol_string get_pair_settings signed_post query_param
  market_order_request symbol side qty = do
    symbol_str ← get_symbol_string symbol
    pair_settings ← get_pair_settings symbol settings
    ok (
        query_param "quantity" (format qty pair_settings.order_precision) (
          query_param "type" "MARKET" (
            query_param "side" (side_text side)
              (query_param "symbol" symbol_str (signed_post api_key "/api/v3/order")))))

  abbrev limit_params : String → Side → String → String → Request
  unfolding signed_post query_param
  limit_params symbol_str side qty_text price_text = query_param "price" price_text (
      query_param "quantity" qty_text (
        query_param "type" "LIMIT" (
          query_param "side" (side_text side)
            (query_param "symbol" symbol_str (signed_post api_key "/api/v3/order")))))

  unfoldable pub limit_order_request : SymbolPairId → Side → D → D → Outcome Request
  unfolding get_symbol_string get_pair_settings limit_params
  limit_order_request symbol side qty price = do
    symbol_str ← get_symbol_string symbol
    pair_settings ← get_pair_settings symbol settings
    ok (
        query_param "timeInForce" "GTC" (
          limit_params symbol_str side (format qty pair_settings.order_precision)
            (format price pair_settings.price_precision)))

  -- `SendLimitOrder`
  unfoldable pub send_limit_order_request : Order D → Outcome Request
  unfolding get_symbol_string get_pair_settings limit_params
  send_limit_order_request o = do
    symbol_str ← get_symbol_string o.symbol_id
    pair_settings ← get_pair_settings o.symbol_id settings
    ok (
        query_param "timeInForce" "GTC" (
          query_param "newClientOrderId" o.client_id (
            limit_params symbol_str o.side (format o.quantity pair_settings.order_precision)
              (format o.price pair_settings.price_precision))))

module _ {ℓ} {D : Type ℓ} ⦃d : Double D⦄ where
  abbrev pub new_order : SymbolPairId → Side → OrderType → D → D → ℤ → String → String → ℤ → Order D
  unfolding get_status
  new_order symbol side type qty price order_id client_order_id status transact_time = record {
    id = int_to_string order_id;
    client_id = client_order_id;
    symbol_id = symbol;
    side = side;
    order_type = type;
    quantity = qty;
    price = price;
    status = get_status status;
    creation_time_us = to_unsigned transact_time;
    executed_quantity = d.of_ℕ 0;
    total_cost = d.of_ℕ 0;
  }

module _ {ℓ} {D : Type ℓ} where
  -- Fields that are read one after the other.
  abbrev pub limit_from :
      (ℤ → String → String → ℤ → Order D)
      → Outcome ℤ
      → Outcome String
      → Outcome String
      → Outcome ℤ
      → Outcome (Order D)
  limit_from make id_field client_field status_field time_field = do
    order_id ← id_field
    client_order_id ← client_field
    status ← status_field
    transact_time ← time_field
    ok (make order_id client_order_id status transact_time)

  abbrev pub market_from :
      (D → ℤ → String → String → ℤ → Order D)
      → Outcome ℤ
      → Outcome String
      → Outcome D
      → Outcome ℤ
      → Outcome String
      → Outcome (Order D)
  market_from make id_field client_field cost_field time_field status_field = do
    order_id ← id_field
    client_order_id ← client_field
    cummulative_quote_qty ← cost_field
    transact_time ← time_field
    status ← status_field
    ok (make cummulative_quote_qty order_id client_order_id status transact_time)

module _ {J : Type 0} ⦃j : Json J⦄ where
  -- An answer without "orderId" is an error, and "msg" says which.
  abbrev pub error_of {κ} : {A : Type κ} → String → J → Outcome (Result A)
  error_of response v = do errmsg ← text_field v "msg"; ok (failure response errmsg)

module _ {ℓ} {J : Type 0} {D : Type ℓ} ⦃j : Json J⦄ ⦃d : Double D⦄ where
  -- What is read of an answer to `LimitOrder` and to `SendOrder`.
  abbrev pub limit_order_of : SymbolPairId → Side → OrderType → D → D → J → Outcome (Order D)
  unfolding new_order
  limit_order_of symbol side type qty price v =
      limit_from (new_order symbol side type qty price) (int_field v "orderId")
        (text_field v "clientOrderId") (text_field v "status") (int_field v "transactTime")

  -- The price of a market order is the cost over the quantity.
  abbrev pub market_order_of : SymbolPairId → Side → D → J → Outcome (Order D)
  unfolding new_order
  market_order_of symbol side qty v =
      market_from (λ cost. new_order symbol side market qty (d.div cost qty))
        (int_field v "orderId") (text_field v "clientOrderId")
        (double_field v "cummulativeQuoteQty") (int_field v "transactTime") (text_field v "status")

  -- How an answer with a body is read.
  abbrev pub read_body : (J → Outcome (Order D)) → String → J → Outcome (Result (Order D))
  read_body read response v =
      let order = (do o ← read v; ok (success response o)) in
      let error = error_of response v in if j.contains v "orderId" then order else error

  -- How the replies to the three requests are read.
  unfoldable pub read_order : (J → Outcome (Order D)) → Reply → Outcome (Result (Order D))
  unfolding is_success
  read_order read res =
      let answer = (do v ← j.parse res.response; read_body read res.response v) in
      if is_success res then answer else ok (failure res.response res.errmsg)

module _ {ℓ} (J : Type 0) {D : Type ℓ} ⦃j : Json J⦄ ⦃d : Double D⦄ (http : Request → Reply)
    (api_key : String) (format : D → ℕ → String) (settings : PairSettings D) where
  -- `MarketOrder`, `LimitOrder` and `SendOrder`
  unfoldable pub market_order : SymbolPairId → Side → D → Outcome (Result (Order D))
  unfolding market_order_request read_order market_order_of
  market_order symbol side qty = do
    r ← market_order_request api_key format settings symbol side qty
    read_order {J = J} (market_order_of symbol side qty) (http r)

  unfoldable pub limit_order : SymbolPairId → Side → D → D → Outcome (Result (Order D))
  unfolding limit_order_request read_order limit_order_of
  limit_order symbol side qty price = do
    r ← limit_order_request api_key format settings symbol side qty price
    read_order {J = J} (limit_order_of symbol side limit qty price) (http r)

  abbrev send_by_type : OrderType → Order D → Outcome (Result (Order D))
  unfolding send_limit_order_request read_order limit_order_of
  send_by_type limit o = do
    r ← send_limit_order_request api_key format settings o
    read_order {J = J} (limit_order_of o.symbol_id o.side o.order_type o.quantity o.price) (http r)
  send_by_type _ o = throws runtime_error

  unfoldable pub send_order : Order D → Outcome (Result (Order D))
  unfolding send_by_type
  send_order o = send_by_type o.order_type o
