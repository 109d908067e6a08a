-- ===== src/BinanceClient/Account.antt =====
-- The other requests of http/binance_client.hpp: cancelling, balances, open orders, the user data
-- stream and the snapshot of a book.
use Prim.Native.String.{◌++◌ as str_append}
use text.Mathlib.Text.{◌==◌ as str_eq}
use crypto_bot.Prelude.{
  ℕ, Bool, true, false, if◌then◌else◌, Option, none, some, String, List, [], ◌∷◌, Outcome, ok,
  throws, ◌>>=◌, or_throw, invalid_argument, runtime_error,
}
use crypto_bot.Assoc.{find, emplace}
use crypto_bot.Symbol.{SymbolPairId, SymbolId, string_key, asset_eq_key}
use crypto_bot.Symbol.Tables.{binance_asset_map}
use crypto_bot.Symbol.Pair.{from_binance_string}
use crypto_bot.Numerals.{to_string}
use crypto_bot.Double.{Double}
use crypto_bot.Json.{Json, text_field, int_field, double_field}
use crypto_bot.Order.{
  Order, Side, sell, buy, OrderType, market, limit, OrderStatus, canceled, pending_cancel,
  get_status,
}
use crypto_bot.AccountBalance.{AccountBalance}
use crypto_bot.Exchange.{Result, success, failure}
use crypto_bot.Http.{
  Request, Reply, Method, is_success, new_request, query_param, header, get, put, delete_,
}
use crypto_bot.BinanceClient.{
  int_to_string, to_unsigned, get_symbol_string, host, signed_post, signed_get, error_of,
}

abbrev cancels : OrderStatus → Bool
cancels canceled = true
cancels pending_cancel = true
cancels _ = false

abbrev pub side_of : String → Side
side_of s = if str_eq s "BUY" then buy else sell

abbrev pub type_of : String → OrderType
type_of s = if str_eq s "MARKET" then market else limit

module _ (J : Type 0) ⦃j : Json J⦄ where
  unfoldable pub read_cancel : Reply → Outcome (Result Bool)
  unfolding is_success get_status
  read_cancel res =
      let answer = (do
        v ← j.parse res.response
        let closed = (do
          status ← text_field v "status"
          ok (success res.response (cancels (get_status status))))
        let error = error_of res.response v
        if j.contains v "status" then closed else error) in
      if is_success res then answer else ok (failure res.response res.errmsg)

  unfoldable pub read_listen_key : Reply → Outcome (Option String)
  unfolding is_success
  read_listen_key res =
      let answer = (do
        v ← j.parse res.response
        let key = (do k ← text_field v "listenKey"; ok (some k))
        if j.contains v "listenKey" then key else ok none) in
      if is_success res then answer else ok none

  unfoldable pub read_snapshot : Reply → Outcome (Result J)
  unfolding is_success
  read_snapshot res =
      let answer = (do v ← j.parse res.response; ok (success res.response v)) in
      if is_success res then answer else ok (failure res.response res.errmsg)

  unfoldable pub read_exchange_info : Reply → Outcome J
  unfolding is_success
  read_exchange_info res =
      let answer = j.parse res.response in if is_success res then answer else throws runtime_error

module _ {ℓ} (J : Type 0) {D : Type ℓ} ⦃j : Json J⦄ ⦃d : Double D⦄ where
  -- One entry of "balances": an asset that is not in the table is skipped, and one that is there
  -- stays.
  unfoldable pub add_entry : J → List (SymbolId × D) → Outcome (List (SymbolId × D))
  unfolding find emplace
  add_entry b balances = do
    asset_str ← text_field b "asset"
    elim (find asset_str binance_asset_map) [
      | none ↦ ok balances
      | some asset ↦ do
        free ← double_field b "free"
        locked ← double_field b "locked"
        ok (emplace asset (d.add free locked) balances)
    ]

  unfoldable pub add_entries : List J → List (SymbolId × D) → Outcome (List (SymbolId × D))
  unfolding add_entry
  add_entries [] balances = ok balances
  add_entries (b ∷ bs) balances = do m ← add_entry b balances; add_entries bs m

  unfoldable pub read_account_balance : Reply → Outcome (Result (AccountBalance D))
  unfolding is_success add_entries
  read_account_balance res =
      let answer = (do
        v ← j.parse res.response
        let error = error_of res.response v
        let balances = (do
          entries ← j.field v "balances"
          m ← add_entries (j.values entries) []
          ok (
              success res.response
                (record { asset_balance_map = m; locked_balance_map = []; exchange = "" })))
        if j.contains v "code" then error else balances) in
      if is_success res then answer else ok (failure res.response res.errmsg)

  unfoldable pub read_open_order : J → Outcome (Order D)
  unfolding from_binance_string get_status
  read_open_order v = do
    order_id ← int_field v "orderId"
    client_id_str ← text_field v "clientOrderId"
    symbol_str ← text_field v "symbol"
    side_str ← text_field v "side"
    order_type_str ← text_field v "type"
    orig_qty_str ← text_field v "origQty"
    price_str ← text_field v "price"
    status ← text_field v "status"
    time ← int_field v "time"
    qty ← or_throw (d.stod orig_qty_str) invalid_argument
    price ← or_throw (d.stod price_str) invalid_argument
    ok (record {
      id = int_to_string order_id;
      client_id = client_id_str;
      symbol_id = from_binance_string symbol_str;
      side = side_of side_str;
      order_type = type_of order_type_str;
      quantity = qty;
      price = price;
      status = get_status status;
      creation_time_us = to_unsigned time;
      executed_quantity = d.of_ℕ 0;
      total_cost = d.of_ℕ 0;
    })

  unfoldable pub read_open_orders : List J → Outcome (List (Order D))
  unfolding read_open_order
  read_open_orders [] = ok []
  read_open_orders (v ∷ vs) = do o ← read_open_order v; os ← read_open_orders vs; ok (o ∷ os)

  unfoldable pub read_open_orders_reply : Reply → Outcome (Result (List (Order D)))
  unfolding is_success read_open_orders
  read_open_orders_reply res =
      let answer = (do
        v ← j.parse res.response
        let error = error_of res.response v
        let orders = (do os ← read_open_orders (j.values v); ok (success res.response os))
        if j.contains v "code" then error else orders) in
      if is_success res then answer else ok (failure res.response res.errmsg)

module _ (J : Type 0) ⦃j : Json J⦄ (http : Request → Reply) (api_key : String) where
  -- `CancelOrder` looks up the pair, but does not send it.
  unfoldable pub cancel_order {ℓ} : {D : Type ℓ} → Order D → Outcome (Result Bool)
  unfolding get_symbol_string read_cancel signed_post query_param
  cancel_order o = do
    symbol_str ← get_symbol_string o.symbol_id
    read_cancel J
        (http (query_param "origClientOrderId" o.client_id (signed_post api_key "/api/v3/order")))

  unfoldable pub get_account_balance {ℓ} :
      (D : Type ℓ) ⦃d : Double D⦄ → Outcome (Result (AccountBalance D))
  unfolding read_account_balance signed_get
  get_account_balance D = read_account_balance J (http (signed_get api_key "/api/v3/account"))

  unfoldable pub get_open_orders {ℓ} :
      (D : Type ℓ) ⦃d : Double D⦄ → Outcome (Result (List (Order D)))
  unfolding read_open_orders_reply signed_get
  get_open_orders D = read_open_orders_reply J (http (signed_get api_key "/api/v3/openOrders"))

  unfoldable pub start_user_data_stream : Outcome (Option String)
  unfolding read_listen_key signed_post
  start_user_data_stream = read_listen_key J (http (signed_post api_key "/api/v3/userDataStream"))

  unfoldable pub get_order_book_snapshot : SymbolPairId → ℕ → Outcome (Result J)
  unfolding get_symbol_string read_snapshot query_param to_string
  get_order_book_snapshot symbol_pair_id depth_limit = do
    symbol_str ← get_symbol_string symbol_pair_id
    read_snapshot J (
        http (
          query_param "limit" (to_string depth_limit)
            (query_param "symbol" symbol_str (new_request host "443" "/api/v3/depth" get))))

  unfoldable pub get_exchange_info : Outcome J
  unfolding read_exchange_info
  get_exchange_info =
      read_exchange_info J (http (new_request host "443" "/api/v3/exchangeInfo" get))

module _ (http : Request → Reply) (api_key : String) where
  abbrev listen_key_request : Method → String → Request
  unfolding header query_param
  listen_key_request method listen_key =
      query_param "listenKey" listen_key
        (header "X-MBX-APIKEY" api_key (new_request host "443" "/api/v3/userDataStream" method))

  unfoldable pub keepalive_user_data_stream : String → Bool
  unfolding is_success listen_key_request
  keepalive_user_data_stream listen_key = is_success (http (listen_key_request put listen_key))

  unfoldable pub close_user_data_stream : String → Bool
  unfolding is_success listen_key_request
  close_user_data_stream listen_key = is_success (http (listen_key_request delete_ listen_key))

-- `SignData`: the query with a time stamp, a window and the signature of all of it. `hmac` is the
-- hexadecimal text of OpenSSL's HMAC with the secret of the client.
unfoldable pub sign_data : (String → String) → ℕ → ℕ → String → String
unfolding to_string
sign_data hmac timestamp timeout data0 =
    let joined = if str_eq data0 "" then data0 else str_append data0 "&" in
    let stamped = str_append (str_append joined "timestamp=") (to_string timestamp) in
    let data1 = str_append (str_append stamped "&recvWindow=") (to_string timeout) in
    str_append (str_append data1 "&signature=") (hmac data1)
