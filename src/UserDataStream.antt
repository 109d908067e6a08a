-- ===== src/UserDataStream.antt =====
-- websocket/binance_user_data_stream.hpp: the events of the account that Binance sends, and the key
-- under which they are listened to. The replies of the client, the time and what the memory of a
-- builder holds are arguments.
pub mod Reports
pub mod Keys
mod Tests
use Prim.Native.Char.{code}
use Prim.Native.String.{◌++◌ as str_append}
use text.Mathlib.Text.{◌==◌ as str_eq}
use crypto_bot.Prelude.{
  ℕ, zero, suc, ◌+◌, ◌-◌, ◌*◌, ◌%◌, ◌^◌, Bool, true, false, ◌&&◌, if◌then◌else◌, Option, none, some,
  String, List, [], ◌∷◌, Outcome, ok, throws, ◌>>=◌, ltb, leb, ◌==◌,
}
use crypto_bot.Assoc.{find, emplace}
use crypto_bot.Symbol.{SymbolId, string_key, asset_eq_key}
use crypto_bot.Symbol.Tables.{binance_asset_map}
use crypto_bot.Symbol.Pair.{from_binance_string}
use crypto_bot.Numerals.{to_string}
use crypto_bot.Double.{Double}
use crypto_bot.Json.{Json, text_field, uint_field, double_field}
use crypto_bot.Order.{Order, OrderType, market, limit, unknown_type, build, get_status}
use crypto_bot.AccountBalance.{AccountBalance}
use crypto_bot.BinanceClient.Account.{side_of}

-- `::toupper` in the locale of C, on the codes of a text.
abbrev to_upper : ℕ → ℕ
to_upper c = if leb 97 c && leb c 122 then c - 32 else c

abbrev upper : String → List ℕ
upper String.[] = []
upper (String.◌∷◌ c s) = to_upper (code c) ∷ upper s

abbrev same_codes : List ℕ → List ℕ → Bool
same_codes [] [] = true
same_codes (a ∷ xs) (b ∷ ys) = a == b && same_codes xs ys
same_codes _ _ = false

-- `Order::GetType`. The names of the table are in upper case.
unfoldable pub get_type : String → OrderType
get_type s =
    if same_codes (upper s) (upper "MARKET")
    then market
    else if same_codes (upper s) (upper "LIMIT")
    then limit
    else unknown_type

-- `BinanceUserDataStream`. The client is stateless but for its connection.
pub record UserDataStream : Type 0 where
  pub uri : String
  pub listen_key : String
  pub last_keepalive : ℕ

-- What the handlers call at the listener.
pub data Event {ℓ} (D : Type ℓ) : Type ℓ where
  connection_open connection_close : Event D
  account_balance_update : AccountBalance D → Event D
  order_update : Order D → Event D

abbrev pub keepalive_interval : ℕ
keepalive_interval = 1800 * 1000 * 1000

abbrev pub stream_uri : String → String
stream_uri key = str_append "wss://stream.binance.com:9443/ws/" key

-- The constructor, with the time of the clock.
abbrev pub new_stream : String → ℕ → UserDataStream
new_stream key now = record { uri = stream_uri key; listen_key = key; last_keepalive = now }

-- `OnPing`: the state, and the key that is kept alive if it is time. What it answers is not
-- defined, since the handler has no return statement.
unfoldable pub on_ping : ℕ → UserDataStream → UserDataStream × Option String
on_ping now s =
    if ltb keepalive_interval ((now + 2 ^ 64 - s.last_keepalive) % 2 ^ 64)
    then (record s { last_keepalive = now }, some s.listen_key)
    else (s, none)

-- What `StartUserDataStream` gives at its calls, the first one having the number 0.
abbrev pub Answers : Type 0
Answers = ℕ → Outcome (Option String)

-- The loop of `OnClose`, on a bound for its rounds: the key, and the number of the call that gave
-- it.
unfoldable pub ask_within : ℕ → Answers → ℕ → Option (Outcome (String × ℕ))
ask_within zero answers k = none
ask_within (suc fuel) answers k = elim (answers k) [
  | ok none ↦ ask_within fuel answers (k + 1)
  | ok (some key) ↦ some (ok (key, k))
  | throws x ↦ some (throws x)
]

abbrev pub with_key :
    UserDataStream → Option (Outcome (String × ℕ)) → Option (Outcome UserDataStream)
with_key s none = none
with_key s (some (throws x)) = some (throws x)
with_key s (some (ok (key, k))) = some (ok (record s { uri = stream_uri key }))

-- `OnClose`, behind the call of the listener.
unfoldable pub on_close : ℕ → Answers → UserDataStream → Option (Outcome UserDataStream)
unfolding ask_within
on_close fuel answers s = with_key s (ask_within fuel answers 0)

module _ {ℓ} (J : Type 0) {D : Type ℓ} ⦃j : Json J⦄ ⦃d : Double D⦄ where
  -- One entry of "B".
  unfoldable pub add_position : J → List (SymbolId × D) → Outcome (List (SymbolId × D))
  unfolding find emplace
  add_position b balances = do
    asset_str ← text_field b "a"
    elim (find asset_str binance_asset_map) [
      | none ↦ ok balances
      | some asset ↦ do
        free_balance ← double_field b "f"
        locked_balance ← double_field b "l"
        ok (emplace asset (d.add free_balance locked_balance) balances)
    ]

  unfoldable pub add_positions : List J → List (SymbolId × D) → Outcome (List (SymbolId × D))
  unfolding add_position
  add_positions [] balances = ok balances
  add_positions (b ∷ bs) balances = do m ← add_position b balances; add_positions bs m

  -- `HandleExecutionReport`. No time of creation is given to the builder, so it is what the memory
  -- holds.
  unfoldable pub handle_execution_report : ℕ → J → Outcome (Order D)
  unfolding to_string from_binance_string get_type get_status build
  handle_execution_report memory v = do
    id ← uint_field v "i"
    client_id ← text_field v "c"
    symbol ← text_field v "s"
    side ← text_field v "S"
    order_type ← text_field v "o"
    quantity ← double_field v "q"
    price ← double_field v "p"
    status ← text_field v "X"
    let order = build (record {
      id = to_string id;
      client_id = client_id;
      symbol_id = from_binance_string symbol;
      side = side_of side;
      order_type = get_type order_type;
      quantity = quantity;
      price = price;
      status = get_status status;
      creation_time_us = memory;
    })
    executed_quantity ← double_field v "z"
    total_cost ← double_field v "Z"
    ok (record order { executed_quantity = executed_quantity; total_cost = total_cost })

  abbrev pub on_event : ℕ → J → String → Outcome (List (Event D))
  unfolding add_positions handle_execution_report
  on_event memory v event_type =
      let position = (do
        entries ← j.field v "B"
        m ← add_positions (j.values entries) []
        ok (
            account_balance_update
              (record { asset_balance_map = m; locked_balance_map = []; exchange = "" })
            ∷ [])) in
      let report = (do o ← handle_execution_report memory v; ok (order_update o ∷ [])) in
      if str_eq event_type "outboundAccountPosition"
      then position
      else if str_eq event_type "executionReport"
      then report
      else ok []

  -- `OnMessage`, on the parsed message. The two events that are not supported and those that are
  -- not expected are logged.
  unfoldable pub on_message : ℕ → J → Outcome (List (Event D))
  unfolding on_event
  on_message memory v =
      let handled = (do
        event_type ← text_field v "e"
        event_ms ← uint_field v "E"
        on_event memory v event_type) in
      if j.contains v "e" then handled else ok []
