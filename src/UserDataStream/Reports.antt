-- ===== src/UserDataStream/Reports.antt =====
-- What websocket/binance_user_data_stream.hpp makes of an execution report, and what
-- exchange/account_manager_impl.cc does with it.
use crypto_bot.Prelude.{
  ℕ, ◌≡◌, ◌≢◌, refl, ap, true, false, Option, none, some, String, List, [], ◌∷◌, ok, Fault,
}
use crypto_bot.Prelude.Int.{ℤ}
use crypto_bot.Assoc.{find}
use crypto_bot.Symbol.{SymbolId, unknown, pair_eq, string_key}
use crypto_bot.Symbol.Pair.{from_binance_string}
use crypto_bot.Numerals.{to_string}
use crypto_bot.Double.{Double, exact}
use crypto_bot.Json.{Json, text_field, uint_field, double_field}
use crypto_bot.Order.{Order, get_status}
use crypto_bot.AccountBalance.{get_locked_balance}
use crypto_bot.Exchange.{Result, succeeded, get}
use crypto_bot.AccountManager.{AccountManager}
use crypto_bot.AccountManager.Requests
use crypto_bot.AccountManager.Updates
use crypto_bot.AccountManager.RoundTrip.{limit_order_canceled}
use crypto_bot.BinanceClient.Account.{side_of}
use crypto_bot.UserDataStream.{
  Event, connection_open, connection_close, account_balance_update, order_update, get_type,
  handle_execution_report, on_message,
}

-- The fields of an execution report.
pub record Report {ℓ} (D : Type ℓ) : Type ℓ where
  pub event_ms : ℕ
  pub id : ℕ
  pub client_id : String
  pub symbol : String
  pub side : String
  pub order_type : String
  pub quantity : D
  pub price : D
  pub status : String
  pub executed : D
  pub cost : D

-- The order that a report is about.
abbrev pub order_of {ℓ} : {D : Type ℓ} → ℕ → Report D → Order D
unfolding from_binance_string get_type get_status
order_of memory r = record {
  id = to_string r.id;
  client_id = r.client_id;
  symbol_id = from_binance_string r.symbol;
  side = side_of r.side;
  order_type = get_type r.order_type;
  quantity = r.quantity;
  price = r.price;
  status = get_status r.status;
  creation_time_us = memory;
  executed_quantity = r.executed;
  total_cost = r.cost;
}

-- The account manager as the listener of the events, up to the first exception.
module _ {ℓ} {D : Type ℓ} ⦃d : Double D⦄ where
  abbrev pub after_event : Event D → AccountManager D → AccountManager D × Option Fault
  after_event (order_update o) am = Updates.on_order_update o am
  after_event (account_balance_update b) am = (Requests.on_account_balance_update b am, none)
  after_event connection_open am = (am, none)
  after_event connection_close am = (am, none)

  unfoldable pub deliver : List (Event D) → AccountManager D → AccountManager D × Option Fault
  deliver [] am = (am, none)
  deliver (e ∷ es) am =
      let (am1, fault) = after_event e am in
      let rest = deliver es am1 in elim fault [ none ↦ rest | some x ↦ (am1, some x) ]

  deliver-order_update :
      (o : Order D) (am : AccountManager D)
      → deliver (order_update o ∷ []) am ≡ Updates.on_order_update o am
  unfolding deliver
  deliver-order_update o am = paired (Updates.on_order_update o am)
    where
      paired :
          (r : AccountManager D × Option Fault)
          → (elim r.1 [ none ↦ (r.0, none) | some x ↦ (r.0, some x) ]) ≡ r
      paired (am1, none) = refl
      paired (am1, some x) = refl

module _ {ℓ} {J : Type 0} {D : Type ℓ} ⦃j : Json J⦄ ⦃d : Double D⦄ where
  -- A message is an execution report with these fields.
  pub record IsReport (v : J) (r : Report D) : Type ℓ where
    pub has_event : j.contains v "e" ≡ true
    pub event : text_field v "e" ≡ ok "executionReport"
    pub event_ms : uint_field v "E" ≡ ok r.event_ms
    pub id : uint_field v "i" ≡ ok r.id
    pub client_id : text_field v "c" ≡ ok r.client_id
    pub symbol : text_field v "s" ≡ ok r.symbol
    pub side : text_field v "S" ≡ ok r.side
    pub order_type : text_field v "o" ≡ ok r.order_type
    pub quantity : double_field v "q" ≡ ok r.quantity
    pub price : double_field v "p" ≡ ok r.price
    pub status : text_field v "X" ≡ ok r.status
    pub executed : double_field v "z" ≡ ok r.executed
    pub cost : double_field v "Z" ≡ ok r.cost

  on_message-IsReport :
      (memory : ℕ) (v : J) (r : Report D)
      → IsReport v r
      → on_message J memory v ≡ ok (order_update (order_of memory r) ∷ [])
  unfolding on_message handle_execution_report
  on_message-IsReport memory v r h =
      rw
        (
          h.has_event, h.event, h.event_ms, h.id, h.client_id, h.symbol, h.side, h.order_type,
          h.quantity, h.price, h.status, h.executed, h.cost,
        )
        refl

-- The exchange has accepted a limit order for a known pair, under an id that is new, and an
-- execution report on a known pair says that the order with the id has been cancelled. After
-- `OnMessage` has read the report and the account manager has handled it, its orders, the locked
-- amount of every asset and the totals are as they were before the order was placed.
pub on_message-canceled :
    {J : Type 0} ⦃j : Json J⦄ (memory : ℕ) (v : J) (r : Report ℤ)
    → IsReport v r
    → r.status ≡ "CANCELED"
    → pair_eq (from_binance_string r.symbol) unknown ≡ false
    → (am : AccountManager ℤ) (res : Result (Order ℤ)) (o : Order ℤ) (price : ℤ)
    → succeeded res ≡ true
    → get res ≡ ok o
    → o.symbol_id ≢ unknown
    → find o.id am.our_orders ≡ none
    → to_string r.id ≡ o.id
    → (events : List (Event ℤ)) × (on_message J memory v ≡ ok events)
      × (let after = deliver events (Requests.limit_order res price am).0 in
          (after.1 ≡ none)
          × (after.0.our_orders ≡ am.our_orders)
          × (after.0.external_orders ≡ am.external_orders)
          × ((x : SymbolId)
              → get_locked_balance after.0.account_balance x
                ≡ get_locked_balance am.account_balance x)
          × (after.0.account_balance.asset_balance_map ≡ am.account_balance.asset_balance_map))
unfolding get_status order_of
on_message-canceled memory v r h c k am res o price s g n f i = (
  order_update (order_of memory r) ∷ [],
  on_message-IsReport memory v r h,
  rw (deliver-order_update (order_of memory r) (Requests.limit_order res price am).0)
      (limit_order_canceled am res o (order_of memory r) price s g n f i (ap get_status c) k),
)
