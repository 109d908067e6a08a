-- ===== src/Backtest.antt =====
-- backtest/backtest_exchange_client.hpp: a simulated exchange with its account. This file has the
-- state and the requests of a client; the children have the handlers of tickers and what is proved.
--
-- The listeners are other objects: the calls to them are recorded, the last one first. A listener
-- that sends an order from within such a call is not modelled.
pub mod Execution
pub mod Cancel
pub mod Conservation
pub mod Totals
mod Tests
use crypto_bot.Prelude.{
  ℕ, ◌+◌, ◌%◌, ◌^◌, Bool, true, false, if◌then◌else◌, Option, none, some, String, List, [], ◌∷◌,
  ◌++◌, Outcome, ok, throws, ◌>>=◌, out_of_range, runtime_error, not,
}
use crypto_bot.Symbol.{SymbolPairId, SymbolId, pair_eq}
use crypto_bot.Symbol.Pair.{get_base_asset, get_quote_asset}
use crypto_bot.Double.{Double}
use crypto_bot.Numerals.{to_string}
use crypto_bot.Exchange.{Result, success, failure}
use crypto_bot.Order.{
  Order, Builder, Side, sell, buy, OrderType, market, limit, unknown_type, new, build, moved_from,
  order_eq,
}
use crypto_bot.AccountBalance.{AccountBalance, get_free_balance, copy_balance}
use crypto_bot.Ticker.{Ticker}

pub record BacktestSettings {ℓ} (D : Type ℓ) : Type ℓ where
  pub exchange : String
  pub fee : D
  pub slippage : D
  pub network_latency_us : D
  pub execution_delay_us : D
  pub initial_balances : List (SymbolId × D)

pub record OrderRequest {ℓ} (D : Type ℓ) : Type ℓ where
  pub order : Order D
  pub creation_timestamp_us : D

-- A call to one of the two listeners.
pub data Notice {ℓ} (D : Type ℓ) : Type ℓ where
  order_update : Order D → Notice D
  account_balance_update : AccountBalance D → Notice D

pub record Client {ℓ} (D : Type ℓ) : Type ℓ where
  pub settings : BacktestSettings D
  pub account_balance : AccountBalance D
  pub pending_market_orders : List (OrderRequest D)
  pub pending_limit_orders : List (OrderRequest D)
  pub limit_orders : List (Order D)
  pub update_timestamp_us : ℕ
  pub tickers : List (SymbolPairId × Ticker D)
  pub has_user_data_listener : Bool
  pub last_order_id : ℕ
  pub notices : List (Notice D)

module _ {ℓ} {D : Type ℓ} ⦃d : Double D⦄ where
  -- The constructor.
  unfoldable pub new_client : BacktestSettings D → Client D
  new_client settings = record {
    settings = settings;
    account_balance = record {
      asset_balance_map = settings.initial_balances;
      locked_balance_map = [];
      exchange = settings.exchange;
    };
    pending_market_orders = [];
    pending_limit_orders = [];
    limit_orders = [];
    update_timestamp_us = 0;
    tickers = [];
    has_user_data_listener = false;
    last_order_id = 0;
    notices = [];
  }

  abbrev pub next_id : Client D → ℕ
  next_id c = (c.last_order_id + 1) % 2 ^ 64

  -- `memory` is what the builder's memory holds in the members that are not set.
  unfoldable pub market_order :
      Builder D → SymbolPairId → Side → D → Client D → Client D × Result (Order D)
  unfolding to_string build
  market_order memory symbol side qty c =
      let id = to_string (next_id c) in
      let order = build (record memory {
        id = id;
        client_id = id;
        symbol_id = symbol;
        side = side;
        order_type = market;
        quantity = qty;
      }) in
      let request : OrderRequest D = record {
        order = order;
        creation_timestamp_us = d.of_ℕ c.update_timestamp_us;
      } in
      (
        record c {
          last_order_id = next_id c;
          pending_market_orders = c.pending_market_orders ++ (request ∷ []);
        },
        success "" order,
      )

  -- `CanExecuteOrder`
  unfoldable pub has_funds : Side → Order D → Client D → Outcome Bool
  unfolding get_free_balance
  has_funds sell o c = do
    base ← get_base_asset o.symbol_id
    ok (not (d.lt (get_free_balance c.account_balance base) o.quantity))
  has_funds buy o c = do
    quote ← get_quote_asset o.symbol_id
    ok (not (d.lt (get_free_balance c.account_balance quote) (d.mul o.quantity o.price)))

  unfoldable pub can_execute_order : Order D → Client D → Outcome Bool
  unfolding has_funds
  can_execute_order o c = has_funds o.side o c

  unfoldable pub add_checked :
      Outcome Bool → Order D → Client D → Client D × Outcome (Result (Order D))
  unfolding moved_from
  add_checked (throws e) o c = (c, throws e)
  add_checked (ok false) o c = (c, ok (failure "" "Insufficient funds"))
  add_checked (ok true) o c =
      let order : Order D = record o { status = new } in
      let request : OrderRequest D = record {
        order = order;
        creation_timestamp_us = d.of_ℕ c.update_timestamp_us;
      } in
      (
        record c { pending_limit_orders = c.pending_limit_orders ++ (request ∷ []) },
        ok (success "" (moved_from order)),
      )

  unfoldable pub add_limit_order : Order D → Client D → Client D × Outcome (Result (Order D))
  unfolding can_execute_order add_checked
  add_limit_order o c = add_checked (can_execute_order o c) o c

  unfoldable pub limit_order :
      Builder D → SymbolPairId → Side → D → D → Client D → Client D × Outcome (Result (Order D))
  unfolding to_string build add_limit_order
  limit_order memory symbol side qty price c =
      let id = to_string (next_id c) in
      let order = build (record memory {
        id = id;
        client_id = id;
        symbol_id = symbol;
        side = side;
        order_type = limit;
        quantity = qty;
        price = price;
      }) in
      add_limit_order order (record c { last_order_id = next_id c })

  unfoldable pub send_as :
      OrderType → Builder D → Order D → Client D → Client D × Outcome (Result (Order D))
  unfolding add_limit_order market_order
  send_as limit memory o c = add_limit_order o c
  send_as market memory o c =
      let (after, res) = market_order memory o.symbol_id o.side o.quantity c in (after, ok res)
  send_as unknown_type memory o c = (c, throws runtime_error)

  unfoldable pub send_order : Builder D → Order D → Client D → Client D × Outcome (Result (Order D))
  unfolding send_as
  send_order memory o c = send_as o.order_type memory o c

  -- The orders without the first one that is equal to an order.
  unfoldable pub remove_order : Order D → List (Order D) → Option (List (Order D))
  unfolding order_eq
  remove_order o [] = none
  remove_order o (p ∷ ps) =
      let rest = remove_order o ps in
      if order_eq o p then some ps else (elim rest [ none ↦ none | some qs ↦ some (p ∷ qs) ])

  abbrev pub canceled_from : Option (List (Order D)) → Client D → Client D × Outcome (Result Bool)
  canceled_from none c = (c, throws out_of_range)
  canceled_from (some os) c =
      (record c { limit_orders = os }, ok (success "Success canceling order" true))

  -- The condition of the loop in `CancelOrder` is `m_limit_orders.size()`, without `i`, so `at`
  -- throws behind the last order. The text "No such order" converts to `bool` rather than to a
  -- string: the result that it makes is a success.
  unfoldable pub cancel_order : Order D → Client D → Client D × Outcome (Result Bool)
  unfolding remove_order
  cancel_order o c = elim c.limit_orders [
    | [] ↦ (c, ok (success "Failed canceling order" true))
    | p ∷ ps ↦ canceled_from (remove_order o (p ∷ ps)) c
  ]

  unfoldable pub get_open_orders : Client D → Result (List (Order D))
  get_open_orders c = success "" c.limit_orders

  unfoldable pub get_account_balance : Client D → Result (AccountBalance D)
  unfolding copy_balance
  get_account_balance c = success "" (copy_balance c.account_balance)

  unfoldable pub has_open_orders : Client D → Bool
  has_open_orders c = elim c.limit_orders [ [] ↦ false | _ ∷ _ ↦ true ]

  unfoldable pub has_order_of : SymbolPairId → List (Order D) → Bool
  has_order_of pair [] = false
  has_order_of pair (o ∷ os) =
      let rest = has_order_of pair os in if pair_eq pair o.symbol_id then true else rest

  unfoldable pub has_open_orders_of : SymbolPairId → Client D → Bool
  unfolding has_order_of
  has_open_orders_of pair c = has_order_of pair c.limit_orders
