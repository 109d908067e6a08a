-- ===== src/Backtest/Execution.antt =====
-- The handlers of tickers in backtest/backtest_exchange_client.hpp. A handler gives back the state,
-- also where it leaves by an exception.
use text.Mathlib.Text.{◌==◌ as str_eq}
use crypto_bot.Prelude.{
  Bool, true, false, ◌&&◌, if◌then◌else◌, Option, none, some, List, [], ◌∷◌, ◌++◌, Outcome, ok,
  throws, ◌>>=◌, or_throw, out_of_range, Fault,
}
use crypto_bot.Assoc.{find, insert_or_assign}
use crypto_bot.Symbol.{SymbolPairId, SymbolId, usdt, pair_eq, asset_eq, pair_eq_key}
use crypto_bot.Symbol.Pair.{get_base_asset, get_quote_asset, get_symbol_pair}
use crypto_bot.Double.{Double}
use crypto_bot.Order.{Order, Side, sell, buy, filled}
use crypto_bot.AccountBalance.{AccountBalance, add_balance}
use crypto_bot.Ticker.{Ticker}
use crypto_bot.Backtest.{
  Client, OrderRequest, Notice, order_update, account_balance_update, BacktestSettings,
}

abbrev pub assets : SymbolPairId → Outcome (SymbolId × SymbolId)
assets pair = do base ← get_base_asset pair; quote ← get_quote_asset pair; ok (base, quote)

module _ {ℓ} {D : Type ℓ} ⦃d : Double D⦄ where
  -- The loop of `GetAccountValue`.
  unfoldable pub add_values :
      SymbolId → List (SymbolPairId × Ticker D) → D → List (SymbolId × D) → Outcome D
  unfolding find
  add_values quote tickers res [] = ok res
  add_values quote tickers res ((asset, qty) ∷ m) = do
    sum ← if asset_eq asset quote then ok (d.add res qty) else (do
      pair ← get_symbol_pair asset quote
      ticker ← or_throw (find pair tickers) out_of_range
      ok (d.add res (d.mul ticker.bid qty)))
    add_values quote tickers sum m

  unfoldable pub get_account_value : SymbolId → Client D → Outcome D
  unfolding add_values
  get_account_value quote c =
      add_values quote c.tickers (d.of_ℕ 0) c.account_balance.asset_balance_map

  abbrev pub notify : Notice D → Client D → Client D
  notify n c = record c { notices = n ∷ c.notices }

  -- The statement that logs the account's value computes it, and throws where that throws.
  unfoldable pub log_value : Client D → Option Fault
  unfolding get_account_value
  log_value c = elim (get_account_value usdt c) [ ok v ↦ none | throws e ↦ some e ]

  -- A trade at a price: the amount of the quote asset, and the balance that it leaves.
  abbrev pub market_price : Side → Ticker D → D
  market_price sell t = t.bid
  market_price buy t = t.ask

  abbrev pub market_cost : Side → D → D → BacktestSettings D → D
  market_cost sell qty price s =
      d.mul (d.mul qty (d.sub price s.slippage)) (d.sub (d.lit 10 1) s.fee)
  market_cost buy qty price s =
      d.mul (d.mul qty (d.add price s.slippage)) (d.add (d.lit 10 1) s.fee)

  unfoldable pub trade : Side → SymbolId → SymbolId → D → D → AccountBalance D → AccountBalance D
  unfolding add_balance
  trade sell base quote qty cost b = add_balance (add_balance b quote cost) base (d.neg qty)
  trade buy base quote qty cost b = add_balance (add_balance b quote (d.neg cost)) base qty

  -- What the user data listener is told, if there is one, and then the balance listener.
  abbrev pub told : Order D → Client D → Client D
  told o c =
      let c1 = if c.has_user_data_listener then notify (order_update o) c else c in
      notify (account_balance_update c1.account_balance) c1

  unfoldable pub executed :
      Outcome (SymbolId × SymbolId)
      → Order D
      → Ticker D
      → Client D
      → (Order D × Client D) × Option Fault
  unfolding trade log_value
  executed (throws e) o t c = ((o, c), some e)
  executed (ok (base, quote)) o t c =
      let price = market_price o.side t in
      let cost = market_cost o.side o.quantity price c.settings in
      let done : Order D = record o {
        price = price;
        total_cost = cost;
        executed_quantity = o.quantity;
        status = filled;
      } in
      let c1 : Client D = record c {
        account_balance = trade o.side base quote o.quantity cost c.account_balance;
      } in
      let c2 = told done c1 in ((if c.has_user_data_listener then done else o, c2), log_value c2)

  -- `ExecuteMarketOrder` changes the order in its place, so the order is given back too.
  unfoldable pub execute_market_order :
      Order D → Ticker D → Client D → (Order D × Client D) × Option Fault
  unfolding executed
  execute_market_order o t c = executed (assets t.symbol) o t c

  abbrev pub keep {κ} :
      {A : Type κ} → A → (List A × Client D) × Option Fault → (List A × Client D) × Option Fault
  keep x ((xs, c), fault) = ((x ∷ xs, c), fault)

  abbrev pub is_due : OrderRequest D → Ticker D → Client D → Bool
  is_due r t c =
      d.lt
        (d.add (d.add r.creation_timestamp_us (d.mul (d.of_ℕ 2) c.settings.network_latency_us))
          c.settings.execution_delay_us)
        (d.of_ℕ t.arrived_ts)

  -- The ticker at which a pending market order is executed: the one before `t`.
  unfoldable pub market_ticker : Ticker D → OrderRequest D → Client D → Option (Ticker D)
  unfolding find
  market_ticker t r c =
      if pair_eq r.order.symbol_id t.symbol && is_due r t c then find t.symbol c.tickers else none

  unfoldable pub market_loop :
      Ticker D
      → List (OrderRequest D)
      → Client D
      → (List (OrderRequest D) × Client D) × Option Fault
  unfolding market_ticker execute_market_order
  market_loop t [] c = (([], c), none)
  market_loop t (r ∷ rs) c = elim (market_ticker t r c) [
    | none ↦ keep r (market_loop t rs c)
    | some u ↦
        let ((o, c1), fault) = execute_market_order r.order u c in
        elim fault [
          | none ↦ market_loop t rs c1
          | some e ↦ ((record r { order = o } ∷ rs, c1), some e)
        ]
  ]

  unfoldable pub handle_pending_market_orders : Ticker D → Client D → Client D × Option Fault
  unfolding market_loop
  handle_pending_market_orders t c =
      let ((rs, c1), fault) = market_loop t c.pending_market_orders c in
      (record c1 { pending_market_orders = rs }, fault)

  -- The middle price has reached the price of a limit order.
  abbrev pub crosses : Side → D → D → Bool
  crosses sell price mid_price = d.le price mid_price
  crosses buy price mid_price = d.le mid_price price

  abbrev pub mid_price : Ticker D → D
  mid_price t = d.div (d.add t.bid t.ask) (d.lit 20 1)

  -- A limit order that crosses is executed at the prices of the ticker: the ticker with the limit's
  -- price that the code makes is not used.
  unfoldable pub limit_loop :
      Ticker D
      → List (OrderRequest D)
      → Client D
      → (List (OrderRequest D) × Client D) × Option Fault
  unfolding execute_market_order
  limit_loop t [] c = (([], c), none)
  limit_loop t (r ∷ rs) c = elim (pair_eq r.order.symbol_id t.symbol && is_due r t c) [
    | false ↦ keep r (limit_loop t rs c)
    | true ↦ elim (crosses r.order.side r.order.price (mid_price t)) [
      | false ↦ limit_loop t rs (record c { limit_orders = c.limit_orders ++ (r.order ∷ []) })
      | true ↦
          let ((o, c1), fault) = execute_market_order r.order t c in
          elim fault [
            | none ↦ limit_loop t rs c1
            | some e ↦ ((record r { order = o } ∷ rs, c1), some e)
          ]
    ]
  ]

  unfoldable pub handle_pending_limit_orders : Ticker D → Client D → Client D × Option Fault
  unfolding limit_loop
  handle_pending_limit_orders t c =
      let ((rs, c1), fault) = limit_loop t c.pending_limit_orders c in
      (record c1 { pending_limit_orders = rs }, fault)

  -- A resting order is filled when the opposite best price reaches it, at that best price.
  abbrev pub reaches : Side → D → Ticker D → Bool
  reaches sell price t = d.le price t.bid
  reaches buy price t = d.le t.ask price

  abbrev pub is_filled : Ticker D → Order D → Bool
  is_filled t o = pair_eq o.symbol_id t.symbol && reaches o.side o.price t

  abbrev pub limit_cost : Side → D → Ticker D → BacktestSettings D → D
  limit_cost sell qty t s = d.mul (d.mul t.bid qty) (d.sub (d.lit 10 1) s.fee)
  limit_cost buy qty t s = d.mul (d.mul t.ask qty) (d.add (d.lit 10 1) s.fee)

  unfoldable pub fill_limit_order : SymbolId → SymbolId → Order D → Ticker D → Client D → Client D
  unfolding trade
  fill_limit_order base quote o t c =
      let cost = limit_cost o.side o.quantity t c.settings in
      told (record o { total_cost = cost; executed_quantity = o.quantity; status = filled })
        (record c { account_balance = trade o.side base quote o.quantity cost c.account_balance })

  -- The loop of `HandleLimitOrders`. It erases an order without stepping back, so it passes over
  -- the order behind one that it erases: `skip` is true there.
  unfoldable pub resting_loop :
      SymbolId
      → SymbolId
      → Ticker D
      → Bool
      → List (Order D)
      → Client D
      → (List (Order D) × Client D) × Option Fault
  unfolding fill_limit_order log_value
  resting_loop base quote t skip [] c = (([], c), none)
  resting_loop base quote t true (o ∷ os) c = keep o (resting_loop base quote t false os c)
  resting_loop base quote t false (o ∷ os) c = elim (is_filled t o) [
    | false ↦ keep o (resting_loop base quote t false os c)
    | true ↦
        let c1 = fill_limit_order base quote o t c in
        elim (log_value c1) [
          | none ↦ resting_loop base quote t true os c1
          | some e ↦ ((os, c1), some e)
        ]
  ]

  unfoldable pub resting_from :
      Outcome (SymbolId × SymbolId) → Ticker D → Client D → Client D × Option Fault
  unfolding resting_loop
  resting_from (throws e) t c = (c, some e)
  resting_from (ok (base, quote)) t c =
      let ((os, c1), fault) = resting_loop base quote t false c.limit_orders c in
      (record c1 { limit_orders = os }, fault)

  unfoldable pub handle_limit_orders : Ticker D → Client D → Client D × Option Fault
  unfolding resting_from
  handle_limit_orders t c = resting_from (assets t.symbol) t c

  abbrev pub and_then :
      Client D × Option Fault → (Client D → Client D × Option Fault) → Client D × Option Fault
  and_then (c, some e) f = (c, some e)
  and_then (c, none) f = f c

  unfoldable pub on_book_ticker : Ticker D → Client D → Client D × Option Fault
  unfolding handle_pending_market_orders handle_pending_limit_orders handle_limit_orders
      insert_or_assign
  on_book_ticker t c =
      let c0 : Client D = record c { update_timestamp_us = t.arrived_ts } in
      if str_eq c.settings.exchange t.exchange
      then and_then
          (and_then (and_then (handle_pending_market_orders t c0) (handle_pending_limit_orders t))
            (handle_limit_orders t))
          (λ c1. (record c1 { tickers = insert_or_assign t.symbol t c1.tickers }, none))
      else (c0, none)
