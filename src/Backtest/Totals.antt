-- ===== src/Backtest/Totals.antt =====
-- What an execution of backtest/backtest_exchange_client.hpp does to the balances.
use crypto_bot.Prelude.{
  ◌≡◌, refl, sym, ap, ◌∙◌, inl, inr, Bool, true, false, if◌then◌else◌, ok, Bool-cases,
}
use crypto_bot.Prelude.Int.{ℤ, pos, ◌+ℤ◌, ◌-ℤ◌, int_laws}
use crypto_bot.Symbol.{SymbolId, asset_eq, asset_eq_iff}
use crypto_bot.Double.{exact}
use crypto_bot.Order.{Order, Side, buy, sell}
use crypto_bot.AccountBalance.{
  AccountBalance, get_total_balance, add_balance, get_total_balance-add_balance,
}
use crypto_bot.AccountManager.Totals.{gain}
use crypto_bot.Ticker.{Ticker}
use crypto_bot.Backtest.{Client}
use crypto_bot.Backtest.Execution.{
  assets, trade, market_price, market_cost, execute_market_order, limit_cost, fill_limit_order,
}

if_add :
    (b : AccountBalance ℤ) (a x : SymbolId) (v : ℤ)
    → get_total_balance (add_balance b a v) x
      ≡ get_total_balance b x +ℤ (if asset_eq a x then v else pos 0)
if_add b a x v = elim (Bool-cases (asset_eq a x)) [
  | inl e ↦
      get_total_balance-add_balance b a x v
      ∙ rw e (ap (λ y. get_total_balance b y +ℤ v) ((asset_eq_iff a x).0 e))
  | inr e ↦ get_total_balance-add_balance b a x v ∙ rw e (sym (add_zero (get_total_balance b x)))
]
  where
    add_zero : (a : ℤ) → a +ℤ pos 0 ≡ a
    add_zero a = omega int_laws

if_neg : (t : Bool) (v : ℤ) → (if t then pos 0 -ℤ v else pos 0) ≡ pos 0 -ℤ (if t then v else pos 0)
if_neg true v = refl
if_neg false v = omega int_laws

buy_sum : (t q c : ℤ) → t +ℤ (pos 0 -ℤ c) +ℤ q ≡ t +ℤ (q -ℤ c)
buy_sum t q c = omega int_laws

sell_sum : (t q c : ℤ) → t +ℤ c +ℤ (pos 0 -ℤ q) ≡ t +ℤ (c -ℤ q)
sell_sum t q c = omega int_laws

trade_totals :
    (s : Side) (base quote : SymbolId) (qty cost : ℤ) (b : AccountBalance ℤ) (x : SymbolId)
    → get_total_balance (trade s base quote qty cost b) x
      ≡ get_total_balance b x +ℤ gain s base quote qty cost x
unfolding trade
trade_totals sell base quote qty cost b x =
    if_add (add_balance b quote cost) base x (pos 0 -ℤ qty)
    ∙ rw (if_add b quote x cost, if_neg (asset_eq base x) qty)
        (sell_sum (get_total_balance b x) _ _)
trade_totals buy base quote qty cost b x =
    if_add (add_balance b quote (pos 0 -ℤ cost)) base x qty
    ∙ rw (if_add b quote x (pos 0 -ℤ cost), if_neg (asset_eq quote x) cost)
        (buy_sum (get_total_balance b x) _ _)

-- An execution, of a market order as of a limit order that crosses on arrival, moves the totals by
-- the order's quantity and by its cost at the ticker's price of that side, with slippage and fee:
-- the limit of the order has no part in it. This holds whether or not the log of the account's
-- value throws.
pub execute_market_order_totals :
    (o : Order ℤ) (t : Ticker ℤ) (c : Client ℤ) (base quote x : SymbolId)
    → assets t.symbol ≡ ok (base, quote)
    → get_total_balance (execute_market_order o t c).0.1.account_balance x
      ≡ get_total_balance c.account_balance x
        +ℤ gain o.side base quote o.quantity
            (market_cost o.side o.quantity (market_price o.side t) c.settings)
            x
unfolding execute_market_order
execute_market_order_totals o t c base quote x a = elim (Bool-cases c.has_user_data_listener) [
  | inl l ↦ rw (a, l) (trade_totals o.side base quote o.quantity _ c.account_balance x)
  | inr l ↦ rw (a, l) (trade_totals o.side base quote o.quantity _ c.account_balance x)
]

-- A resting limit order that is filled moves the totals by its quantity and by its cost at the
-- ticker's price of that side, with the fee and without slippage.
pub fill_limit_order_totals :
    (base quote x : SymbolId) (o : Order ℤ) (t : Ticker ℤ) (c : Client ℤ)
    → get_total_balance (fill_limit_order base quote o t c).account_balance x
      ≡ get_total_balance c.account_balance x
        +ℤ gain o.side base quote o.quantity (limit_cost o.side o.quantity t c.settings) x
unfolding fill_limit_order
fill_limit_order_totals base quote x o t c = elim (Bool-cases c.has_user_data_listener) [
  | inl l ↦ rw l (trade_totals o.side base quote o.quantity _ c.account_balance x)
  | inr l ↦ rw l (trade_totals o.side base quote o.quantity _ c.account_balance x)
]
