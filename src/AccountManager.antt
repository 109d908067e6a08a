-- ===== src/AccountManager.antt =====
-- exchange/account_manager_impl.cc and .h: the
-- balances and the open orders of one exchange. Each handler runs under `m_order_mutex`, so it is
-- one step of the state. A reply of the exchange client is an argument of the handler that asks
-- for it. A handler gives back the state, also where it leaves by an exception.
pub mod Updates
pub mod Requests
pub mod Locks
pub mod Invariant
pub mod Placing
pub mod RoundTrip
pub mod Totals
mod Tests
use crypto_bot.Prelude.{Bool, Option, none, some, String, List, Outcome, ok, throws, ◌>>=◌, Fault}
use crypto_bot.Symbol.{SymbolId, string_key, asset_eq_key}
use crypto_bot.Symbol.Pair.{get_base_asset, get_quote_asset}
use crypto_bot.Double.{Double}
use crypto_bot.Order.{Order, Side, sell, buy}
use crypto_bot.AccountBalance.{
  AccountBalance, get_total_balance, get_locked_balance, set_total_balance, set_locked_balance,
}

pub record AccountManager {ℓ} (D : Type ℓ) : Type ℓ where
  pub external_orders : List (String × Order D)
  pub our_orders : List (String × Order D)
  pub account_balance : AccountBalance D
  pub is_account_synced : Bool

module _ {ℓ} {D : Type ℓ} ⦃d : Double D⦄ where
  -- `AdjustLockedBalance`: a buy locks its cost in the quote asset, a sell its quantity in the
  -- base.
  abbrev pub adjust_side :
      Side → (D → D → D) → Order D → AccountBalance D → Outcome (AccountBalance D)
  adjust_side buy operation o b = do
    quote ← get_quote_asset o.symbol_id
    ok (
        set_locked_balance b quote
          (operation (get_locked_balance b quote) (d.mul o.quantity o.price)))
  adjust_side sell operation o b = do
    base ← get_base_asset o.symbol_id
    ok (set_locked_balance b base (operation (get_locked_balance b base) o.quantity))

  unfoldable pub adjust_locked_balance :
      (D → D → D) → Order D → AccountBalance D → Outcome (AccountBalance D)
  adjust_locked_balance operation o b = adjust_side o.side operation o b

  unfoldable pub add_locked_balance : Order D → AccountBalance D → Outcome (AccountBalance D)
  unfolding adjust_locked_balance
  add_locked_balance = adjust_locked_balance d.add

  unfoldable pub subtract_locked_balance : Order D → AccountBalance D → Outcome (AccountBalance D)
  unfolding adjust_locked_balance
  subtract_locked_balance = adjust_locked_balance d.sub

  abbrev pub move_totals :
      Side → Order D → SymbolId → SymbolId → AccountBalance D → AccountBalance D
  move_totals buy o base quote b =
      let b1 = set_total_balance b base (d.add (get_total_balance b base) o.executed_quantity) in
      set_total_balance b1 quote (d.sub (get_total_balance b1 quote) o.total_cost)
  move_totals sell o base quote b =
      let b1 = set_total_balance b base (d.sub (get_total_balance b base) o.executed_quantity) in
      set_total_balance b1 quote (d.add (get_total_balance b1 quote) o.total_cost)

  -- `AdjustBalanceClosedOrder`. All its look-ups of assets throw on the same pairs, so it throws
  -- before it changes anything.
  unfoldable pub adjust_balance_closed_order :
      Order D → AccountBalance D → Outcome (AccountBalance D)
  unfolding subtract_locked_balance
  adjust_balance_closed_order o b = do
    b1 ← subtract_locked_balance o b
    base ← get_base_asset o.symbol_id
    quote ← get_quote_asset o.symbol_id
    ok (move_totals o.side o base quote b1)

  -- The state after a step on the balance, or the exception with the state left as it is.
  abbrev pub with_balance :
      AccountManager D
      → Outcome (AccountBalance D)
      → (AccountManager D → AccountManager D)
      → AccountManager D × Option Fault
  with_balance am (ok b) finish = (finish (record am { account_balance = b }), none)
  with_balance am (throws e) finish = (am, some e)
