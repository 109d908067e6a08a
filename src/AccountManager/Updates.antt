-- ===== src/AccountManager/Updates.antt =====
-- `OnOrderUpdate`, `UpdateOurOrder` and `HandleExternalOrder` of exchange/account_manager_impl.cc.
use crypto_bot.Prelude.{if◌then◌else◌, Option, none, some, String, Fault}
use crypto_bot.Assoc.{find, insert_or_assign, emplace, erase}
use crypto_bot.Symbol.{unknown, pair_eq, string_key, asset_eq_key}
use crypto_bot.Double.{Double}
use crypto_bot.Order.{
  Order, OrderStatus, new, partially_filled, filled, canceled, pending_cancel, rejected, expired,
  unknown_status,
}
use crypto_bot.AccountManager.{
  AccountManager, add_locked_balance, subtract_locked_balance, adjust_balance_closed_order,
  with_balance,
}

module _ {ℓ} {D : Type ℓ} ⦃d : Double D⦄ where
  abbrev pub store_our : String → Order D → AccountManager D → AccountManager D
  store_our k o am = record am { our_orders = insert_or_assign k o am.our_orders }

  abbrev pub erase_our : String → AccountManager D → AccountManager D
  erase_our k am = record am { our_orders = erase k am.our_orders }

  -- `UpdateOurOrder`, by the status of the update. `o` is the stored order, under the key `k`, with
  -- its status set.
  abbrev pub update_by_status :
      OrderStatus → String → Order D → Order D → AccountManager D → AccountManager D × Option Fault
  update_by_status new k u o am = (store_our k u am, none)
  update_by_status partially_filled k u o am =
      (store_our k (record o { executed_quantity = u.executed_quantity }) am, none)
  update_by_status filled k u o am =
      let done = record o {
        executed_quantity = o.quantity;
        total_cost = d.mul o.quantity o.price;
      } in
      with_balance (store_our k done am) (adjust_balance_closed_order done am.account_balance)
        (erase_our done.id)
  update_by_status canceled k u o am =
      with_balance (store_our k o am) (subtract_locked_balance o am.account_balance)
        (erase_our o.id)
  update_by_status expired k u o am =
      with_balance (store_our k o am) (subtract_locked_balance o am.account_balance)
        (erase_our o.id)
  update_by_status pending_cancel k u o am = (store_our k o am, none)
  update_by_status rejected k u o am = (store_our k o am, none)
  update_by_status unknown_status k u o am = (store_our k o am, none)

  unfoldable pub update_our_order :
      Order D → Order D → AccountManager D → AccountManager D × Option Fault
  unfolding adjust_balance_closed_order subtract_locked_balance
  update_our_order u o am = update_by_status u.status u.id u (record o { status = u.status }) am

  -- `HandleExternalOrder`: a closing status is handled as a complete execution.
  abbrev pub close_external :
      Order D → Option (Order D) → AccountManager D → AccountManager D × Option Fault
  close_external u none am = (am, none)
  close_external u (some o) am =
      let done = record o {
        executed_quantity = u.quantity;
        total_cost = d.mul u.quantity u.price;
        status = u.status;
      } in
      with_balance (record am { external_orders = insert_or_assign u.id done am.external_orders })
        (adjust_balance_closed_order done am.account_balance)
        (λ s. record s { external_orders = erase u.id s.external_orders })

  abbrev pub open_external :
      Order D → Option (Order D) → AccountManager D → AccountManager D × Option Fault
  open_external u (some o) am = (am, none)
  open_external u none am =
      with_balance (record am { external_orders = emplace u.id u am.external_orders })
        (add_locked_balance u am.account_balance) (λ s. s)

  abbrev pub external_by_status :
      OrderStatus → Order D → Option (Order D) → AccountManager D → AccountManager D × Option Fault
  external_by_status new u found am = open_external u found am
  external_by_status filled u found am = close_external u found am
  external_by_status canceled u found am = close_external u found am
  external_by_status rejected u found am = close_external u found am
  external_by_status expired u found am = close_external u found am
  external_by_status pending_cancel u found am = (am, none)
  external_by_status partially_filled u found am = (am, none)
  external_by_status unknown_status u found am = (am, none)

  unfoldable pub handle_external_order :
      Order D → AccountManager D → AccountManager D × Option Fault
  unfolding adjust_balance_closed_order add_locked_balance
  handle_external_order u am = external_by_status u.status u (find u.id am.external_orders) am

  abbrev pub update_found :
      Option (Order D) → Order D → AccountManager D → AccountManager D × Option Fault
  update_found none u am = handle_external_order u am
  update_found (some o) u am = update_our_order u o am

  unfoldable pub on_order_update : Order D → AccountManager D → AccountManager D × Option Fault
  unfolding handle_external_order update_our_order
  on_order_update u am =
      if pair_eq u.symbol_id unknown
      then (am, none)
      else update_found (find u.id am.our_orders) u am
