-- ===== src/AccountManager/Requests.antt =====
-- The requests of exchange/account_manager_impl.cc: orders sent, balances refreshed, open orders
-- read.
use crypto_bot.Prelude.{
  Bool, true, false, if◌then◌else◌, Option, none, some, String, List, [], ◌∷◌, Outcome, ok, throws,
  ◌>>=◌, runtime_error, Fault,
}
use crypto_bot.Symbol.{SymbolPairId, unknown, pair_eq, string_key, asset_eq_key}
use crypto_bot.Double.{Double}
use crypto_bot.Order.{Order, moved_from}
use crypto_bot.AccountBalance.{AccountBalance, update_total_balance, assign_balance}
use crypto_bot.AccountManager.{AccountManager, add_locked_balance, with_balance}
use crypto_bot.AccountManager.Updates.{store_our, handle_external_order}
use crypto_bot.Exchange.{Result, succeeded, get}

module _ {ℓ} {D : Type ℓ} ⦃d : Double D⦄ where
  unfoldable pub on_account_balance_update : AccountBalance D → AccountManager D → AccountManager D
  unfolding update_total_balance
  on_account_balance_update b am = record am {
    account_balance = update_total_balance am.account_balance b;
  }

  -- The part that `MarketOrder` and `LimitOrder` share: the order is moved into the map, and what
  -- is left of it locks the balance and is returned.
  abbrev pub placed :
      Result (Order D)
      → Order D
      → AccountManager D × Option Fault
      → AccountManager D × Outcome (Result (Order D))
  placed res o (am, none) = (am, ok (record res { result_object = some (moved_from o) }))
  placed res o (am, some e) = (am, throws e)

  abbrev pub register_order :
      Result (Order D)
      → Outcome (Order D)
      → AccountManager D
      → AccountManager D × Outcome (Result (Order D))
  register_order res (throws e) am = (am, throws e)
  register_order res (ok o) am = placed res o (
      with_balance (store_our o.id o am) (add_locked_balance o am.account_balance)
        (λ s. record s { is_account_synced = true }))

  unfoldable pub market_order :
      Result (Order D) → AccountManager D → AccountManager D × Outcome (Result (Order D))
  unfolding succeeded get add_locked_balance moved_from
  market_order res am =
      let am1 = record am { is_account_synced = false } in
      if succeeded res
      then register_order res (get res) am1
      else (record am1 { is_account_synced = true }, ok res)

  unfoldable pub limit_order :
      Result (Order D) → D → AccountManager D → AccountManager D × Outcome (Result (Order D))
  unfolding succeeded get add_locked_balance moved_from
  limit_order res price am =
      let am1 = record am { is_account_synced = false } in
      if succeeded res
      then register_order res (do o ← get res; ok (record o { price = price })) am1
      else (record am1 { is_account_synced = true }, ok res)

  -- The replay of `RefreshAccountBalance` over one map of orders.
  unfoldable pub replay :
      List (String × Order D) → AccountBalance D → AccountBalance D × Option Fault
  unfolding add_locked_balance
  replay [] b = (b, none)
  replay ((k, o) ∷ m) b = elim (add_locked_balance o b) [
    | ok b1 ↦ replay m b1
    | throws e ↦ (b, some e)
  ]

  abbrev pub replay_after :
      List (String × Order D) → AccountBalance D × Option Fault → AccountBalance D × Option Fault
  replay_after m (b, some e) = (b, some e)
  replay_after m (b, none) = replay m b

  abbrev pub refreshed :
      AccountManager D → AccountBalance D × Option Fault → AccountManager D × Option Fault
  refreshed am (b, some e) = (record am { account_balance = b }, some e)
  refreshed am (b, none) = (record am { account_balance = b; is_account_synced = true }, none)

  abbrev pub refresh_from :
      Outcome (AccountBalance D) → AccountManager D → AccountManager D × Option Fault
  refresh_from (throws e) am = (am, some e)
  refresh_from (ok b) am =
      refreshed am (
        replay_after am.our_orders
          (replay am.external_orders (assign_balance am.account_balance b)))

  -- A failed reply is not the end of it: its balance is read all the same.
  unfoldable pub refresh_account_balance :
      Result (AccountBalance D) → AccountManager D → AccountManager D × Option Fault
  unfolding succeeded get replay assign_balance
  refresh_account_balance res am =
      refresh_from (get res) (if succeeded res then am else record am { is_account_synced = false })

  -- The loop of `Initialize`.
  unfoldable pub handle_open_orders :
      List (Order D) → AccountManager D → AccountManager D × Option Fault
  unfolding handle_external_order
  handle_open_orders [] am = (am, none)
  handle_open_orders (o ∷ os) am =
      let (am1, fault) =
        if pair_eq o.symbol_id unknown then (am, none) else handle_external_order o am in
      elim fault [ none ↦ handle_open_orders os am1 | some e ↦ (am1, some e) ]

  abbrev pub initialize_from :
      Outcome (List (Order D)) → AccountManager D → AccountManager D × Option Fault
  initialize_from (throws e) am = (am, some e)
  initialize_from (ok os) am = handle_open_orders os am

  unfoldable pub initialize :
      Result (List (Order D)) → AccountManager D → AccountManager D × Option Fault
  unfolding succeeded get handle_open_orders
  initialize res am =
      if succeeded res
      then initialize_from (get res) (record am { external_orders = [] })
      else (am, some runtime_error)

  -- `HasOpenOrders`
  unfoldable pub has_open_orders : AccountManager D → Bool
  has_open_orders am = elim am.our_orders [ [] ↦ false | _ ∷ _ ↦ true ]

  unfoldable pub has_order_of : SymbolPairId → List (String × Order D) → Bool
  has_order_of pair [] = false
  has_order_of pair ((k, o) ∷ m) = if pair_eq o.symbol_id pair then true else has_order_of pair m

  unfoldable pub has_open_orders_of : SymbolPairId → AccountManager D → Bool
  unfolding has_order_of
  has_open_orders_of pair am = has_order_of pair am.our_orders
