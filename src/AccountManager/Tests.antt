-- ===== src/AccountManager/Tests.antt =====
-- Tests and witnesses for exchange/account_manager_impl.cc, on amounts that are integers.
use crypto_bot.Prelude.{◌≡◌, refl, true, false, none, some, String, [], ◌∷◌, bad_optional_access}
use crypto_bot.Prelude.Int.{ℤ, pos, ◌+ℤ◌, ◌*ℤ◌}
use crypto_bot.Assoc.{find}
use crypto_bot.Symbol.{
  SymbolId, btc_usdt, ada, bnb, btc, doge, dot, eth, eos, usdt, xlm, unknown_asset, string_key,
  asset_eq_key,
}
use crypto_bot.Double.{exact}
use crypto_bot.Exchange.{Result, succeeded, get}
use crypto_bot.Order.{Order, Side, buy, sell, limit, OrderStatus, new, canceled}
use crypto_bot.AccountBalance.{AccountBalance, get_locked_balance}
use crypto_bot.AccountManager.{AccountManager}
use crypto_bot.AccountManager.Updates.{on_order_update}
use crypto_bot.AccountManager.Requests.{limit_order, refresh_account_balance}
use crypto_bot.AccountManager.Locks.{total_lock, lock_of}
use crypto_bot.Symbol.Pair.{get_base_asset, get_quote_asset}
use crypto_bot.AccountManager.Invariant.{IsConsistent, on_order_update-IsConsistent}
use crypto_bot.AccountManager.Placing.{refresh_account_balance_locks}
use crypto_bot.AccountManager.RoundTrip.{limit_order_canceled}

abbrev order : String → Side → OrderStatus → Order ℤ
order id side status = record {
  id = id;
  client_id = "c1";
  symbol_id = btc_usdt;
  side = side;
  order_type = limit;
  quantity = pos 2;
  price = pos 30;
  status = status;
  creation_time_us = 0;
  executed_quantity = pos 0;
  total_cost = pos 0;
}

abbrev balance : AccountBalance ℤ
balance = record {
  asset_balance_map = (usdt, pos 1000) ∷ (btc, pos 5) ∷ [];
  locked_balance_map = (usdt, pos 60) ∷ (btc, pos 2) ∷ [];
  exchange = "binance";
}

-- A buy of ours and a sale of another program are open.
abbrev manager : AccountManager ℤ
manager = record {
  external_orders = ("7", order "7" sell new) ∷ [];
  our_orders = ("1", order "1" buy new) ∷ [];
  account_balance = balance;
  is_account_synced = true;
}

abbrev no_locks : SymbolId → ℤ
no_locks x = pos 0

manager_balanced :
    (x : SymbolId)
    → get_locked_balance balance x
      ≡ no_locks x +ℤ total_lock manager.our_orders x +ℤ total_lock manager.external_orders x
unfolding total_lock get_locked_balance find get_base_asset get_quote_asset lock_of ◌+ℤ◌ ◌*ℤ◌
manager_balanced ada = refl
manager_balanced bnb = refl
manager_balanced btc = refl
manager_balanced doge = refl
manager_balanced dot = refl
manager_balanced eth = refl
manager_balanced eos = refl
manager_balanced usdt = refl
manager_balanced xlm = refl
manager_balanced unknown_asset = refl

manager-IsConsistent : IsConsistent no_locks manager
manager-IsConsistent = record { our_keyed = (refl, tt); balanced = manager_balanced }

abbrev reply : Result (Order ℤ)
reply = record { raw_response = "{}"; error_msg = ""; result_object = some (order "2" buy new) }

abbrev balance_reply : Result (AccountBalance ℤ)
balance_reply = record {
  raw_response = "{}";
  error_msg = "";
  result_object = some (record balance { locked_balance_map = [] });
}

abbrev failed_reply : Result (AccountBalance ℤ)
failed_reply = record { raw_response = ""; error_msg = "timeout"; result_object = none }

-- After the order of ours is cancelled, the locked amounts are those of the external order.
on_order_update-IsConsistent_example :
    IsConsistent no_locks (on_order_update (order "1" buy canceled) manager).0
on_order_update-IsConsistent_example =
    on_order_update-IsConsistent no_locks manager manager-IsConsistent (order "1" buy canceled)
      (λ p e f. absurd cc)

refresh_account_balance_locks_example :
    let after = (refresh_account_balance balance_reply manager).0 in
    (after.is_account_synced ≡ true)
    × ((x : SymbolId)
        → get_locked_balance after.account_balance x
          ≡ get_locked_balance (record balance { locked_balance_map = [] }) x
            +ℤ total_lock manager.our_orders x
            +ℤ total_lock manager.external_orders x)
unfolding refresh_account_balance find get_base_asset get_quote_asset
refresh_account_balance_locks_example =
    refresh_account_balance_locks manager (refresh_account_balance balance_reply manager).0
      balance_reply (record balance { locked_balance_map = [] }) refl refl refl

-- A failed reply has no balance, which is read all the same.
failed_refresh :
    refresh_account_balance failed_reply manager
    ≡ (record manager { is_account_synced = false }, some bad_optional_access)
unfolding refresh_account_balance
failed_refresh = refl

abbrev canceled_2 : Order ℤ
canceled_2 = record (order "2" buy canceled) { quantity = pos 77 }

limit_order_canceled_example :
    let (after, fault) = on_order_update canceled_2 (limit_order reply (pos 29) manager).0 in
    (fault ≡ none)
    × (after.our_orders ≡ manager.our_orders)
    × (after.external_orders ≡ manager.external_orders)
    × ((x : SymbolId) → get_locked_balance after.account_balance x ≡ get_locked_balance balance x)
    × (after.account_balance.asset_balance_map ≡ balance.asset_balance_map)
unfolding succeeded get find
limit_order_canceled_example =
    limit_order_canceled manager reply (order "2" buy new) canceled_2 (pos 29) refl refl (λ e. cc)
      refl refl refl refl
