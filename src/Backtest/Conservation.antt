-- ===== src/Backtest/Conservation.antt =====
-- The orders of backtest/backtest_exchange_client.hpp, counted through a ticker.
use crypto_bot.Prelude.{
  ℕ, suc, ◌+◌, ◌*◌, ◌≤◌, ◌≡◌, inl, inr, Bool, true, false, Option, none, List, [], ◌∷◌, Fault,
  length, arith, Option-cases, Outcome-cases, All,
}
use text.Mathlib.Text.{◌==◌ as str_eq}
use crypto_bot.Symbol.{SymbolId}
use crypto_bot.Double.{Double}
use crypto_bot.Order.{Order}
use crypto_bot.Ticker.{Ticker}
use crypto_bot.Backtest.{Client, OrderRequest, Notice, order_update, account_balance_update}
use crypto_bot.Backtest.Execution.{
  assets, resting_loop, handle_limit_orders, log_value, fill_limit_order, is_filled,
}

-- One pass over resting orders that the ticker fills, one and all, ends with half of them.
abbrev IsHalf : Bool → ℕ → ℕ → Type 0
IsHalf false n left = (left * 2 ≤ n) × (n ≤ left * 2 + 1)
IsHalf true n left = (n ≤ left * 2) × (left * 2 ≤ n + 1)

module _ {ℓ} {D : Type ℓ} ⦃d : Double D⦄ where
  -- The executions that the user data listener was told of.
  unfoldable pub executions : List (Notice D) → ℕ
  executions [] = 0
  executions (order_update o ∷ ns) = suc (executions ns)
  executions (account_balance_update b ∷ ns) = executions ns

  -- The orders that a client holds.
  abbrev pub open_orders : Client D → ℕ
  open_orders c =
      length c.pending_market_orders + length c.pending_limit_orders + length c.limit_orders

  -- One order was executed, and no list of orders has changed.
  abbrev IsOneExecution : Client D → Client D → Type ℓ
  IsOneExecution c c1 =
      (c1.has_user_data_listener ≡ c.has_user_data_listener)
      × (c1.limit_orders ≡ c.limit_orders)
      × (c1.pending_limit_orders ≡ c.pending_limit_orders)
      × (c1.pending_market_orders ≡ c.pending_market_orders)
      × (executions c1.notices ≡ suc (executions c.notices))

  -- What a loop over pending orders has left, with the executions and the orders that it let rest.
  abbrev IsCounted : ℕ → Client D → (List (OrderRequest D) × Client D) × Option Fault → Type ℓ
  IsCounted n c ((rs, c1), fault) =
      (c1.has_user_data_listener ≡ c.has_user_data_listener)
      × (c1.pending_limit_orders ≡ c.pending_limit_orders)
      × (c1.pending_market_orders ≡ c.pending_market_orders)
      × (length rs + length c1.limit_orders + executions c1.notices
          ≡ n + length c.limit_orders + executions c.notices)

  abbrev IsRestCounted : ℕ → Client D → (List (Order D) × Client D) × Option Fault → Type ℓ
  IsRestCounted n c ((os, c1), fault) =
      (c1.has_user_data_listener ≡ c.has_user_data_listener)
      × (c1.pending_limit_orders ≡ c.pending_limit_orders)
      × (c1.pending_market_orders ≡ c.pending_market_orders)
      × (length os + executions c1.notices ≡ n + executions c.notices)

  -- A handler neither loses an order nor executes it twice.
  abbrev IsConserved : Client D → Client D → Type 0
  IsConserved c c1 =
      (c1.has_user_data_listener ≡ c.has_user_data_listener)
      × (open_orders c1 + executions c1.notices ≡ open_orders c + executions c.notices)

  resting_loop-IsHalf :
      (base quote : SymbolId) (t : Ticker D) (skip : Bool) (os : List (Order D)) (c : Client D)
      → All (λ o. is_filled t o ≡ true) os
      → (resting_loop base quote t skip os c).1 ≡ none
      → IsHalf skip (length os) (length (resting_loop base quote t skip os c).0.0)
  unfolding resting_loop
  resting_loop-IsHalf base quote t false [] c a e = omega arith
  resting_loop-IsHalf base quote t true [] c a e = omega arith
  resting_loop-IsHalf base quote t true (o ∷ os) c (p, a) e =
      let (h, k) = resting_loop-IsHalf base quote t false os c a e in
      (omega (arith, h, k), omega (arith, h, k))
  resting_loop-IsHalf base quote t false (o ∷ os) c (p, a) e =
      elim (Option-cases (log_value (fill_limit_order base quote o t c))) [
        | inr (f, b) ↦ absurd (cc (rw (p, b, resting_loop) at e))
        | inl b ↦
            let (h, k) =
              resting_loop-IsHalf base quote t true os (fill_limit_order base quote o t c) a
                (rw (p, b, resting_loop) at e) in
            rw (p, b, resting_loop) (omega (arith, h, k), omega (arith, h, k))
      ]

  -- `HandleLimitOrders` passes over the order behind each one that it fills: where the ticker
  -- fills all the resting orders, and the handler ends without an exception, half of them, rounded
  -- down, are still resting.
  pub handle_limit_orders_half :
      (t : Ticker D) (c : Client D)
      → All (λ o. is_filled t o ≡ true) c.limit_orders
      → (handle_limit_orders t c).1 ≡ none
      → (length (handle_limit_orders t c).0.limit_orders * 2 ≤ length c.limit_orders)
        × (length c.limit_orders ≤ length (handle_limit_orders t c).0.limit_orders * 2 + 1)
  unfolding handle_limit_orders
  handle_limit_orders_half t c a e = elim (Outcome-cases (assets t.symbol)) [
    | inr (f, b) ↦ absurd (cc (rw b at e))
    | inl ((base, quote), b) ↦
        rw b (resting_loop-IsHalf base quote t false c.limit_orders c a (rw b at e))
  ]
