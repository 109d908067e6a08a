-- ===== src/Backtest/Cancel.antt =====
-- `CancelOrder` of backtest/backtest_exchange_client.hpp.
use crypto_bot.Prelude.{
  ◌≡◌, refl, true, false, if◌then◌else◌, none, some, List, [], ◌∷◌, ◌++◌, ok, throws, out_of_range,
  All,
}
use crypto_bot.Double.{Double}
use crypto_bot.Exchange.{success}
use crypto_bot.Order.{Order, order_eq}
use crypto_bot.Backtest.{Client, remove_order, cancel_order, has_open_orders}

module _ {ℓ} {D : Type ℓ} ⦃d : Double D⦄ where
  remove_order_present :
      (o p : Order D) (before behind : List (Order D))
      → All (λ q. order_eq o q ≡ false) before
      → order_eq o p ≡ true
      → remove_order o (before ++ p ∷ behind) ≡ some (before ++ behind)
  unfolding remove_order
  remove_order_present o p [] behind a e = rw e
  remove_order_present o p (q ∷ before) behind (n, a) e =
      rw (n, remove_order_present o p before behind a e)

  remove_order_absent :
      (o : Order D) (os : List (Order D))
      → All (λ q. order_eq o q ≡ false) os
      → remove_order o os ≡ none
  unfolding remove_order
  remove_order_absent o [] a = refl
  remove_order_absent o (q ∷ os) (n, a) = rw (n, remove_order_absent o os a)

  -- A resting order that is equal to the given one, where none before it is, is removed, and it
  -- alone.
  pub cancel_order_present :
      (c : Client D) (o p : Order D) (before behind : List (Order D))
      → c.limit_orders ≡ before ++ p ∷ behind
      → All (λ q. order_eq o q ≡ false) before
      → order_eq o p ≡ true
      → cancel_order o c ≡ (
        record c { limit_orders = before ++ behind },
        ok (success "Success canceling order" true),
      )
  unfolding cancel_order
  cancel_order_present c o p [] behind l a e = rw (l, remove_order_present o p [] behind a e)
  cancel_order_present c o p (q ∷ before) behind l a e =
      rw (l, remove_order_present o p (q ∷ before) behind a e)

  -- If no resting order is equal to the given one, nothing changes and no failure is reported: with
  -- resting orders `CancelOrder` leaves by an exception, and without any it reports success.
  pub cancel_order_absent :
      (c : Client D) (o : Order D)
      → All (λ q. order_eq o q ≡ false) c.limit_orders
      → cancel_order o c ≡ (
        c,
        if has_open_orders c
            then throws out_of_range
            else ok (success "Failed canceling order" true),
      )
  unfolding cancel_order has_open_orders
  cancel_order_absent c o a = by_orders c.limit_orders refl a
    where
      by_orders :
          (os : List (Order D))
          → c.limit_orders ≡ os
          → All (λ q. order_eq o q ≡ false) os
          → cancel_order o c ≡ (
            c,
            if has_open_orders c
                then throws out_of_range
                else ok (success "Failed canceling order" true),
          )
      by_orders [] l b = rw l
      by_orders (q ∷ os) l b = rw (l, remove_order_absent o (q ∷ os) b)
