-- ===== src/Arbitrage/Guards.antt =====
-- When the strategy of arbitrage_strategy.hpp sends orders.
use crypto_bot.Prelude.{
  ℕ, ◌≡◌, refl, sym, ap, ◌∙◌, inl, inr, Bool, true, false, not, ◌||◌, Option, none, some, List, [],
  ◌∷◌, Outcome, ok, throws, Bool-cases, Option-cases, Outcome-cases,
}
use crypto_bot.Assoc.{find}
use crypto_bot.Symbol.{SymbolPairId, SymbolId, string_key, asset_eq_key}
use crypto_bot.Symbol.Pair.{get_base_asset, get_quote_asset}
use crypto_bot.Double.{Double}
use crypto_bot.Order.{Builder, sell, buy}
use crypto_bot.Ticker.{Ticker}
use crypto_bot.Arbitrage.{
  ExchangeParams, ArbitrageStrategyMatch, ArbitrageOrders, find_match, calculate,
}
use crypto_bot.Arbitrage.Strategy.{
  Strategy, Manager, Sent, is_too_old, is_delayed, minimum, has_open_orders, place, plan,
  with_params, params_of, with_match, tickers_of, store_ticker, on_book_ticker,
}

-- One test out of several that have all failed.
or_false : (a b : Bool) → (a || b) ≡ false → (a ≡ false) × (b ≡ false)
or_false true b e = absurd cc
or_false false b e = (refl, e)

not-false : (a : Bool) → not a ≡ false → a ≡ true
not-false true e = refl
not-false false e = absurd cc

ok_injective {ℓ} : {A : Type ℓ} → {x y : A} → ok x ≡ ok y → x ≡ y
ok_injective e = cc

module _ {ℓ} {D : Type ℓ} ⦃d : Double D⦄ where
  -- What holds when orders have been sent on a match: both tickers are fresh and arrived without
  -- much delay, both accounts are synced, no account manager has an open order for the pair, and
  -- the orders are of the least amount or more, a sale on the exchange that bids and a buy of the
  -- same quantity on the one that asks.
  pub record IsSafe (now : ℕ) (pair : SymbolPairId) (match : ArbitrageStrategyMatch D)
      (s : Strategy D) (sent : List (Sent D)) : Type ℓ where
    pub bid_params : ExchangeParams D
    pub ask_params : ExchangeParams D
    pub bid_manager : Manager D
    pub ask_manager : Manager D
    pub bid_params_found : find match.best_bid.exchange s.exchange_params ≡ some bid_params
    pub ask_params_found : find match.best_ask.exchange s.exchange_params ≡ some ask_params
    pub bid_manager_found : find match.best_bid.exchange s.account_managers ≡ some bid_manager
    pub ask_manager_found : find match.best_ask.exchange s.account_managers ≡ some ask_manager
    pub bid_fresh : is_too_old now match.best_bid bid_params ≡ false
    pub ask_fresh : is_too_old now match.best_ask ask_params ≡ false
    pub bid_prompt : is_delayed match.best_bid bid_params ≡ false
    pub ask_prompt : is_delayed match.best_ask ask_params ≡ false
    pub bid_synced : bid_manager.is_account_synced ≡ true
    pub ask_synced : ask_manager.is_account_synced ≡ true
    pub base : SymbolId
    pub base_found : get_base_asset pair ≡ ok base
    pub no_open_orders : has_open_orders pair s.account_managers ≡ false
    pub quantity : D
    pub sell_price : D
    pub buy_price : D
    pub enough : d.lt quantity (minimum base s) ≡ false
    pub orders_sent :
        sent
        ≡ record {
          exchange = match.best_bid.exchange;
          symbol = match.best_bid.symbol;
          side = sell;
          quantity = quantity;
          price = sell_price;
        }
          ∷ record {
            exchange = match.best_ask.exchange;
            symbol = match.best_bid.symbol;
            side = buy;
            quantity = quantity;
            price = buy_price;
          }
          ∷ []

  place_lem :
      (is_lock_free : Bool) (pair : SymbolPairId) (base : SymbolId)
      (bid_ticker ask_ticker : Ticker D) (orders : ArbitrageOrders D) (bid_am ask_am : Manager D)
      (s : Strategy D) (first : Sent D) (rest : List (Sent D))
      → (place is_lock_free pair base bid_ticker ask_ticker orders bid_am ask_am s).0.1
        ≡ first ∷ rest
      → (d.lt orders.buy_order.quantity (minimum base s) ≡ false)
        × (bid_am.is_account_synced ≡ true)
        × (ask_am.is_account_synced ≡ true)
        × (has_open_orders pair s.account_managers ≡ false)
        × (is_lock_free ≡ true)
        × (first ∷ rest
            ≡ record {
              exchange = bid_ticker.exchange;
              symbol = bid_ticker.symbol;
              side = sell;
              quantity = orders.buy_order.quantity;
              price = orders.sell_order.price;
            }
              ∷ record {
                exchange = ask_ticker.exchange;
                symbol = bid_ticker.symbol;
                side = buy;
                quantity = orders.buy_order.quantity;
                price = orders.buy_order.price;
              }
              ∷ [])
  place_lem is_lock_free pair base bid_ticker ask_ticker orders bid_am ask_am s first rest h =
      elim (Bool-cases (
        d.lt orders.buy_order.quantity (minimum base s)
        || (not bid_am.is_account_synced || not ask_am.is_account_synced)
        || has_open_orders pair s.account_managers
        || not is_lock_free)) [
          | inl e ↦ absurd (cc (rw e at h))
          | inr e ↦
              let (e2, e6) = or_false _ _ e in
              let (e3, e5) = or_false _ _ e2 in
              let (e1, e4) = or_false _ _ e3 in
              let (e7, e8) = or_false _ _ e4 in
              (e1, not-false _ e7, not-false _ e8, e5, not-false _ e6, sym (rw e at h))
        ]

  plan_base :
      (memory : Builder D) (pair : SymbolPairId) (match : ArbitrageStrategyMatch D)
      (bid_am ask_am : Manager D) (s : Strategy D) (base : SymbolId) (orders : ArbitrageOrders D)
      → plan memory pair match bid_am ask_am s ≡ ok (base, orders)
      → get_base_asset pair ≡ ok base
  unfolding plan
  plan_base memory pair match bid_am ask_am s base orders h =
      elim (Outcome-cases (get_base_asset pair)) [
        | inr (e, x) ↦ absurd (cc (rw x at h))
        | inl (b, x) ↦ elim (Outcome-cases (get_quote_asset pair)) [
          | inr (e, y) ↦ absurd (cc (rw (x, y) at h))
          | inl (q, y) ↦
              elim (Outcome-cases (
                calculate memory s.exchange_params match.best_bid match.best_ask
                  (bid_am.get_free_balance b) (ask_am.get_free_balance q))) [
                    | inr (e, z) ↦ absurd (cc (rw (x, y, z) at h))
                    | inl (os, z) ↦ x ∙ ap ok (ap (λ r. r.0) (ok_injective (rw (x, y, z) at h)))
                  ]
        ]
      ]

  with_params-IsSafe :
      (memory : Builder D) (now : ℕ) (is_lock_free : Bool) (pair : SymbolPairId)
      (match : ArbitrageStrategyMatch D) (s : Strategy D) (p q : ExchangeParams D) (first : Sent D)
      (rest : List (Sent D))
      → find match.best_bid.exchange s.exchange_params ≡ some p
      → find match.best_ask.exchange s.exchange_params ≡ some q
      → (with_params (ok (p, q)) memory now is_lock_free pair match s).0.1 ≡ first ∷ rest
      → IsSafe now pair match s (first ∷ rest) × (is_lock_free ≡ true)
  with_params-IsSafe memory now is_lock_free pair match s p q first rest fp fq h =
      elim (Bool-cases (
        (is_too_old now match.best_bid p || is_too_old now match.best_ask q)
        || (is_delayed match.best_bid p || is_delayed match.best_ask q))) [
          | inl e ↦ absurd (cc (rw e at h))
          | inr e ↦
              let (e1, e2) = or_false _ _ e in
              let (old1, old2) = or_false _ _ e1 in
              let (slow1, slow2) = or_false _ _ e2 in
              elim (Option-cases (find match.best_bid.exchange s.account_managers)) [
                | inl f ↦ absurd (cc (rw (e, f) at h))
                | inr (bid_am, f) ↦
                    elim (Option-cases (find match.best_ask.exchange s.account_managers)) [
                      | inl g ↦ absurd (cc (rw (e, f, g) at h))
                      | inr (ask_am, g) ↦
                          elim (Outcome-cases (plan memory pair match bid_am ask_am s)) [
                            | inr (x, a) ↦ absurd (cc (rw (e, f, g, a) at h))
                            | inl ((base, orders), a) ↦
                                let (enough, s1, s2, none_open, lock, sent) =
                                  place_lem is_lock_free pair base match.best_bid match.best_ask
                                    orders bid_am ask_am s first rest (rw (e, f, g, a) at h) in
                                (
                                  record {
                                    bid_params = p;
                                    ask_params = q;
                                    bid_manager = bid_am;
                                    ask_manager = ask_am;
                                    bid_params_found = fp;
                                    ask_params_found = fq;
                                    bid_manager_found = f;
                                    ask_manager_found = g;
                                    bid_fresh = old1;
                                    ask_fresh = old2;
                                    bid_prompt = slow1;
                                    ask_prompt = slow2;
                                    bid_synced = s1;
                                    ask_synced = s2;
                                    base = base;
                                    base_found =
                                        plan_base memory pair match bid_am ask_am s base orders a;
                                    no_open_orders = none_open;
                                    quantity = orders.buy_order.quantity;
                                    sell_price = orders.sell_order.price;
                                    buy_price = orders.buy_order.price;
                                    enough = enough;
                                    orders_sent = sent;
                                  },
                                  lock,
                                )
                          ]
                    ]
              ]
        ]

  with_match-IsSafe :
      (m : Outcome (Option (ArbitrageStrategyMatch D))) (memory : Builder D) (now : ℕ)
      (is_lock_free : Bool) (pair : SymbolPairId) (s : Strategy D) (first : Sent D)
      (rest : List (Sent D))
      → (with_match m memory now is_lock_free pair s).0.1 ≡ first ∷ rest
      → (match : ArbitrageStrategyMatch D) × (m ≡ ok (some match))
        × IsSafe now pair match s (first ∷ rest)
        × (is_lock_free ≡ true)
  unfolding params_of
  with_match-IsSafe (throws e) memory now is_lock_free pair s first rest h = absurd cc
  with_match-IsSafe (ok none) memory now is_lock_free pair s first rest h = absurd cc
  with_match-IsSafe (ok (some match)) memory now is_lock_free pair s first rest h =
      elim (Option-cases (find match.best_bid.exchange s.exchange_params)) [
        | inl f ↦ absurd (cc (rw f at h))
        | inr (p, f) ↦ elim (Option-cases (find match.best_ask.exchange s.exchange_params)) [
          | inl g ↦ absurd (cc (rw (f, g) at h))
          | inr (q, g) ↦
              let (safe, lock) =
                with_params-IsSafe memory now is_lock_free pair match s p q first rest f g
                  (rw (f, g) at h) in
              (match, refl, safe, lock)
        ]
      ]

  -- The strategy sends orders only on a match that `FindMatch` reports for the pair of the ticker,
  -- with that ticker stored, only while no other thread is sending, and only where all of this
  -- holds: both tickers are fresh and arrived without much delay by the limits of their exchanges,
  -- both accounts are synced, no account manager has an open order for the pair, and the quantity
  -- is not below the least amount. What it sends is then two orders of one quantity, a sale on the
  -- exchange that bids and a buy on the one that asks.
  pub on_book_ticker-IsSafe :
      (memory : Builder D) (now : ℕ) (is_lock_free : Bool) (t : Ticker D) (s : Strategy D)
      (first : Sent D) (rest : List (Sent D))
      → (on_book_ticker memory now is_lock_free t s).0.1 ≡ first ∷ rest
      → (match : ArbitrageStrategyMatch D) × (find_match s.exchange_params
            s.arbitrage_match_profit_margin
            (tickers_of t.symbol (store_ticker t s))
          ≡ ok (some match))
        × IsSafe now t.symbol match (store_ticker t s) (first ∷ rest)
        × (is_lock_free ≡ true)
  unfolding on_book_ticker
  on_book_ticker-IsSafe memory now is_lock_free t s first rest h =
      with_match-IsSafe _ memory now is_lock_free t.symbol (store_ticker t s) first rest h
