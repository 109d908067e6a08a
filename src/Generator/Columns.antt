-- ===== src/Generator/Columns.antt =====
-- The columns of strategy/indicator/indicators_generator.hpp.
use mathlib.Core.Path.{subst}
use crypto_bot.Prelude.{
  ℕ, suc, ◌+◌, ◌≤◌, ◌≡◌, refl, sym, ap, inl, inr, Bool, true, List, [], ◌∷◌, Outcome, ok, ◌>>=◌,
  length, leb, ◌==◌, arith, Bool-cases, Outcome-cases,
}
use crypto_bot.Double.{Double}
use crypto_bot.OrderBook.{OrderBook}
use crypto_bot.Ticker.{Ticker}
use crypto_bot.Generator.{
  IndicatorsGenerator, TradeTicker, new_generator, on_book_ticker, traded, on_trade_ticker,
  collected, on_order_book_update, calculate_imbalance, has_levels,
}

-- A call of the generator.
pub data Event {ℓ} (D : Type ℓ) : Type ℓ where
  book_ticker : Ticker D → Event D
  trade_ticker : TradeTicker D → Event D
  order_book : OrderBook D → Event D

leb_of_le : (a b : ℕ) → a ≤ b → leb a b ≡ true
leb_of_le a b h = ground arith

eq_of_equal : (a b n : ℕ) → a ≡ n → b ≡ n → (a == b) ≡ true
eq_of_equal a b n h k = ground arith

module _ {ℓ} {D : Type ℓ} ⦃d : Double D⦄ where
  abbrev pub time_of : Event D → ℕ
  time_of (book_ticker t) = t.arrived_ts
  time_of (trade_ticker t) = t.arrived_ts
  time_of (order_book ob) = ob.last_update.arrived_ts

  -- A book that is handled has a level on each side.
  abbrev pub is_complete : Event D → Bool
  is_complete (book_ticker t) = true
  is_complete (trade_ticker t) = true
  is_complete (order_book ob) = has_levels ob

  abbrev pub handle : Event D → IndicatorsGenerator D → Outcome (IndicatorsGenerator D)
  handle (book_ticker t) g = on_book_ticker t g
  handle (trade_ticker t) g = on_trade_ticker t g
  handle (order_book ob) g = on_order_book_update ob g

  unfoldable pub handle_all :
      List (Event D) → IndicatorsGenerator D → Outcome (IndicatorsGenerator D)
  handle_all [] g = ok g
  handle_all (e ∷ es) g = do g1 ← handle e g; handle_all es g1

  -- Every event is complete, and none is older than the one before it.
  abbrev pub IsInOrder : ℕ → List (Event D) → Type 0
  IsInOrder ts [] = Unit
  IsInOrder ts (e ∷ es) = (ts ≤ time_of e) × (is_complete e ≡ true) × IsInOrder (time_of e) es

  unfoldable pub books : List (Event D) → ℕ
  books [] = 0
  books (order_book ob ∷ es) = suc (books es)
  books (book_ticker t ∷ es) = books es
  books (trade_ticker t ∷ es) = books es

  -- All the columns have the same length.
  pub record HasEqualColumns (n : ℕ) (g : IndicatorsGenerator D) : Type 0 where
    pub sell_prices : length g.sell_trade_prices ≡ n
    pub buy_prices : length g.buy_trade_prices ≡ n
    pub sells : length g.sell_volumes ≡ n
    pub buys : length g.buy_volumes ≡ n
    pub mids : length g.mid_prices ≡ n
    pub shares_01 : length g.imbalances_01 ≡ n
    pub shares_1 : length g.imbalances_1 ≡ n
    pub shares_10 : length g.imbalances_10 ≡ n

  imbalance_given :
      (ob : OrderBook D) (c : D)
      → has_levels ob ≡ true
      → (i : D) × (calculate_imbalance ob c ≡ ok i)
  unfolding calculate_imbalance
  imbalance_given ob c h = elim (Outcome-cases (calculate_imbalance ob c)) [
    | inl given ↦ given
    | inr (e, x) ↦ absurd (cc (rw (h, calculate_imbalance) at x))
  ]

  collected-HasEqualColumns :
      (n : ℕ) (i j k : D) (ts : ℕ) (g : IndicatorsGenerator D)
      → HasEqualColumns n g
      → HasEqualColumns (suc n) (collected i j k ts g)
  collected-HasEqualColumns n i j k ts g c = record {
    sell_prices = ap suc c.sell_prices;
    buy_prices = ap suc c.buy_prices;
    sells = ap suc c.sells;
    buys = ap suc c.buys;
    mids = ap suc c.mids;
    shares_01 = ap suc c.shares_01;
    shares_1 = ap suc c.shares_1;
    shares_10 = ap suc c.shares_10;
  }

  same_columns :
      (n : ℕ) (g : IndicatorsGenerator D) (ts : ℕ) (a b c e m : D)
      → HasEqualColumns n g
      → HasEqualColumns n (record g {
        last_ts = ts;
        market_sell_vol = a;
        market_buy_vol = b;
        sell_weighted_price_sum = c;
        buy_weighted_price_sum = e;
        mid_price = m;
      })
  same_columns n g ts a b c e m h = record {
    sell_prices = h.sell_prices;
    buy_prices = h.buy_prices;
    sells = h.sells;
    buys = h.buys;
    mids = h.mids;
    shares_01 = h.shares_01;
    shares_1 = h.shares_1;
    shares_10 = h.shares_10;
  }

  traded_lem :
      (n : ℕ) (t : TradeTicker D) (g : IndicatorsGenerator D)
      → HasEqualColumns n g
      → HasEqualColumns n (traded t g) × ((traded t g).last_ts ≡ t.arrived_ts)
  traded_lem n t g h = elim (Bool-cases t.is_market_maker) [
    | inl e ↦ rw e (same_columns n g _ _ _ _ _ _ h, refl)
    | inr e ↦ rw e (same_columns n g _ _ _ _ _ _ h, refl)
  ]

  -- What an event leaves, with the number of rows.
  IsHandled : ℕ → Event D → IndicatorsGenerator D → Type ℓ
  IsHandled n e g =
      (g1 : IndicatorsGenerator D) × (handle e g ≡ ok g1)
      × HasEqualColumns n g1
      × (g1.last_ts ≡ time_of e)

  on_book_ticker-IsHandled :
      (n : ℕ) (t : Ticker D) (g : IndicatorsGenerator D)
      → HasEqualColumns n g
      → g.last_ts ≤ t.arrived_ts
      → IsHandled n (book_ticker t) g
  unfolding IsHandled on_book_ticker
  on_book_ticker-IsHandled n t g c h = (
    record g { mid_price = d.div (d.add t.bid t.ask) (d.lit 20 1); last_ts = t.arrived_ts },
    rw (leb_of_le _ _ h, eq_of_equal _ _ n c.shares_1 c.sell_prices) refl,
    same_columns n g _ _ _ _ _ _ c,
    refl,
  )

  on_trade_ticker-IsHandled :
      (n : ℕ) (t : TradeTicker D) (g : IndicatorsGenerator D)
      → HasEqualColumns n g
      → g.last_ts ≤ t.arrived_ts
      → IsHandled n (trade_ticker t) g
  unfolding IsHandled on_trade_ticker
  on_trade_ticker-IsHandled n t g c h =
      let (columns, ts) = traded_lem n t g c in
      (
        traded t g,
        rw
            (
              leb_of_le _ _ h,
              eq_of_equal _ _ n c.shares_01 c.buy_prices,
              eq_of_equal _ _ n c.shares_1 c.buy_prices,
              eq_of_equal _ _ n c.shares_10 c.buy_prices,
            )
            refl,
        columns,
        ts,
      )

  on_order_book_update-IsHandled :
      (n : ℕ) (ob : OrderBook D) (g : IndicatorsGenerator D)
      → HasEqualColumns n g
      → g.last_ts ≤ ob.last_update.arrived_ts
      → has_levels ob ≡ true
      → IsHandled (suc n) (order_book ob) g
  unfolding IsHandled on_order_book_update
  on_order_book_update-IsHandled n ob g c h full =
      let (i, ei) = imbalance_given ob (d.lit 1 3) full in
      let (j, ej) = imbalance_given ob (d.lit 1 2) full in
      let (k, ek) = imbalance_given ob (d.lit 10 2) full in
      (
        collected i j k ob.last_update.arrived_ts g,
        rw
            (
              ei,
              ej,
              ek,
              leb_of_le _ _ h,
              eq_of_equal _ _ n c.shares_01 c.sell_prices,
              eq_of_equal _ _ n c.shares_1 c.sell_prices,
              eq_of_equal _ _ n c.shares_10 c.sell_prices,
            )
            refl,
        collected-HasEqualColumns n i j k ob.last_update.arrived_ts g c,
        refl,
      )

  IsCollected : ℕ → List (Event D) → IndicatorsGenerator D → Type ℓ
  IsCollected n es g =
      (g1 : IndicatorsGenerator D) × (handle_all es g ≡ ok g1) × HasEqualColumns n g1

  IsCollected-cons :
      (m n : ℕ) (e : Event D) (es : List (Event D)) (g : IndicatorsGenerator D)
      → IsHandled m e g
      → ((g1 : IndicatorsGenerator D)
          → g1.last_ts ≡ time_of e
          → HasEqualColumns m g1
          → IsCollected n es g1)
      → IsCollected n (e ∷ es) g
  unfolding IsCollected IsHandled handle_all
  IsCollected-cons m n e es g (g1, handled, c, ts) next =
      let (g2, rest, c2) = next g1 ts c in (g2, rw handled rest, c2)

  handle_all-IsCollected :
      (es : List (Event D)) (n : ℕ) (g : IndicatorsGenerator D)
      → IsInOrder g.last_ts es
      → HasEqualColumns n g
      → IsCollected (books es + n) es g
  unfolding IsCollected books handle_all
  handle_all-IsCollected [] n g o c = (g, refl, subst (λ k. HasEqualColumns k g) (none_more n) c)
    where
      none_more : (b : ℕ) → b ≡ 0 + b
      none_more b = omega arith
  handle_all-IsCollected (book_ticker t ∷ es) n g (h, full, o) c =
      IsCollected-cons n (books es + n) (book_ticker t) es g (on_book_ticker-IsHandled n t g c h)
        (λ g1 ts c1. handle_all-IsCollected es n g1 (subst (λ x. IsInOrder x es) (sym ts) o) c1)
  handle_all-IsCollected (trade_ticker t ∷ es) n g (h, full, o) c =
      IsCollected-cons n (books es + n) (trade_ticker t) es g (on_trade_ticker-IsHandled n t g c h)
        (λ g1 ts c1. handle_all-IsCollected es n g1 (subst (λ x. IsInOrder x es) (sym ts) o) c1)
  handle_all-IsCollected (order_book ob ∷ es) n g (h, full, o) c =
      subst (λ k. IsCollected k (order_book ob ∷ es) g) (more (books es) n)
        (IsCollected-cons (suc n) (books es + suc n) (order_book ob) es g
          (on_order_book_update-IsHandled n ob g c h full)
          (λ g1 ts c1.
            handle_all-IsCollected es (suc n) g1 (subst (λ x. IsInOrder x es) (sym ts) o) c1))
    where
      more : (a b : ℕ) → a + suc b ≡ suc a + b
      more a b = omega arith

  -- Fed from the start with events in the order of their times, each book with a level on each
  -- side, the generator never fails an assertion and never reads from an empty side, and its eight
  -- columns have one row for each book.
  pub handle_all-HasEqualColumns :
      (es : List (Event D))
      → IsInOrder 0 es
      → (g1 : IndicatorsGenerator D) × (handle_all es new_generator ≡ ok g1)
        × HasEqualColumns (books es) g1
  unfolding IsCollected new_generator
  handle_all-HasEqualColumns es o =
      let (g1, handled, c) = handle_all-IsCollected es 0 new_generator o (record {
        sell_prices = refl;
        buy_prices = refl;
        sells = refl;
        buys = refl;
        mids = refl;
        shares_01 = refl;
        shares_1 = refl;
        shares_10 = refl;
      }) in
      (g1, handled, subst (λ n. HasEqualColumns n g1) (no_more (books es)) c)
    where
      no_more : (a : ℕ) → a + 0 ≡ a
      no_more a = omega arith
