-- ===== src/MarketMaking/Signals.antt =====
-- When strategy/market_making sends orders.
use crypto_bot.Prelude.{
  ℕ, ◌≤◌, ◌≡◌, refl, sym, ap, ◌∙◌, inl, inr, ◌⊎◌, Bool, true, false, ◌||◌, Option, none, some, List,
  [], ◌++◌, Outcome, ok, throws, ok-injective, not_thrown, Outcome-cases, Bool-cases, Option-cases,
}
use crypto_bot.Double.{Double}
use crypto_bot.Order.{Order}
use crypto_bot.OrderBook.{OrderBook}
use crypto_bot.Indicator.{get_average, get_slope}
use crypto_bot.Indicator.Strength.{calculate_strength}
use crypto_bot.MarketMaking.{
  MarketMakingSignal, Prediction, predict, predict_from, neutral, nought, with_index, with_trend,
  blocks, falls_back, rises_back,
}
use crypto_bot.MarketMaking.Risk.{Draw, holds_back, on_price_prediction, calculate_orders}
use crypto_bot.MarketMaking.Strategy.{MarketMakingStrategy, on_order_book_update, with_risk}

-- What division of doubles has: a positive integer over 1000 is positive.
pub record IsPositive {ℓ} (D : Type ℓ) ⦃d : Double D⦄ : Type ℓ where
  pub positive : (n : ℕ) → 1 ≤ n → d.lt (d.of_ℕ 0) (d.div (d.of_ℕ n) (d.lit 10000 1)) ≡ true

module _ {ℓ} {D : Type ℓ} ⦃d : Double D⦄ where
  -- The state of a signal in which orders may be sent: the short average moves back against the two
  -- longer ones, which are in order, and the strength index is not outside of its band.
  pub record IsQuoting (s : MarketMakingSignal D) : Type ℓ where
    pub averages : D × D × D
    pub slopes : D × D × D
    pub index : Option D
    pub short_average : get_average s.sma_short ≡ some averages.0
    pub mid_average : get_average s.sma_mid ≡ some averages.1
    pub long_average : get_average s.sma_long ≡ some averages.2
    pub short_slope : get_slope s.sma_short ≡ some slopes.0
    pub mid_slope : get_slope s.sma_mid ≡ some slopes.1
    pub long_slope : get_slope s.sma_long ≡ some slopes.2
    pub trend : (falls_back averages slopes || rises_back averages slopes) ≡ true
    pub strength : calculate_strength s.rsi s.mid_closes ≡ ok index
    pub not_blocked : blocks index ≡ false

  confidence-cases :
      (index : Option D) (rises falls : Bool) (p : Prediction D)
      → p.confidence ≡ nought
      → ((with_index index (with_trend rises (with_trend falls p))).confidence ≡ nought)
        ⊎ (((falls || rises) ≡ true) × (blocks index ≡ false))
  confidence-cases index rises falls p h = elim (Bool-cases (blocks index)) [
    | inl b ↦ inl (rw b refl)
    | inr b ↦ by_trend rises falls b
  ]
    where
      by_trend :
          (r f : Bool)
          → blocks index ≡ false
          → ((with_index index (with_trend r (with_trend f p))).confidence ≡ nought)
            ⊎ (((f || r) ≡ true) × (blocks index ≡ false))
      by_trend r true b = inr (refl, b)
      by_trend true false b = inr (refl, b)
      by_trend false false b = inl (rw b h)

  -- What the indicators give where a prediction has been made.
  record IsTrending (a1 a2 a3 s1 s2 : Option D) (slope3 : D) (strength : Outcome (Option D))
      : Type ℓ where
    means : D × D × D
    slope1 : D
    slope2 : D
    index : Option D
    has_short : a1 ≡ some means.0
    has_mid : a2 ≡ some means.1
    has_long : a3 ≡ some means.2
    has_slope1 : s1 ≡ some slope1
    has_slope2 : s2 ≡ some slope2
    trend :
        (falls_back means (slope1, slope2, slope3) || rises_back means (slope1, slope2, slope3))
        ≡ true
    has_index : strength ≡ ok index
    not_blocked : blocks index ≡ false

  predict_from-confidence :
      (a1 a2 a3 s1 s2 : Option D) (slope3 : D) (strength : Outcome (Option D)) (p q : Prediction D)
      → p.confidence ≡ nought
      → predict_from a1 a2 a3 s1 s2 slope3 strength p ≡ ok q
      → (q.confidence ≡ nought) ⊎ IsTrending a1 a2 a3 s1 s2 slope3 strength
  predict_from-confidence none a2 a3 s1 s2 slope3 strength p q z h = absurd cc
  predict_from-confidence (some a1) none a3 s1 s2 slope3 strength p q z h = absurd cc
  predict_from-confidence (some a1) (some a2) none s1 s2 slope3 strength p q z h = absurd cc
  predict_from-confidence (some a1) (some a2) (some a3) none s2 slope3 strength p q z h = absurd cc
  predict_from-confidence (some a1) (some a2) (some a3) (some s1) none slope3 strength p q z h =
      absurd cc
  predict_from-confidence (some a1) (some a2) (some a3) (some s1) (some s2) slope3 (throws x) p q z
        h =
      absurd cc
  predict_from-confidence (some a1) (some a2) (some a3) (some s1) (some s2) slope3 (ok index) p q z
        h =
      let same = sym (ap (λ r. r.confidence) (ok-injective h)) in
      elim (confidence-cases index (rises_back (a1, a2, a3) (s1, s2, slope3))
        (falls_back (a1, a2, a3) (s1, s2, slope3)) p z) [
          | inl zero_confidence ↦ inl (same ∙ zero_confidence)
          | inr (t, b) ↦ inr (record {
            means = (a1, a2, a3);
            slope1 = s1;
            slope2 = s2;
            index = index;
            has_short = refl;
            has_mid = refl;
            has_long = refl;
            has_slope1 = refl;
            has_slope2 = refl;
            trend = t;
            has_index = refl;
            not_blocked = b;
          })
        ]

  predict-confidence :
      (timestamp_us : ℕ) (s : MarketMakingSignal D) (p : Prediction D)
      → predict timestamp_us s ≡ ok p
      → (p.confidence ≡ nought) ⊎ IsQuoting s
  unfolding predict
  predict-confidence timestamp_us s p h = elim (Option-cases (get_slope s.sma_long)) [
    | inl e ↦ inl (sym (ap (λ q. q.confidence) (ok-injective (rw (e, predict) at h))))
    | inr (slope3, e) ↦
        elim (predict_from-confidence _ _ _ _ _ slope3 _ (neutral timestamp_us s) p refl
          (rw (e, predict) at h)) [
            | inl z ↦ inl z
            | inr t ↦ inr (record {
              averages = t.means;
              slopes = (t.slope1, t.slope2, slope3);
              index = t.index;
              short_average = t.has_short;
              mid_average = t.has_mid;
              long_average = t.has_long;
              short_slope = t.has_slope1;
              mid_slope = t.has_slope2;
              long_slope = e;
              trend = t.trend;
              strength = t.has_index;
              not_blocked = t.not_blocked;
            })
          ]
  ]

  -- The outcomes of a handler that has ended.
  unfoldable pub HasSent :
      Draw → ℕ → MarketMakingStrategy D → MarketMakingStrategy D → List (Order D) → Type ℓ
  HasSent draw ts s s1 sent =
      ((s1 ≡ s) × (sent ≡ []))
      ⊎ (IsQuoting s.signal
          × (p : Prediction D) × (predict ts s.signal ≡ ok p)
          × (sent ≡ calculate_orders draw p s.risk_manager.options)
          × (s1.risk_manager.orders ≡ s.risk_manager.orders ++ sent))

  zero-holds_back :
      (draw : Draw) (p : Prediction D)
      → IsPositive D
      → 1 ≤ draw.number
      → p.confidence ≡ nought
      → holds_back draw p ≡ true
  zero-holds_back draw p law b z = rw z (law.positive draw.number b)

  held-HasSent :
      (draw : Draw) (ts : ℕ) (p : Prediction D) (s s1 : MarketMakingStrategy D)
      (sent : List (Order D))
      → holds_back draw p ≡ true
      → (with_risk s (on_price_prediction draw p s.risk_manager) ≡ (s1, sent))
      → HasSent draw ts s s1 sent
  unfolding HasSent on_price_prediction
  held-HasSent draw ts p s s1 sent h e =
      let e' : (s, []) ≡ (s1, sent) = rw h at e in
      inl (sym (ap (λ r. r.0) e'), sym (ap (λ r. r.1) e'))

  sent-HasSent :
      (draw : Draw) (ts : ℕ) (p : Prediction D) (s s1 : MarketMakingStrategy D)
      (sent : List (Order D))
      → predict ts s.signal ≡ ok p
      → IsQuoting s.signal
      → holds_back draw p ≡ false
      → (with_risk s (on_price_prediction draw p s.risk_manager) ≡ (s1, sent))
      → HasSent draw ts s s1 sent
  unfolding HasSent on_price_prediction
  sent-HasSent draw ts p s s1 sent m q h e =
      let e' = rw h at e in
      let last = sym (ap (λ r. r.1) e') in
      inr (
        q,
        p,
        m,
        last,
        sym (ap (λ r. r.0.risk_manager.orders) e')
            ∙ ap (λ l. s.risk_manager.orders ++ l) (sym last),
      )

  -- A book that arrives makes the strategy send orders only while the signal quotes: all three
  -- averages have a value and a slope, the short one moves back against the two longer ones, which
  -- are in order, and the strength index is from 40 to 60 or not known yet. It then sends the two
  -- orders that the risk manager calculates, and remembers them; else nothing changes. The number
  -- drawn is at least 1, and over 1000 it is positive.
  pub on_order_book_update-HasSent :
      (draw : Draw) (ob : OrderBook D) (s s1 : MarketMakingStrategy D) (sent : List (Order D))
      → IsPositive D
      → 1 ≤ draw.number
      → on_order_book_update draw ob s ≡ ok (s1, sent)
      → HasSent draw ob.last_update.arrived_ts s s1 sent
  unfolding on_order_book_update
  on_order_book_update-HasSent draw ob s s1 sent law b h =
      elim (Outcome-cases (predict ob.last_update.arrived_ts s.signal)) [
        | inr (x, e) ↦ absurd (not_thrown (rw e at h))
        | inl (p, e) ↦
            let sent_by = ok-injective (rw e at h) in
            elim (Bool-cases (holds_back draw p)) [
              | inl held ↦ held-HasSent draw ob.last_update.arrived_ts p s s1 sent held sent_by
              | inr free ↦ elim (predict-confidence ob.last_update.arrived_ts s.signal p e) [
                | inr q ↦ sent-HasSent draw ob.last_update.arrived_ts p s s1 sent e q free sent_by
                | inl z ↦ absurd (cc (free, zero-holds_back draw p law b z))
              ]
            ]
      ]
