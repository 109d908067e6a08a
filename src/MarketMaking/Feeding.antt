-- ===== src/MarketMaking/Feeding.antt =====
-- That the signal of strategy/market_making/market_making_signal.cc never fails.
use crypto_bot.Prelude.{
  ℕ, suc, ◌+◌, ◌-◌, ◌^◌, ◌%◌, ◌≤◌, ◌<◌, ◌≡◌, refl, ◌∙◌, inl, inr, false, Option, none, some, List,
  [], ◌∷◌, ok, length, ltb, ltb→lt, leb, arith, Bool-cases, Option-cases,
}
use crypto_bot.Prelude.Int.{ℤ, ltb_ℤ}
use crypto_bot.Double.{Double}
use crypto_bot.Ticker.{Ticker}
use crypto_bot.Indicator.{
  SimpleMovingAverage, new_average, with_sum, update_average, get_average, get_slope, slope,
}
use crypto_bot.Indicator.Window.{get_elem?-lt}
use crypto_bot.Indicator.Strength.{
  calculate_strength, calculate_strength-averages, averages, strength_of,
}
use crypto_bot.MarketMaking.{
  MarketMakingSignal, Prediction, new_signal, get_minute, mid_price, close_minute, on_book_ticker,
  predict, feed_signal, neutral, with_index, with_trend, rises_back, falls_back,
}

false_of_le : (a b : ℕ) → b ≤ a → ltb a b ≡ false
false_of_le a b h = ground arith

no_wrap : (c n : ℕ) → c ≡ n → suc n < 2 ^ 64 → (c + 1) % 2 ^ 64 ≡ suc n
no_wrap c n e b = omega (arith, e, b)

module _ {ℓ} {D : Type ℓ} ⦃d : Double D⦄ where
  -- An average with the values of a series.
  pub record IsFed (period : ℕ) (xs : List D) (s : SimpleMovingAverage D) : Type ℓ where
    pub same_period : s.period ≡ period
    pub counted : s.count ≡ length xs
    pub averaged : length s.smas ≡ suc (length xs) - period

  length-with_sum :
      (period n : ℕ) (total : D) (s : SimpleMovingAverage D)
      → s.period ≡ period
      → length s.smas ≡ suc n - period
      → length (with_sum (suc n) total s).smas ≡ suc (suc n) - period
  length-with_sum period n total s e h = ground (arith, e, h)

  update_average-IsFed :
      (period : ℕ) (x : D) (xs : List D) (s : SimpleMovingAverage D)
      → suc (length xs) < 2 ^ 64
      → IsFed period xs s
      → (s1 : SimpleMovingAverage D) × (update_average (x ∷ xs) s ≡ ok s1)
        × IsFed period (x ∷ xs) s1
  unfolding update_average
  update_average-IsFed period x xs s b w =
      let e0 : ltb (suc (length xs)) s.count ≡ false = false_of_le _ _ (omega (arith, w.counted)) in
      let e1 = no_wrap s.count (length xs) w.counted b in
      elim (Bool-cases (ltb s.period (suc (length xs)))) [
        | inl long ↦
            let (v, found) =
              get_elem?-lt (x ∷ xs) s.period (ltb→lt s.period (suc (length xs)) long) in
            (
              with_sum (suc (length xs)) (d.sub (d.add s.sum x) v) s,
              rw (e0, e1, long, found) refl,
              record {
                same_period = w.same_period;
                counted = refl;
                averaged = length-with_sum period (length xs) _ s w.same_period w.averaged;
              },
            )
        | inr short ↦ (
          with_sum (suc (length xs)) (d.add s.sum x) s,
          rw (e0, e1, short) refl,
          record {
            same_period = w.same_period;
            counted = refl;
            averaged = length-with_sum period (length xs) _ s w.same_period w.averaged;
          },
        )
      ]

  -- A signal whose averages have all closes.
  pub record IsReady (s : MarketMakingSignal D) : Type ℓ where
    pub index_period : s.rsi ≡ record { period = 55 }
    pub short_fed : IsFed 8 s.mid_closes s.sma_short
    pub mid_fed : IsFed 21 s.mid_closes s.sma_mid
    pub long_fed : IsFed 55 s.mid_closes s.sma_long

  close_minute-IsReady :
      (mins : ℤ) (close : D) (s : MarketMakingSignal D)
      → suc (length s.mid_closes) < 2 ^ 64
      → IsReady s
      → (s1 : MarketMakingSignal D) × (close_minute mins close s ≡ ok s1)
        × (length s1.mid_closes ≡ suc (length s.mid_closes))
        × IsReady s1
  unfolding close_minute
  close_minute-IsReady mins close s b r =
      let (a1, e1, f1) = update_average-IsFed 8 close s.mid_closes s.sma_short b r.short_fed in
      let (a2, e2, f2) = update_average-IsFed 21 close s.mid_closes s.sma_mid b r.mid_fed in
      let (a3, e3, f3) = update_average-IsFed 55 close s.mid_closes s.sma_long b r.long_fed in
      (
        record s {
          mid_closes = close ∷ s.mid_closes;
          sma_short = a1;
          sma_mid = a2;
          sma_long = a3;
          minute = mins;
        },
        rw (e1, e2, e3) refl,
        refl,
        record { index_period = r.index_period; short_fed = f1; mid_fed = f2; long_fed = f3 },
      )

  on_book_ticker-IsReady :
      (t : Ticker D) (s : MarketMakingSignal D)
      → suc (length s.mid_closes) < 2 ^ 64
      → IsReady s
      → (s1 : MarketMakingSignal D) × (on_book_ticker t s ≡ ok s1)
        × (length s1.mid_closes ≤ suc (length s.mid_closes))
        × IsReady s1
  unfolding on_book_ticker
  on_book_ticker-IsReady t s b r = elim (Bool-cases (ltb_ℤ s.minute (get_minute t.arrived_ts))) [
    | inl later ↦
        let (s1, e, l, r1) =
          close_minute-IsReady (get_minute t.arrived_ts) (mid_price s.book_ticker) s b r in
        (
          record s1 { book_ticker = t },
          rw (later, e) refl,
          omega (arith, l),
          record {
            index_period = r1.index_period;
            short_fed = r1.short_fed;
            mid_fed = r1.mid_fed;
            long_fed = r1.long_fed;
          },
        )
    | inr same ↦ (
      record s { book_ticker = t },
      rw same refl,
      omega arith,
      record {
        index_period = r.index_period;
        short_fed = r.short_fed;
        mid_fed = r.mid_fed;
        long_fed = r.long_fed;
      },
    )
  ]

  feed_signal-IsReady :
      (ts : List (Ticker D)) (s : MarketMakingSignal D)
      → length ts + length s.mid_closes < 2 ^ 64
      → IsReady s
      → (s1 : MarketMakingSignal D) × (feed_signal ts s ≡ ok s1)
        × (length s1.mid_closes ≤ length ts + length s.mid_closes)
        × IsReady s1
  unfolding feed_signal
  feed_signal-IsReady [] s b r = (s, refl, omega arith, r)
  feed_signal-IsReady (t ∷ ts) s b r =
      let (s1, e1, l1, r1) = feed_signal-IsReady ts s (omega (arith, b)) r in
      let (s2, e2, l2, r2) = on_book_ticker-IsReady t s1 (omega (arith, b, l1)) r1 in
      (s2, rw e1 e2, omega (arith, l1, l2), r2)

  new_signal-IsReady : (sums : D × D × D) (memory : Ticker D) → IsReady (new_signal sums memory)
  unfolding new_signal new_average
  new_signal-IsReady (m1, m2, m3) memory = record {
    index_period = refl;
    short_fed = record { same_period = refl; counted = refl; averaged = refl };
    mid_fed = record { same_period = refl; counted = refl; averaged = refl };
    long_fed = record { same_period = refl; counted = refl; averaged = refl };
  }

  get_average-some :
      (s : SimpleMovingAverage D) → 0 < length s.smas → (v : D) × (get_average s ≡ some v)
  unfolding get_average
  get_average-some s h = get_elem?-lt s.smas 0 h

  get_slope-some :
      (s : SimpleMovingAverage D) → 1 < length s.smas → (v : D) × (get_slope s ≡ some v)
  unfolding get_slope
  get_slope-some s h = slope_some s.smas h
    where
      slope_some : (ds : List D) → 1 < length ds → (v : D) × (slope ds ≡ some v)
      slope_some [] h = absurd (omega arith)
      slope_some (a ∷ []) h = absurd (omega arith)
      slope_some (a ∷ b ∷ ds) h = (d.sub a b, refl)

  get_slope-length : (s : SimpleMovingAverage D) (v : D) → get_slope s ≡ some v → 1 < length s.smas
  unfolding get_slope
  get_slope-length s v h = slope_length s.smas h
    where
      slope_length : (ds : List D) → slope ds ≡ some v → 1 < length ds
      slope_length [] h = absurd cc
      slope_length (a ∷ []) h = absurd cc
      slope_length (a ∷ b ∷ ds) h = omega arith

  calculate_strength-ok :
      (closes : List D)
      → (index : Option D) × (calculate_strength (record { period = 55 }) closes ≡ ok index)
  calculate_strength-ok closes = elim (Bool-cases (leb (length closes) 55)) [
    | inl few ↦ (none, calculate_strength-averages 54 closes ∙ rw few refl)
    | inr enough ↦ (
      some (strength_of (averages 55 55 closes)),
      calculate_strength-averages 54 closes ∙ rw enough refl,
    )
  ]

  predict-ready :
      (timestamp_us : ℕ) (s : MarketMakingSignal D)
      → IsReady s
      → (p : Prediction D) × (predict timestamp_us s ≡ ok p)
  unfolding predict
  predict-ready timestamp_us s r = elim (Option-cases (get_slope s.sma_long)) [
    | inl early ↦ (neutral timestamp_us s, rw (early, predict) refl)
    | inr (slope3, e3) ↦
        let n = get_slope-length s.sma_long slope3 e3 in
        let full : 55 < length s.mid_closes = omega (arith, n, r.long_fed.averaged) in
        let (short, f1) =
          get_average-some s.sma_short (omega (arith, full, r.short_fed.averaged)) in
        let (mid, f2) = get_average-some s.sma_mid (omega (arith, full, r.mid_fed.averaged)) in
        let (long, f3) = get_average-some s.sma_long (omega (arith, full, r.long_fed.averaged)) in
        let (slope1, e1) = get_slope-some s.sma_short (omega (arith, full, r.short_fed.averaged)) in
        let (slope2, e2) = get_slope-some s.sma_mid (omega (arith, full, r.mid_fed.averaged)) in
        let (index, e4) = calculate_strength-ok s.mid_closes in
        (
          with_index index (
              with_trend (rises_back (short, mid, long) (slope1, slope2, slope3)) (
                with_trend (falls_back (short, mid, long) (slope1, slope2, slope3))
                  (neutral timestamp_us s))),
          rw (e3, predict) (rw (f1, f2, f3, e1, e2, r.index_period, e4) refl),
        )
  ]

  fits :
      (sums : D × D × D) (memory : Ticker D) (ts : List (Ticker D))
      → length ts < 2 ^ 64
      → length ts + length (new_signal sums memory).mid_closes < 2 ^ 64
  unfolding new_signal
  fits (m1, m2, m3) memory ts b = omega (arith, b)

  -- However the sums and the ticker of a new signal are filled, and whatever tickers it gets, fewer
  -- than 2^64 of them: its handlers never fail, and it makes a prediction. No optional is read that
  -- has no value, no average reads outside of the closes, and no assertion fails.
  pub predict-feed_signal :
      (sums : D × D × D) (memory : Ticker D) (ts : List (Ticker D)) (timestamp_us : ℕ)
      → length ts < 2 ^ 64
      → (s : MarketMakingSignal D) × (p : Prediction D) × (feed_signal ts (new_signal sums memory)
          ≡ ok s)
        × (predict timestamp_us s ≡ ok p)
  predict-feed_signal sums memory ts timestamp_us b =
      let (s, e, l, r) =
        feed_signal-IsReady ts (new_signal sums memory) (fits sums memory ts b)
          (new_signal-IsReady sums memory) in
      let (p, q) = predict-ready timestamp_us s r in (s, p, e, q)
