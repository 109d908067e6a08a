-- ===== src/MarketMaking.antt =====
-- strategy/market_making/market_making_signal.cc and model/prediction.h. The children hold the risk
-- manager, the strategy that joins the two, and the theorems.
pub mod Risk
pub mod Strategy
pub mod Feeding
pub mod Signals
pub mod Fills
mod Tests
use crypto_bot.Prelude.{
  ℕ, ◌+◌, ◌-◌, ◌/◌, ◌%◌, ◌^◌, Bool, false, ◌&&◌, ◌||◌, if◌then◌else◌, Option, none, some, List, [],
  ◌∷◌, Outcome, ok, ◌>>=◌, or_throw, bad_optional_access, ltb,
}
use crypto_bot.Prelude.Int.{ℤ, pos, negsuc, ◌-ℤ◌, ltb_ℤ}
use crypto_bot.Symbol.{SymbolPairId}
use crypto_bot.Double.{Double}
use crypto_bot.Ticker.{Ticker}
use crypto_bot.Indicator.{SimpleMovingAverage, new_average, update_average, get_average, get_slope}
use crypto_bot.Indicator.Strength.{RelativeStrengthIndex, calculate_strength}

-- `MarketMakingPrediction`
pub record Prediction {ℓ} (D : Type ℓ) : Type ℓ where
  pub symbol : SymbolPairId
  pub base_price : D
  pub signal : D
  pub confidence : D
  pub timeframe_ms : ℕ
  pub timestamp_us : ℕ

-- `m_ob_imbalance` is not used. The closes are a list with the newest first.
pub record MarketMakingSignal {ℓ} (D : Type ℓ) : Type ℓ where
  pub rsi : RelativeStrengthIndex
  pub sma_short : SimpleMovingAverage D
  pub sma_mid : SimpleMovingAverage D
  pub sma_long : SimpleMovingAverage D
  pub minute : ℤ
  pub book_ticker : Ticker D
  pub mid_closes : List D

-- The value of a signed integer of `w` bits.
abbrev to_signed : ℕ → ℕ → ℤ
to_signed w n =
    if ltb (n % 2 ^ w) (2 ^ (w - 1)) then pos (n % 2 ^ w) else pos 0 -ℤ pos (2 ^ w - n % 2 ^ w)

-- Whole minutes, rounded towards 0, of a number of microseconds of 64 bits, cut to 32 bits.
abbrev minutes : ℤ → ℤ
minutes (pos us) = to_signed 32 (us / 60000000)
minutes (negsuc us) = to_signed 32 (2 ^ 64 - (us + 1) / 60000000)

abbrev pub get_minute : ℕ → ℤ
get_minute arrived_ts_us = minutes (to_signed 64 arrived_ts_us)

module _ {ℓ} {D : Type ℓ} ⦃d : Double D⦄ where
  -- The sums of the averages and the ticker are not initialised.
  unfoldable pub new_signal : (D × D × D) → Ticker D → MarketMakingSignal D
  unfolding new_average
  new_signal (m1, m2, m3) memory = record {
    rsi = record { period = 55 };
    sma_short = new_average 8 m1;
    sma_mid = new_average 21 m2;
    sma_long = new_average 55 m3;
    minute = pos 0;
    book_ticker = memory;
    mid_closes = [];
  }

  abbrev pub mid_price : Ticker D → D
  mid_price t = d.div (d.add t.bid t.ask) (d.lit 20 1)

  -- The close of a minute.
  unfoldable pub close_minute : ℤ → D → MarketMakingSignal D → Outcome (MarketMakingSignal D)
  unfolding update_average
  close_minute mins close s = do
    sma_short ← update_average (close ∷ s.mid_closes) s.sma_short
    sma_mid ← update_average (close ∷ s.mid_closes) s.sma_mid
    sma_long ← update_average (close ∷ s.mid_closes) s.sma_long
    ok (record s {
      mid_closes = close ∷ s.mid_closes;
      sma_short = sma_short;
      sma_mid = sma_mid;
      sma_long = sma_long;
      minute = mins;
    })

  -- `MarketMakingSignal::OnBookTicker`
  unfoldable pub on_book_ticker : Ticker D → MarketMakingSignal D → Outcome (MarketMakingSignal D)
  unfolding close_minute
  on_book_ticker t s =
      if ltb_ℤ s.minute (get_minute t.arrived_ts)
      then (do
        s1 ← close_minute (get_minute t.arrived_ts) (mid_price s.book_ticker) s
        ok (record s1 { book_ticker = t }))
      else ok (record s { book_ticker = t })

  abbrev pub neutral : ℕ → MarketMakingSignal D → Prediction D
  neutral timestamp_us s = record {
    symbol = s.book_ticker.symbol;
    base_price = d.div (d.add s.book_ticker.ask s.book_ticker.bid) (d.lit 20 1);
    signal = d.of_ℕ 0;
    confidence = d.of_ℕ 0;
    timeframe_ms = 1000000;
    timestamp_us = timestamp_us;
  }

  abbrev nought : D
  nought = d.of_ℕ 0

  -- The two conditions on the averages and on their slopes.
  abbrev pub falls_back : (D × D × D) → (D × D × D) → Bool
  falls_back (short, mid, long) (slope1, slope2, slope3) =
      d.lt slope1 nought
      && d.lt nought slope2
      && d.lt nought slope3
      && d.lt mid short
      && d.lt long mid

  abbrev pub rises_back : (D × D × D) → (D × D × D) → Bool
  rises_back (short, mid, long) (slope1, slope2, slope3) =
      d.lt nought slope1
      && d.lt slope2 nought
      && d.lt slope3 nought
      && d.lt short mid
      && d.lt mid long

  abbrev pub with_trend : Bool → Prediction D → Prediction D
  with_trend trend p = if trend then record p { signal = nought; confidence = d.lit 4 2 } else p

  -- Whether the index blocks the orders.
  abbrev pub blocks : Option D → Bool
  blocks none = false
  blocks (some val) = d.lt (d.lit 600 1) val || d.lt val (d.lit 400 1)

  abbrev pub with_index : Option D → Prediction D → Prediction D
  with_index index p = if blocks index then record p { confidence = nought } else p

  -- The rest of `Predict`, once the long average has a slope, from what the indicators give.
  abbrev pub predict_from :
      Option D
      → Option D
      → Option D
      → Option D
      → Option D
      → D
      → Outcome (Option D)
      → Prediction D
      → Outcome (Prediction D)
  predict_from short_opt mid_opt long_opt slope1_opt slope2_opt slope3 strength p = do
    short ← or_throw short_opt bad_optional_access
    mid ← or_throw mid_opt bad_optional_access
    long ← or_throw long_opt bad_optional_access
    slope1 ← or_throw slope1_opt bad_optional_access
    slope2 ← or_throw slope2_opt bad_optional_access
    index ← strength
    ok (
        with_index index (
          with_trend (rises_back (short, mid, long) (slope1, slope2, slope3))
            (with_trend (falls_back (short, mid, long) (slope1, slope2, slope3)) p)))

  -- `MarketMakingSignal::Predict`
  unfoldable pub predict : ℕ → MarketMakingSignal D → Outcome (Prediction D)
  unfolding get_average get_slope calculate_strength
  predict timestamp_us s = elim (get_slope s.sma_long) [
    | none ↦ ok (neutral timestamp_us s)
    | some slope3 ↦
        predict_from (get_average s.sma_short) (get_average s.sma_mid) (get_average s.sma_long)
          (get_slope s.sma_short) (get_slope s.sma_mid) slope3
          (calculate_strength s.rsi s.mid_closes) (neutral timestamp_us s)
  ]

  -- The handlers of the tickers of a session, the newest first.
  unfoldable pub feed_signal :
      List (Ticker D) → MarketMakingSignal D → Outcome (MarketMakingSignal D)
  unfolding on_book_ticker
  feed_signal [] s = ok s
  feed_signal (t ∷ ts) s = do s1 ← feed_signal ts s; on_book_ticker t s1
