-- ===== src/Indicator.antt =====
-- strategy/indicator: figures that are computed as prices arrive. A vector is a list with its
-- newest element first, so that `v[v.size() - 1 - k]` is its element `k`.
pub mod Window
pub mod MovingAverage
pub mod TrueRange
pub mod CandleRange
pub mod Strength
pub mod Rising
mod Tests
use crypto_bot.Prelude.{
  ℕ, zero, suc, ◌+◌, ◌%◌, ◌^◌, if◌then◌else◌, Option, none, some, List, [], ◌∷◌, Outcome, ok,
  throws, ◌>>=◌, or_throw, undefined, aborted, out_of_range, get_elem?, length, ltb, leb,
}
use crypto_bot.Double.{Double, min_double, max_double}

pub record SimpleMovingAverage {ℓ} (D : Type ℓ) : Type ℓ where
  pub period : ℕ
  pub smas : List D
  pub sum : D
  pub count : ℕ

-- `struct Candle` of model/candle.h.
pub record Candle {ℓ} (D : Type ℓ) : Type ℓ where
  pub o : D
  pub h : D
  pub l : D
  pub c : D
  pub vol : D

pub record AverageTrueRange {ℓ} (D : Type ℓ) : Type ℓ where
  pub period : ℕ
  pub true_range : List D
  pub atr : List D
  pub tr_sum : D

module _ {ℓ} {D : Type ℓ} ⦃d : Double D⦄ where
  -- The constructor does not set the sum, which is what the memory holds.
  unfoldable pub new_average : ℕ → D → SimpleMovingAverage D
  new_average period memory = record { period = period; smas = []; sum = memory; count = 0 }

  -- From the number of updates on, with the sum that the new value has made.
  abbrev pub with_sum : ℕ → D → SimpleMovingAverage D → SimpleMovingAverage D
  with_sum count total s = record s {
    count = count;
    sum = total;
    smas = if leb s.period count then d.div total (d.of_ℕ s.period) ∷ s.smas else s.smas;
  }

  -- `SimpleMovingAverage::Update`
  unfoldable pub update_average : List D → SimpleMovingAverage D → Outcome (SimpleMovingAverage D)
  update_average series s =
      if ltb (length series) s.count
      then throws aborted
      else (let count = (s.count + 1) % 2 ^ 64 in
          do
            last ← or_throw (get_elem? series 0) undefined
            if ltb s.period count
                then (do
                  oldest ← or_throw (get_elem? series s.period) undefined
                  ok (with_sum count (d.sub (d.add s.sum last) oldest) s))
                else ok (with_sum count (d.add s.sum last) s))

  unfoldable pub reset_average : SimpleMovingAverage D → SimpleMovingAverage D
  reset_average s = record s { smas = []; sum = d.of_ℕ 0; count = 0 }

  unfoldable pub get_average : SimpleMovingAverage D → Option D
  get_average s = get_elem? s.smas 0

  abbrev pub slope : List D → Option D
  slope [] = none
  slope (a ∷ []) = none
  slope (a ∷ b ∷ ds) = some (d.sub a b)

  unfoldable pub get_slope : SimpleMovingAverage D → Option D
  get_slope s = slope s.smas

  -- A series that grows by one value before every update.
  unfoldable pub feed_average : List D → SimpleMovingAverage D → Outcome (SimpleMovingAverage D)
  unfolding update_average
  feed_average [] s = ok s
  feed_average (x ∷ xs) s = do s1 ← feed_average xs s; update_average (x ∷ xs) s1

  abbrev pub empty_candle : D → Candle D
  empty_candle memory = record {
    o = d.of_ℕ 0;
    h = d.of_ℕ 0;
    l = d.of_ℕ 0;
    c = d.of_ℕ 0;
    vol = memory;
  }

  unfoldable pub reset_candle : D → D → Candle D
  reset_candle open_price volume = record {
    o = open_price;
    h = open_price;
    l = open_price;
    c = open_price;
    vol = volume;
  }

  unfoldable pub add_candle : D → D → Candle D → Candle D
  add_candle val volume k = record k {
    h = max_double val k.h;
    l = min_double val k.l;
    c = val;
    vol = d.add k.vol volume;
  }

  abbrev pub abs : D → D
  abs a = if d.lt a (d.of_ℕ 0) then d.neg a else a

  -- The range of a candle.
  abbrev pub range_of : Candle D → D
  range_of k = max_double (max_double (d.sub k.h k.l) (abs (d.sub k.h k.o))) (abs (d.sub k.l k.o))

  unfoldable pub new_true_range : ℕ → D → AverageTrueRange D
  new_true_range period memory = record {
    period = period;
    true_range = [];
    atr = [];
    tr_sum = memory;
  }

  abbrev pub with_range : D → D → AverageTrueRange D → AverageTrueRange D
  with_range range total a = record a {
    true_range = range ∷ a.true_range;
    tr_sum = total;
    atr = d.div total (d.of_ℕ a.period) ∷ a.atr;
  }

  -- `AverageTrueRange::Update`. The oldest range has the index `sz - period`, so it is the element
  -- `period - 1` from the newest one; with a period of 0 the code reads behind the end.
  abbrev pub oldest_range : ℕ → List D → Outcome D
  oldest_range zero ranges = throws undefined
  oldest_range (suc k) ranges = or_throw (get_elem? ranges k) undefined

  unfoldable pub update_true_range : Candle D → AverageTrueRange D → Outcome (AverageTrueRange D)
  update_true_range k a =
      if leb a.period (length a.true_range)
      then (do
        oldest ← oldest_range a.period a.true_range
        ok (with_range (range_of k) (d.add (d.sub a.tr_sum oldest) (range_of k)) a))
      else ok (with_range (range_of k) (d.add a.tr_sum (range_of k)) a)

  unfoldable pub feed_true_range :
      List (Candle D) → AverageTrueRange D → Outcome (AverageTrueRange D)
  unfolding update_true_range
  feed_true_range [] a = ok a
  feed_true_range (k ∷ ks) a = do a1 ← feed_true_range ks a; update_true_range k a1

  unfoldable pub get_true_range : AverageTrueRange D → Outcome D
  get_true_range a = or_throw (get_elem? a.atr 0) out_of_range
