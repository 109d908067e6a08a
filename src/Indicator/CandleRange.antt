-- ===== src/Indicator/CandleRange.antt =====
-- The range of the candles of model/candle.h that strategy/indicator/average_true_range.hpp adds
-- up.
use crypto_bot.Prelude.{◌≡◌, ap, ◌∙◌, List, [], ◌∷◌, arith}
use crypto_bot.Prelude.Int.{ℤ, ◌-ℤ◌, ◌≤ℤ◌, int_laws}
use crypto_bot.Double.{exact, min_double, max_double}
use crypto_bot.Indicator.{Candle, reset_candle, add_candle, range_of, abs}

-- A candle after some prices and volumes, newest first.
unfoldable pub add_all : List ((_ : ℤ) × ℤ) → Candle ℤ → Candle ℤ
add_all [] k = k
add_all ((val, volume) ∷ more) k = add_candle val volume (add_all more k)

record IsBetween (k : Candle ℤ) : Type 0 where
  low_open : k.l ≤ℤ k.o
  open_high : k.o ≤ℤ k.h

max_of_le : (a b : ℤ) → b ≤ℤ a → max_double a b ≡ a
max_of_le a b h = ground arith

abs_of_rise : (a b : ℤ) → b ≤ℤ a → abs (a -ℤ b) ≡ a -ℤ b
unfolding ◌-ℤ◌
abs_of_rise a b h = ground arith

abs_of_fall : (a b : ℤ) → a ≤ℤ b → abs (a -ℤ b) ≡ b -ℤ a
unfolding ◌-ℤ◌
abs_of_fall a b h = ground arith

sub_mono_left : (h o l : ℤ) → l ≤ℤ o → h -ℤ o ≤ℤ h -ℤ l
sub_mono_left h o l e = omega int_laws

sub_mono_right : (h o l : ℤ) → o ≤ℤ h → o -ℤ l ≤ℤ h -ℤ l
sub_mono_right h o l e = omega int_laws

range_between : (k : Candle ℤ) → IsBetween k → range_of k ≡ k.h -ℤ k.l
range_between k b =
    ap (λ x. max_double (max_double (k.h -ℤ k.l) x) (abs (k.l -ℤ k.o)))
      (abs_of_rise k.h k.o b.open_high)
    ∙ ap (λ x. max_double (max_double (k.h -ℤ k.l) (k.h -ℤ k.o)) x) (abs_of_fall k.l k.o b.low_open)
    ∙ ap (λ x. max_double x (k.o -ℤ k.l))
        (max_of_le (k.h -ℤ k.l) (k.h -ℤ k.o) (sub_mono_left k.h k.o k.l b.low_open))
    ∙ max_of_le (k.h -ℤ k.l) (k.o -ℤ k.l) (sub_mono_right k.h k.o k.l b.open_high)

max_right : (a b c : ℤ) → c ≤ℤ b → c ≤ℤ max_double a b
max_right a b c h = ground arith

min_right : (a b c : ℤ) → b ≤ℤ c → min_double a b ≤ℤ c
min_right a b c h = ground arith

add_all-IsBetween :
    (adds : List ((_ : ℤ) × ℤ)) (open_price volume : ℤ)
    → IsBetween (add_all adds (reset_candle open_price volume))
unfolding add_all add_candle reset_candle
add_all-IsBetween [] open_price volume = record { low_open = omega arith; open_high = omega arith }
add_all-IsBetween ((val, vol) ∷ more) open_price volume =
    let k = add_all more (reset_candle open_price volume) in
    let b = add_all-IsBetween more open_price volume in
    record {
      low_open = min_right val k.l k.o b.low_open;
      open_high = max_right val k.h k.o b.open_high;
    }

-- The range of a candle that was reset and then got any prices is its high less its low: the
-- distances of both to the open, which the code also takes the maximum of, are never more.
-- Arithmetic is exact.
pub range_of-add_all :
    (adds : List ((_ : ℤ) × ℤ)) (open_price volume : ℤ)
    → range_of (add_all adds (reset_candle open_price volume))
      ≡ (add_all adds (reset_candle open_price volume)).h
        -ℤ (add_all adds (reset_candle open_price volume)).l
range_of-add_all adds open_price volume =
    range_between (add_all adds (reset_candle open_price volume))
      (add_all-IsBetween adds open_price volume)
