-- ===== src/Indicator/Rising.antt =====
-- The index of strategy/indicator/relative_strength_index.cc where prices only rise.
use crypto_bot.Prelude.{
  ℕ, zero, suc, ◌<◌, ◌≡◌, refl, ◌∙◌, true, false, some, List, [], ◌∷◌, ok, length, leb, arith,
}
use crypto_bot.Prelude.Int.{ℤ, pos, ltb_ℤ, ◌+ℤ◌, ◌*ℤ◌}
use crypto_bot.Double.{exact}
use crypto_bot.Indicator.Strength.{
  Changes, calculate_strength, averages, smooth, smooth_changes, calcuate_changes,
  calculate_strength-averages,
}

-- Each of the newest `n` changes is a rise.
pub data IsRising : ℕ → List ℤ → Type 0 where
  done : {xs : List ℤ} → IsRising 0 xs
  rise :
      {n : ℕ} {x y : ℤ} {ys : List ℤ}
      → ltb_ℤ y x ≡ true
      → IsRising n (y ∷ ys)
      → IsRising (suc n) (x ∷ y ∷ ys)

smooth_zero : (k : ℕ) → smooth (suc k) (pos 0) (pos 0) ≡ pos 0
unfolding ◌*ℤ◌ ◌+ℤ◌
smooth_zero k = ground arith

smooth_changes-down :
    (period : ℕ) (avg change : Changes ℤ)
    → avg.down ≡ pos 0
    → change.down ≡ pos 0
    → (smooth_changes (suc period) avg change).down ≡ pos 0
smooth_changes-down period avg change h1 h2 = rw (h1, h2) (smooth_zero period)

rise-down : (x y : ℤ) → ltb_ℤ y x ≡ true → (calcuate_changes y x).down ≡ pos 0
rise-down x y h = rw h refl

averages-down :
    (period n : ℕ) (xs : List ℤ) → IsRising n xs → (averages (suc period) n xs).down ≡ pos 0
unfolding averages
averages-down period zero [] done = refl
averages-down period zero (x ∷ []) done = refl
averages-down period zero (x ∷ y ∷ ys) done = refl
averages-down period (suc zero) [] r = elim r [ ]
averages-down period (suc zero) (x ∷ []) r = elim r [ ]
averages-down period (suc zero) (x ∷ y ∷ ys) (rise h r) = rise-down x y h
averages-down period (suc (suc n)) [] r = elim r [ ]
averages-down period (suc (suc n)) (x ∷ []) r = elim r [ ]
averages-down period (suc (suc n)) (x ∷ y ∷ ys) (rise h r) =
    smooth_changes-down period (averages (suc period) (suc n) (y ∷ ys)) (calcuate_changes y x)
      (averages-down period (suc n) (y ∷ ys) r) (rise-down x y h)

within : (a b : ℕ) → b < a → leb a b ≡ false
within a b h = ground arith

-- Where each of the newest `period` changes is a rise, and there are that many, the index is 100.
-- The period is one or more, and arithmetic is exact.
pub calculate_strength-IsRising :
    (k : ℕ) (closes : List ℤ)
    → suc k < length closes
    → IsRising (suc k) closes
    → calculate_strength (record { period = suc k }) closes ≡ ok (some (pos 100))
calculate_strength-IsRising k closes b r =
    calculate_strength-averages k closes
    ∙ rw (within _ _ b) (rw (averages-down k (suc k) closes r) refl)
