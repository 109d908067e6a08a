-- ===== src/Indicator/MovingAverage.antt =====
-- The running sum of strategy/indicator/simple_moving_average.hpp.
use crypto_bot.Prelude.{
  ℕ, zero, suc, ◌+◌, ◌%◌, ◌^◌, ◌≤◌, ◌<◌, ◌≡◌, refl, sym, ap, ◌∙◌, inl, inr, false, some, List, [],
  ◌∷◌, ok, get_elem?, length, ltb, ltb→lt, arith, Bool-cases,
}
use crypto_bot.Prelude.Int.{ℤ, pos, ◌+ℤ◌, ◌-ℤ◌, +ℤ_assoc, +ℤ_cancel, int_laws}
use crypto_bot.Double.{exact}
use crypto_bot.Indicator.{SimpleMovingAverage, new_average, with_sum, update_average, feed_average}
use crypto_bot.Indicator.Window.{take, total, get_elem?-lt, total_take-suc, take_all}

-- What an average has added up after the values of a series, newest first.
pub record IsWindow (period : ℕ) (memory : ℤ) (xs : List ℤ) (s : SimpleMovingAverage ℤ)
    : Type 0 where
  pub same_period : s.period ≡ period
  pub counted : s.count ≡ length xs
  pub summed : s.sum ≡ memory +ℤ total (take period xs)

add_last : (m t x : ℤ) → m +ℤ t +ℤ x ≡ m +ℤ (x +ℤ t)
add_last m t x = omega int_laws

drop_oldest : (m t x u v : ℤ) → x +ℤ t ≡ u +ℤ v → m +ℤ t +ℤ x -ℤ v ≡ m +ℤ u
drop_oldest m t x u v h =
    ap (λ y. y -ℤ v) (add_last m t x ∙ ap (λ y. m +ℤ y) h ∙ sym (+ℤ_assoc m u v))
    ∙ +ℤ_cancel (m +ℤ u) v

add_zero : (a : ℤ) → a +ℤ pos 0 ≡ a
add_zero a = omega int_laws

false_of_le : (a b : ℕ) → b ≤ a → ltb a b ≡ false
false_of_le a b h = ground arith

le_of_false : (a b : ℕ) → ltb a b ≡ false → b ≤ a
le_of_false a b h = ground arith

no_wrap : (c n : ℕ) → c ≡ n → suc n < 2 ^ 64 → (c + 1) % 2 ^ 64 ≡ suc n
no_wrap c n e b = omega (arith, e, b)

pub update_average-IsWindow :
    (period : ℕ) (memory x : ℤ) (xs : List ℤ) (s : SimpleMovingAverage ℤ)
    → suc (length xs) < 2 ^ 64
    → IsWindow period memory xs s
    → (s1 : SimpleMovingAverage ℤ) × (update_average (x ∷ xs) s ≡ ok s1)
      × IsWindow period memory (x ∷ xs) s1
unfolding update_average
update_average-IsWindow period memory x xs s b w =
    let e0 : ltb (suc (length xs)) s.count ≡ false = false_of_le _ _ (omega (arith, w.counted)) in
    let e1 = no_wrap s.count (length xs) w.counted b in
    elim (Bool-cases (ltb s.period (suc (length xs)))) [
      | inl long ↦
          let (v, found) =
            get_elem?-lt (x ∷ xs) s.period (ltb→lt s.period (suc (length xs)) long) in
          let found' : get_elem? (x ∷ xs) period ≡ some v =
            ap (get_elem? (x ∷ xs)) (sym w.same_period) ∙ found in
          (
            with_sum (suc (length xs)) (s.sum +ℤ x -ℤ v) s,
            rw (e0, e1, long, found) refl,
            record {
              same_period = w.same_period;
              counted = refl;
              summed =
                  ap (λ y. y +ℤ x -ℤ v) w.summed
                  ∙ drop_oldest memory (total (take period xs)) x _ v
                      (total_take-suc (x ∷ xs) period v found');
            },
          )
      | inr short ↦
          let fits : suc (length xs) ≤ period =
            omega (arith, le_of_false s.period (suc (length xs)) short, w.same_period) in
          (
            with_sum (suc (length xs)) (s.sum +ℤ x) s,
            rw (e0, e1, short) refl,
            record {
              same_period = w.same_period;
              counted = refl;
              summed =
                  ap (λ y. y +ℤ x) w.summed
                  ∙ add_last memory (total (take period xs)) x
                  ∙ ap (λ t. memory +ℤ (x +ℤ total t)) (take_all xs period (omega (arith, fits)))
                  ∙ ap (λ t. memory +ℤ total t) (sym (take_all (x ∷ xs) period fits));
            },
          )
    ]

-- An average that is updated with each new value of a series never reads outside of it, and has at
-- any time added up the newest `period` values: those, on top of what its memory held in the sum,
-- which neither the constructor nor an update sets. Sums are exact, and the series has fewer than
-- 2^64 values.
pub feed_average-IsWindow :
    (period : ℕ) (memory : ℤ) (xs : List ℤ)
    → length xs < 2 ^ 64
    → (s : SimpleMovingAverage ℤ) × (feed_average xs (new_average period memory) ≡ ok s)
      × IsWindow period memory xs s
unfolding feed_average new_average
feed_average-IsWindow period memory [] b = (
  new_average period memory,
  refl,
  record { same_period = refl; counted = refl; summed = nothing period },
)
  where
    nothing : (n : ℕ) → memory ≡ memory +ℤ total (take n [])
    nothing zero = sym (add_zero memory)
    nothing (suc n) = sym (add_zero memory)
feed_average-IsWindow period memory (x ∷ xs) b =
    let (s, fed, w) = feed_average-IsWindow period memory xs (omega (arith, b)) in
    let (s1, updated, w1) = update_average-IsWindow period memory x xs s b w in
    (s1, rw fed updated, w1)
