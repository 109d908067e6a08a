-- ===== src/Indicator/TrueRange.antt =====
-- The running sum of strategy/indicator/average_true_range.hpp.
use crypto_bot.Prelude.{
  ℕ, suc, ◌≤◌, ◌<◌, ◌≡◌, refl, sym, ap, ◌∙◌, inl, inr, true, false, some, List, [], ◌∷◌, map, ok,
  get_elem?, length, leb, arith, Bool-cases,
}
use crypto_bot.Prelude.Int.{ℤ, pos, ◌+ℤ◌, ◌-ℤ◌, +ℤ_assoc, +ℤ_cancel, int_laws}
use crypto_bot.Double.{exact}
use crypto_bot.Indicator.{
  AverageTrueRange, Candle, range_of, new_true_range, update_true_range, feed_true_range,
  with_range,
}
use crypto_bot.Indicator.Window.{take, total, get_elem?-lt, total_take-suc, take_all}

-- What a range has added up after some candles, newest first.
pub record IsRangeWindow (period : ℕ) (memory : ℤ) (ks : List (Candle ℤ)) (a : AverageTrueRange ℤ)
    : Type 0 where
  pub same_period : a.period ≡ period
  pub ranges : a.true_range ≡ map range_of ks
  pub summed : a.tr_sum ≡ memory +ℤ total (take period (map range_of ks))

add_last : (m t x : ℤ) → m +ℤ t +ℤ x ≡ m +ℤ (x +ℤ t)
add_last m t x = omega int_laws

replace_oldest : (m t u v x : ℤ) → t ≡ u +ℤ v → m +ℤ t -ℤ v +ℤ x ≡ m +ℤ (x +ℤ u)
replace_oldest m t u v x h =
    ap (λ y. y -ℤ v +ℤ x) (ap (λ y. m +ℤ y) h ∙ sym (+ℤ_assoc m u v))
    ∙ ap (λ y. y +ℤ x) (+ℤ_cancel (m +ℤ u) v)
    ∙ add_last m u x

leb-true : (a b : ℕ) → leb a b ≡ true → a ≤ b
leb-true a b h = ground arith

leb-false : (a b : ℕ) → leb a b ≡ false → b < a
leb-false a b h = ground arith

update_true_range-IsRangeWindow :
    (n : ℕ) (memory : ℤ) (k : Candle ℤ) (ks : List (Candle ℤ)) (a : AverageTrueRange ℤ)
    → IsRangeWindow (suc n) memory ks a
    → (a1 : AverageTrueRange ℤ) × (update_true_range k a ≡ ok a1)
      × IsRangeWindow (suc n) memory (k ∷ ks) a1
unfolding update_true_range
update_true_range-IsRangeWindow n memory k ks a w =
    let kept : a.period ≡ suc n = w.same_period in
    elim (Bool-cases (leb a.period (length a.true_range))) [
      | inl long ↦
          let enough = leb-true _ _ long in
          let (v, found) = get_elem?-lt a.true_range n (omega (arith, kept, enough)) in
          let found' : get_elem? (map range_of ks) n ≡ some v =
            ap (λ l. get_elem? l n) (sym w.ranges) ∙ found in
          (
            with_range (range_of k) (a.tr_sum -ℤ v +ℤ range_of k) a,
            rw long (rw (kept, found) refl),
            record {
              same_period = w.same_period;
              ranges = ap (λ l. range_of k ∷ l) w.ranges;
              summed =
                  ap (λ y. y -ℤ v +ℤ range_of k) w.summed
                  ∙ replace_oldest memory _ (total (take n (map range_of ks))) v (range_of k)
                      (total_take-suc (map range_of ks) n v found');
            },
          )
      | inr short ↦
          let few = leb-false _ _ short in
          let fits : length (map range_of ks) ≤ n = omega (arith, few, kept, ap length w.ranges) in
          (
            with_range (range_of k) (a.tr_sum +ℤ range_of k) a,
            rw short refl,
            record {
              same_period = w.same_period;
              ranges = ap (λ l. range_of k ∷ l) w.ranges;
              summed =
                  ap (λ y. y +ℤ range_of k) w.summed
                  ∙ add_last memory _ (range_of k)
                  ∙ ap (λ t. memory +ℤ (range_of k +ℤ total t))
                      (take_all (map range_of ks) (suc n) (omega (arith, fits))
                        ∙ sym (take_all (map range_of ks) n fits));
            },
          )
    ]

-- With a period of one or more, an average true range that is updated candle by candle never reads
-- outside of its ranges, and has at any time added up the ranges of the newest `period` candles,
-- on top of what its memory held in the sum, which the constructor does not set. Sums are exact.
pub feed_true_range-IsRangeWindow :
    (n : ℕ) (memory : ℤ) (ks : List (Candle ℤ))
    → (a : AverageTrueRange ℤ) × (feed_true_range ks (new_true_range (suc n) memory) ≡ ok a)
      × IsRangeWindow (suc n) memory ks a
unfolding feed_true_range new_true_range
feed_true_range-IsRangeWindow n memory [] = (
  new_true_range (suc n) memory,
  refl,
  record { same_period = refl; ranges = refl; summed = sym (add_zero memory) },
)
  where
    add_zero : (a : ℤ) → a +ℤ pos 0 ≡ a
    add_zero a = omega int_laws
feed_true_range-IsRangeWindow n memory (k ∷ ks) =
    let (a, fed, w) = feed_true_range-IsRangeWindow n memory ks in
    let (a1, updated, w1) = update_true_range-IsRangeWindow n memory k ks a w in
    (a1, rw fed updated, w1)
