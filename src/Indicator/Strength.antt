-- ===== src/Indicator/Strength.antt =====
-- strategy/indicator/relative_strength_index.cc. The closes are a list with the newest first, so
-- that `close_values[sz - 1 - k]` is its element `k`.
use crypto_bot.Prelude.{
  ℕ, zero, suc, ◌+◌, ◌-◌, ◌^◌, ◌<◌, ◌≡◌, refl, sym, ap, ◌∙◌, false, if◌then◌else◌, Option, none,
  some, List, [], ◌∷◌, Outcome, ok, throws, ◌>>=◌, or_throw, undefined, aborted, get_elem?, length,
  leb, arith, inl, inr, Bool-cases,
}
use crypto_bot.Double.{Double}
use crypto_bot.Indicator.Window.{get_elem?-lt}
use mathlib.Core.Option.{some-injective}

pub record RelativeStrengthIndex : Type 0 where
  pub period : ℕ

-- The constructor asserts that the period is not 0.
unfoldable pub new_strength : ℕ → Outcome RelativeStrengthIndex
new_strength zero = throws aborted
new_strength (suc k) = ok (record { period = suc k })

-- What a price has gained and lost, or the averages of it.
pub record Changes {ℓ} (D : Type ℓ) : Type ℓ where
  pub up : D
  pub down : D

above : (a b : ℕ) → leb a b ≡ false → b < a
above a b h = ground arith

module _ {ℓ} {D : Type ℓ} ⦃d : Double D⦄ where
  -- `CalcuateChanges`
  abbrev pub calcuate_changes : D → D → Changes D
  calcuate_changes prev curr =
      if d.lt prev curr
      then record { up = d.sub curr prev; down = d.of_ℕ 0 }
      else record { up = d.of_ℕ 0; down = d.sub prev curr }

  abbrev pub smooth : ℕ → D → D → D
  smooth zero avg change = d.div (d.add (d.mul avg (d.of_ℕ (2 ^ 64 - 1))) change) (d.of_ℕ 0)
  smooth (suc k) avg change = d.div (d.add (d.mul avg (d.of_ℕ k)) change) (d.of_ℕ (suc k))

  -- One turn of the loop.
  abbrev pub smooth_changes : ℕ → Changes D → Changes D → Changes D
  smooth_changes period avg change = record {
    up = smooth period avg.up change.up;
    down = smooth period avg.down change.down;
  }

  -- The loop over the closes `k - 1` to 0 from the newest.
  unfoldable pub smooth_closes : ℕ → ℕ → List D → Changes D → Outcome (Changes D)
  smooth_closes period zero closes avg = ok avg
  smooth_closes period (suc k) closes avg = do
    prev ← or_throw (get_elem? closes (suc k)) undefined
    curr ← or_throw (get_elem? closes k) undefined
    smooth_closes period k closes (smooth_changes period avg (calcuate_changes prev curr))

  abbrev pub strength_of : Changes D → D
  strength_of avg =
      if d.eq avg.down (d.of_ℕ 0)
      then d.lit 1000 1
      else d.sub (d.lit 1000 1) (d.div (d.lit 1000 1) (d.add (d.lit 10 1) (d.div avg.up avg.down)))

  -- From the first of the closes that count, with a period of `k + 1`.
  unfoldable pub strength_after : ℕ → List D → Outcome (Option D)
  unfolding smooth_closes
  strength_after k closes = do
    prev ← or_throw (get_elem? closes (suc k)) undefined
    curr ← or_throw (get_elem? closes k) undefined
    avg ← smooth_closes (suc k) k closes (calcuate_changes prev curr)
    ok (some (strength_of avg))

  -- `RelativeStrengthIndex::Calculate`. With a period of 0 the first close that the code reads
  -- stands behind the end.
  unfoldable pub calculate_strength : RelativeStrengthIndex → List D → Outcome (Option D)
  unfolding strength_after
  calculate_strength s closes =
      if leb (length closes) s.period then ok none else from_first s.period
    where
      from_first : ℕ → Outcome (Option D)
      from_first zero = throws undefined
      from_first (suc k) = strength_after k closes

  -- The averages of the newest `n` changes, each weighed into the average of those before it.
  unfoldable pub averages : ℕ → ℕ → List D → Changes D
  averages period (suc zero) (x ∷ y ∷ ys) = calcuate_changes y x
  averages period (suc (suc n)) (x ∷ y ∷ ys) =
      smooth_changes period (averages period (suc n) (y ∷ ys)) (calcuate_changes y x)
  averages period n xs = record { up = d.of_ℕ 0; down = d.of_ℕ 0 }

  abbrev drop : ℕ → List D → List D
  drop zero xs = xs
  drop (suc k) [] = []
  drop (suc k) (x ∷ xs) = drop k xs

  averages_one :
      (period k : ℕ) (xs : List D) (prev curr : D)
      → get_elem? xs (suc k) ≡ some prev
      → get_elem? xs k ≡ some curr
      → averages period 1 (drop k xs) ≡ calcuate_changes prev curr
  unfolding averages
  averages_one period k [] prev curr e1 e2 = absurd cc
  averages_one period zero (x ∷ []) prev curr e1 e2 = absurd cc
  averages_one period zero (x ∷ y ∷ ys) prev curr e1 e2 =
      ap (λ a. calcuate_changes a x) (some-injective y prev e1)
      ∙ ap (calcuate_changes prev) (some-injective x curr e2)
  averages_one period (suc k) (x ∷ xs) prev curr e1 e2 = averages_one period k xs prev curr e1 e2

  averages-suc :
      (period n k : ℕ) (xs : List D) (prev curr : D)
      → get_elem? xs (suc k) ≡ some prev
      → get_elem? xs k ≡ some curr
      → averages period (suc (suc n)) (drop k xs)
        ≡ smooth_changes period
            (averages period (suc n) (drop (suc k) xs))
            (calcuate_changes prev curr)
  unfolding averages
  averages-suc period n k [] prev curr e1 e2 = absurd cc
  averages-suc period n zero (x ∷ []) prev curr e1 e2 = absurd cc
  averages-suc period n zero (x ∷ y ∷ ys) prev curr e1 e2 =
      ap (smooth_changes period (averages period (suc n) (y ∷ ys))) (
        ap (λ a. calcuate_changes a x) (some-injective y prev e1)
        ∙ ap (calcuate_changes prev) (some-injective x curr e2))
  averages-suc period n (suc k) (x ∷ xs) prev curr e1 e2 =
      averages-suc period n k xs prev curr e1 e2

  smooth_closes-averages :
      (period n k : ℕ) (xs : List D)
      → k + suc n < length xs
      → smooth_closes period k xs (averages period (suc n) (drop k xs))
        ≡ ok (averages period (k + suc n) xs)
  unfolding smooth_closes
  smooth_closes-averages period n zero xs b = ap (λ m. ok (averages period m xs)) (omega arith)
  smooth_closes-averages period n (suc k) xs b =
      let (prev, e1) = get_elem?-lt xs (suc k) (omega (arith, b)) in
      let (curr, e2) = get_elem?-lt xs k (omega (arith, b)) in
      rw (e1, e2)
        (ap (smooth_closes period k xs) (sym (averages-suc period n k xs prev curr e1 e2))
          ∙ smooth_closes-averages period (suc n) k xs (omega (arith, b))
          ∙ ap (λ m. ok (averages period m xs)) (omega arith))

  strength_after-averages :
      (k : ℕ) (closes : List D)
      → suc k < length closes
      → strength_after k closes ≡ ok (some (strength_of (averages (suc k) (suc k) closes)))
  unfolding strength_after
  strength_after-averages k closes b =
      let (prev, e1) = get_elem?-lt closes (suc k) b in
      let (curr, e2) = get_elem?-lt closes k (omega (arith, b)) in
      let smoothed = smooth_closes-averages (suc k) 0 k closes (omega (arith, b)) in
      rw (e1, e2, sym (averages_one (suc k) k closes prev curr e1 e2), smoothed)
        (ap (λ m. ok (some (strength_of (averages (suc k) m closes)))) (omega arith))

  -- With a period of one or more, the index of some closes is always computed, without a read
  -- outside of them: there is none where the closes are not more than the period, and it is
  -- otherwise the index of the averages that the newest `period` changes have when each change is
  -- weighed into the average of those before it. Older closes do not count.
  pub calculate_strength-averages :
      (k : ℕ) (closes : List D)
      → calculate_strength (record { period = suc k }) closes ≡ (
          if leb (length closes) (suc k)
          then ok none
          else ok (some (strength_of (averages (suc k) (suc k) closes))))
  unfolding calculate_strength
  calculate_strength-averages k closes = elim (Bool-cases (leb (length closes) (suc k))) [
    | inl few ↦ rw few refl
    | inr enough ↦ rw enough (strength_after-averages k closes (above _ _ enough))
  ]
