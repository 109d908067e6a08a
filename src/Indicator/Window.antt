-- ===== src/Indicator/Window.antt =====
-- Sums over the newest values of a series.
use crypto_bot.Prelude.{
  ℕ, zero, suc, ◌≤◌, ◌<◌, ◌≡◌, refl, sym, ap, ◌∙◌, some, List, [], ◌∷◌, get_elem?, length, arith,
}
use crypto_bot.Prelude.Int.{ℤ, pos, ◌+ℤ◌, +ℤ_assoc, int_laws}
use mathlib.Core.Option.{some-injective}

-- The newest `n` values of a series.
abbrev pub take {ℓ} : {A : Type ℓ} → ℕ → List A → List A
take zero xs = []
take (suc n) [] = []
take (suc n) (x ∷ xs) = x ∷ take n xs

abbrev pub total : List ℤ → ℤ
total [] = pos 0
total (x ∷ xs) = x +ℤ total xs

pub get_elem?-lt {ℓ} :
    {A : Type ℓ} (xs : List A) (k : ℕ) → k < length xs → (v : A) × (get_elem? xs k ≡ some v)
get_elem?-lt [] k h = absurd (omega arith)
get_elem?-lt (x ∷ xs) zero h = (x, refl)
get_elem?-lt (x ∷ xs) (suc k) h = get_elem?-lt xs k (omega arith)

total_zero : (v : ℤ) → v +ℤ pos 0 ≡ pos 0 +ℤ v
total_zero v = omega int_laws

pub total_take-suc :
    (xs : List ℤ) (k : ℕ) (v : ℤ)
    → get_elem? xs k ≡ some v
    → total (take (suc k) xs) ≡ total (take k xs) +ℤ v
total_take-suc [] k v h = absurd cc
total_take-suc (x ∷ xs) zero v h = ap (λ y. y +ℤ pos 0) (some-injective x v h) ∙ total_zero v
total_take-suc (x ∷ xs) (suc k) v h =
    ap (λ t. x +ℤ t) (total_take-suc xs k v h) ∙ sym (+ℤ_assoc x (total (take k xs)) v)

pub take_all {ℓ} : {A : Type ℓ} (xs : List A) (n : ℕ) → length xs ≤ n → take n xs ≡ xs
take_all [] zero h = refl
take_all [] (suc n) h = refl
take_all (x ∷ xs) zero h = absurd (omega arith)
take_all (x ∷ xs) (suc n) h = ap (λ t. x ∷ t) (take_all xs n (omega arith))
