-- ===== src/QuickMath.antt =====
-- utils/math.cc: powers of ten from a table of ten entries.
use crypto_bot.Prelude.{
  ℕ, ◌^◌, ◌<◌, ◌≡◌, refl, arith, List, [], ◌∷◌, get_elem?, Outcome, ok, undefined, or_throw, zero,
  suc,
}

abbrev pow10 : List ℕ
pow10 = 1 ∷ 10 ∷ 100 ∷ 1000 ∷ 10000 ∷ 100000 ∷ 1000000 ∷ 10000000 ∷ 100000000 ∷ 1000000000 ∷ []

-- `quick_pow10(n)` for `n` that is not negative. A read behind the table is undefined.
unfoldable pub quick_pow10 : ℕ → Outcome ℕ
quick_pow10 n = or_throw (get_elem? pow10 n) undefined

-- Below ten the table holds the power of ten.
pub quick_pow10-eq-pow : (n : ℕ) → n < 10 → quick_pow10 n ≡ ok (10 ^ n)
unfolding quick_pow10
quick_pow10-eq-pow zero h = refl
quick_pow10-eq-pow (suc zero) h = refl
quick_pow10-eq-pow (suc (suc zero)) h = refl
quick_pow10-eq-pow (suc (suc (suc zero))) h = refl
quick_pow10-eq-pow (suc (suc (suc (suc zero)))) h = refl
quick_pow10-eq-pow (suc (suc (suc (suc (suc zero))))) h = refl
quick_pow10-eq-pow (suc (suc (suc (suc (suc (suc zero)))))) h = refl
quick_pow10-eq-pow (suc (suc (suc (suc (suc (suc (suc zero))))))) h = refl
quick_pow10-eq-pow (suc (suc (suc (suc (suc (suc (suc (suc zero)))))))) h = refl
quick_pow10-eq-pow (suc (suc (suc (suc (suc (suc (suc (suc (suc zero))))))))) h = refl
quick_pow10-eq-pow (suc (suc (suc (suc (suc (suc (suc (suc (suc (suc n)))))))))) h =
    absurd (omega arith)
