-- ===== src/Double/Strict.antt =====
-- What follows from a strict order on the type `double`.
use mathlib.Core.Path.{subst}
use crypto_bot.Prelude.{◌≡◌, refl, sym, ◌⊎◌, inl, inr, true, false, Bool-cases}
use crypto_bot.Double.{Double, IsStrict, min_double}

module _ {ℓ} {D : Type ℓ} ⦃d : Double D⦄ (strict : IsStrict D) where
  -- A number and one that is at least as great: the same one or a greater one.
  abbrev pub IsUp : D → D → Type ℓ
  IsUp a b = (a ≡ b) ⊎ (d.lt a b ≡ true)

  pub IsUp-trans : (a b c : D) → IsUp a b → IsUp b c → IsUp a c
  IsUp-trans a b c (inl e) h = subst (λ x. IsUp x c) (sym e) h
  IsUp-trans a b c (inr l) (inl e) = inr cc
  IsUp-trans a b c (inr l) (inr m) = inr (strict.lt_trans a b c l m)

  pub not_above : (a b c : D) → d.lt a c ≡ false → IsUp a b → d.lt b c ≡ false
  not_above a b c h (inl e) = cc
  not_above a b c h (inr l) = elim (Bool-cases (d.lt b c)) [
    | inl m ↦ cc (strict.lt_trans a b c l m)
    | inr m ↦ m
  ]

  pub not_below : (a b c : D) → d.lt c a ≡ false → IsUp b a → d.lt c b ≡ false
  not_below a b c h (inl e) = cc
  not_below a b c h (inr l) = elim (Bool-cases (d.lt c b)) [
    | inl m ↦ cc (strict.lt_trans c b a m l)
    | inr m ↦ m
  ]

  pub min_double-IsUp : (a b : D) → IsUp (min_double a b) a
  min_double-IsUp a b = elim (Bool-cases (d.lt b a)) [
    | inl e ↦ rw e (inr e)
    | inr e ↦ rw e (inl refl)
  ]

  pub min_double_second : (a b : D) → d.lt b (min_double a b) ≡ false
  min_double_second a b = elim (Bool-cases (d.lt b a)) [
    | inl e ↦ rw e (strict.lt_irrefl b)
    | inr e ↦ rw e e
  ]
