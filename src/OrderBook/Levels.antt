-- ===== src/OrderBook/Levels.antt =====
-- One side of the book of model/order_book.h as a list in the order of a comparison: what an
-- upsert, a deletion and the limit on the depth do to it.
use crypto_bot.Prelude.{
  ℕ, suc, ◌+◌, ◌≤◌, ◌≡◌, refl, inl, inr, Bool, true, false, ◌==◌, ltb, if◌then◌else◌, Option, none,
  some, List, [], ◌∷◌, length, All, arith, Bool-cases,
}
use crypto_bot.OrderBook.{PriceLevel, upsert, trim, below, above}

-- The comparison of one side: a strict total order on prices.
pub record IsSide (precedes : ℕ → ℕ → Bool) : Type 0 where
  pub irrefl : (a : ℕ) → precedes a a ≡ false
  pub trans : (a b c : ℕ) → precedes a b ≡ true → precedes b c ≡ true → precedes a c ≡ true
  pub total : (a b : ℕ) → (a == b) ≡ false → precedes a b ≡ false → precedes b a ≡ true

pub below-IsSide : IsSide below
below-IsSide = ground arith

pub above-IsSide : IsSide above
above-IsSide = ground arith

module _ {ℓ} {D : Type ℓ} where
  -- The level with a price.
  unfoldable pub level_at : ℕ → List (PriceLevel D) → Option (PriceLevel D)
  level_at p [] = none
  level_at p (c ∷ cs) = if c.price == p then some c else level_at p cs

  abbrev pub Follow : (ℕ → ℕ → Bool) → ℕ → List (PriceLevel D) → Type 0
  Follow precedes p = All (λ c. precedes p c.price ≡ true)

  -- Strictly ordered, so no price stands twice.
  abbrev pub IsSorted : (ℕ → ℕ → Bool) → List (PriceLevel D) → Type 0
  IsSorted precedes [] = Unit
  IsSorted precedes (c ∷ cs) = Follow precedes c.price cs × IsSorted precedes cs

  pub level_at-upsert :
      (precedes : ℕ → ℕ → Bool) (q : ℕ) (l : PriceLevel D) (cs : List (PriceLevel D))
      → level_at q (upsert precedes l cs) ≡ (if l.price == q then some l else level_at q cs)
  unfolding level_at upsert
  level_at-upsert precedes q l [] = refl
  level_at-upsert precedes q l (c ∷ cs) = ground (arith, level_at-upsert precedes q l cs)

  pub length-upsert-le :
      (precedes : ℕ → ℕ → Bool) (l : PriceLevel D) (cs : List (PriceLevel D))
      → (length cs ≤ length (upsert precedes l cs))
        × (length (upsert precedes l cs) ≤ length cs + 1)
  unfolding upsert
  length-upsert-le precedes l [] = omega arith
  length-upsert-le precedes l (c ∷ cs) = ground (arith, length-upsert-le precedes l cs)

  pub length-trim-le :
      (depth : ℕ) (cs : List (PriceLevel D))
      → length cs ≤ depth + 1
      → length (trim depth cs) ≤ depth
  unfolding trim
  length-trim-le depth [] h = ground arith
  length-trim-le depth (c ∷ cs) h = ground arith

  pub trim_fits : (depth : ℕ) (cs : List (PriceLevel D)) → length cs ≤ depth → trim depth cs ≡ cs
  unfolding trim
  trim_fits depth cs h = ground arith

  pub trim-IsSorted :
      (precedes : ℕ → ℕ → Bool) (depth : ℕ) (cs : List (PriceLevel D))
      → IsSorted precedes cs
      → IsSorted precedes (trim depth cs)
  unfolding trim
  trim-IsSorted precedes depth [] s = ground arith
  trim-IsSorted precedes depth (c ∷ cs) s = elim (Bool-cases (ltb depth (suc (length cs)))) [
    | inl t ↦ rw t s.1
    | inr t ↦ rw t s
  ]

module _ {ℓ} {D : Type ℓ} (precedes : ℕ → ℕ → Bool) (side : IsSide precedes) where
  pub Follow-trans :
      (p q : ℕ) (cs : List (PriceLevel D))
      → precedes p q ≡ true
      → Follow precedes q cs
      → Follow precedes p cs
  Follow-trans p q [] h f = tt
  Follow-trans p q (c ∷ cs) h (f, fs) = (side.trans p q c.price h f, Follow-trans p q cs h fs)

  Follow-upsert :
      (p : ℕ) (l : PriceLevel D) (cs : List (PriceLevel D))
      → precedes p l.price ≡ true
      → Follow precedes p cs
      → Follow precedes p (upsert precedes l cs)
  unfolding upsert
  Follow-upsert p l [] h f = (h, tt)
  Follow-upsert p l (c ∷ cs) h (f, fs) = ground (arith, Follow-upsert p l cs h fs)

  -- An upsert keeps the order.
  pub upsert-IsSorted :
      (l : PriceLevel D) (cs : List (PriceLevel D))
      → IsSorted precedes cs
      → IsSorted precedes (upsert precedes l cs)
  unfolding upsert
  upsert-IsSorted l [] s = (tt, tt)
  upsert-IsSorted l (c ∷ cs) (f, s) = ground (
    arith,
    side.total l.price c.price,
    Follow-upsert c.price l cs,
    Follow-trans l.price c.price cs,
    upsert-IsSorted l cs s,
  )

  pub upsert_front :
      (l : PriceLevel D) (cs : List (PriceLevel D))
      → Follow precedes l.price cs
      → upsert precedes l cs ≡ l ∷ cs
  unfolding upsert
  upsert_front l [] f = refl
  upsert_front l (c ∷ cs) (f, fs) = ground (arith, side.irrefl l.price)

  pub Follow-level_at :
      (p : ℕ) (cs : List (PriceLevel D)) → Follow precedes p cs → level_at p cs ≡ none
  unfolding level_at
  Follow-level_at p [] f = refl
  Follow-level_at p (c ∷ cs) (f, fs) = ground (arith, side.irrefl p, Follow-level_at p cs fs)
