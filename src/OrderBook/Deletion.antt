-- ===== src/OrderBook/Deletion.antt =====
-- `OrderBook::Delete` of model/order_book.h: in a sorted side the walk from the end erases the one
-- level with the price.
use mathlib.Core.List.{append-nil, reverse-cons, reverse-append, reverse-reverse}
use crypto_bot.Prelude.{
  ℕ, ◌≤◌, ◌≡◌, refl, ◌∙◌, ap, inl, inr, Bool, false, ◌||◌, ◌==◌, if◌then◌else◌, none, List, [], ◌∷◌,
  ◌++◌, reverse, length, arith, Bool-cases,
}
use crypto_bot.OrderBook.{PriceLevel, erase_first, delete_level}
use crypto_bot.OrderBook.Levels.{level_at, Follow, IsSorted, IsSide, Follow-level_at}

module _ {ℓ} {D : Type ℓ} where
  has : ℕ → List (PriceLevel D) → Bool
  has p [] = false
  has p (c ∷ cs) = c.price == p || has p cs

  has-append : (p : ℕ) (xs ys : List (PriceLevel D)) → has p (xs ++ ys) ≡ (has p xs || has p ys)
  unfolding has
  has-append p [] ys = refl
  has-append p (x ∷ xs) ys = ground (arith, has-append p xs ys)

  has-reverse : (p : ℕ) (xs : List (PriceLevel D)) → has p (reverse xs) ≡ has p xs
  unfolding has
  has-reverse p [] = refl
  has-reverse p (x ∷ xs) =
      rw (reverse-cons x xs, has-append p (reverse xs) (x ∷ []), has-reverse p xs) (ground arith)

  erase_first-append :
      (p : ℕ) (xs ys : List (PriceLevel D))
      → erase_first p (xs ++ ys)
        ≡ (if has p xs then erase_first p xs ++ ys else xs ++ erase_first p ys)
  unfolding erase_first has
  erase_first-append p [] ys = refl
  erase_first-append p (x ∷ xs) ys = ground (arith, erase_first-append p xs ys)

  delete_level-cons :
      (p : ℕ) (c : PriceLevel D) (cs : List (PriceLevel D))
      → delete_level p (c ∷ cs)
        ≡ (if has p cs then c ∷ delete_level p cs else if c.price == p then cs else c ∷ cs)
  unfolding delete_level erase_first
  delete_level-cons p c cs =
      rw (reverse-cons c cs, erase_first-append p (reverse cs) (c ∷ []), has-reverse p cs)
        elim (Bool-cases (has p cs)) [
          | inl t ↦ rw t (reverse-append (erase_first p (reverse cs)) (c ∷ []))
          | inr t ↦ elim (Bool-cases (c.price == p)) [
            | inl u ↦ rw (t, u) (simp (append-nil, reverse-reverse))
            | inr u ↦
                rw (t, u) (reverse-append (reverse cs) (c ∷ []) ∙ ap (◌∷◌ c) (reverse-reverse cs))
          ]
        ]

  has-level_at : (p : ℕ) (cs : List (PriceLevel D)) → level_at p cs ≡ none → has p cs ≡ false
  unfolding has level_at
  has-level_at p [] e = refl
  has-level_at p (c ∷ cs) e = ground (arith, has-level_at p cs)

  level_at-has : (p : ℕ) (cs : List (PriceLevel D)) → has p cs ≡ false → level_at p cs ≡ none
  unfolding has level_at
  level_at-has p [] e = refl
  level_at-has p (c ∷ cs) e = ground (arith, level_at-has p cs)

  has_none : (p : ℕ) (cs : List (PriceLevel D)) → has p cs ≡ false → delete_level p cs ≡ cs
  unfolding has delete_level
  has_none p [] e = refl
  has_none p (c ∷ cs) e = ground (arith, delete_level-cons p c cs)

  pub length-delete_level-le :
      (p : ℕ) (cs : List (PriceLevel D)) → length (delete_level p cs) ≤ length cs
  unfolding delete_level
  length-delete_level-le p [] = omega arith
  length-delete_level-le p (c ∷ cs) =
      ground (arith, delete_level-cons p c cs, length-delete_level-le p cs)

module _ {ℓ} {D : Type ℓ} (precedes : ℕ → ℕ → Bool) (side : IsSide precedes) where
  Follow-delete_level :
      (p q : ℕ) (cs : List (PriceLevel D))
      → Follow precedes p cs
      → Follow precedes p (delete_level q cs)
  unfolding delete_level
  Follow-delete_level p q [] f = tt
  Follow-delete_level p q (c ∷ cs) (f, fs) =
      ground (arith, delete_level-cons q c cs, Follow-delete_level p q cs fs)

  -- A deletion keeps the order.
  pub delete_level-IsSorted :
      (q : ℕ) (cs : List (PriceLevel D))
      → IsSorted precedes cs
      → IsSorted precedes (delete_level q cs)
  unfolding delete_level
  delete_level-IsSorted q [] s = tt
  delete_level-IsSorted q (c ∷ cs) (f, s) = ground (
    arith,
    delete_level-cons q c cs,
    Follow-delete_level c.price q cs f,
    delete_level-IsSorted q cs s,
  )

  -- A deletion removes the level with the price, and no other.
  pub level_at-delete_level :
      (p q : ℕ) (cs : List (PriceLevel D))
      → IsSorted precedes cs
      → level_at q (delete_level p cs) ≡ (if p == q then none else level_at q cs)
  unfolding level_at has
  level_at-delete_level p q [] s = rw (has_none {D = D} p [] refl) (ground arith)
  level_at-delete_level p q (c ∷ cs) (f, s) = ground (
    arith,
    delete_level-cons p c cs,
    level_at-delete_level p q cs s,
    Follow-level_at precedes side c.price cs f,
    has-level_at p cs,
    level_at-has p cs,
  )
