-- ===== src/Assoc.antt =====
-- The standard maps, as association lists. The order of the list is the order of iteration.
use crypto_bot.Prelude.{
  ◌≡◌, refl, sym, ◌∙◌, inl, inr, ◌↔◌, Bool, true, false, Option, none, some, List, [], ◌∷◌, arith,
  if◌then◌else◌, Bool-cases, All,
}

-- Keys that are compared by `==`.
pub record Eq {ℓ} (K : Type ℓ) : Type ℓ where
  pub beq : K → K → Bool
  pub beq_iff : (a b : K) → (beq a b ≡ true) ↔ (a ≡ b)

module _ {ℓ} {K : Type ℓ} ⦃e : Eq K⦄ where
  pub beq_refl : (k : K) → e.beq k k ≡ true
  beq_refl k = (e.beq_iff k k).1 refl

  pub eq_of_beq : (a b : K) → e.beq a b ≡ true → a ≡ b
  eq_of_beq a b = (e.beq_iff a b).0

  pub beq_comm : (a b : K) → e.beq a b ≡ e.beq b a
  beq_comm a b = elim (Bool-cases (e.beq a b)) [
    | inl t ↦ elim (Bool-cases (e.beq b a)) [
      | inl u ↦ t ∙ sym u
      | inr u ↦ cc (beq_refl a, eq_of_beq a b t)
    ]
    | inr t ↦ elim (Bool-cases (e.beq b a)) [
      | inl u ↦ cc (beq_refl a, eq_of_beq b a u)
      | inr u ↦ t ∙ sym u
    ]
  ]

module _ {ℓ κ} {K : Type ℓ} {V : Type κ} ⦃e : Eq K⦄ where
  -- `find`, and `at` where the caller has looked first.
  unfoldable pub find : K → List (K × V) → Option V
  find k [] = none
  find k ((j, v) ∷ m) = if e.beq j k then some v else find k m

  unfoldable pub insert_or_assign : K → V → List (K × V) → List (K × V)
  insert_or_assign k v [] = (k, v) ∷ []
  insert_or_assign k v ((j, w) ∷ m) =
      if e.beq j k then (k, v) ∷ m else (j, w) ∷ insert_or_assign k v m

  -- `emplace` keeps the value of a key that is there.
  unfoldable pub emplace : K → V → List (K × V) → List (K × V)
  unfolding find
  emplace k v m = elim (find k m) [ none ↦ insert_or_assign k v m | some w ↦ m ]

  unfoldable pub erase : K → List (K × V) → List (K × V)
  erase k [] = []
  erase k ((j, w) ∷ m) = if e.beq j k then m else (j, w) ∷ erase k m

  -- No key stands twice.
  abbrev pub IsAbsent : K → List (K × V) → Type 0
  IsAbsent k = All (λ p. e.beq p.0 k ≡ false)

  abbrev pub HasDistinctKeys : List (K × V) → Type 0
  HasDistinctKeys [] = Unit
  HasDistinctKeys ((k, v) ∷ m) = IsAbsent k m × HasDistinctKeys m

  pub find-insert_or_assign :
      (k j : K) (v : V) (m : List (K × V))
      → find j (insert_or_assign k v m) ≡ (if e.beq k j then some v else find j m)
  unfolding find insert_or_assign
  find-insert_or_assign k j v [] = refl
  find-insert_or_assign k j v ((i, w) ∷ m) =
      ground (arith, e.beq_iff k j, e.beq_iff i k, e.beq_iff i j, find-insert_or_assign k j v m)

  IsAbsent-find : (k : K) (m : List (K × V)) → IsAbsent k m → find k m ≡ none
  unfolding find
  IsAbsent-find k [] a = refl
  IsAbsent-find k ((i, w) ∷ m) (a, as') = rw a (IsAbsent-find k m as')

  pub find-erase :
      (k j : K) (m : List (K × V))
      → HasDistinctKeys m
      → find j (erase k m) ≡ (if e.beq k j then none else find j m)
  unfolding find erase
  find-erase k j [] d = ground arith
  find-erase k j ((i, w) ∷ m) (a, d) =
      ground (
        arith,
        e.beq_iff k j,
        e.beq_iff i k,
        e.beq_iff i j,
        find-erase k j m d,
        IsAbsent-find i m a,
      )

  IsAbsent-insert_or_assign :
      (k j : K) (v : V) (m : List (K × V))
      → e.beq k j ≡ false
      → IsAbsent j m
      → IsAbsent j (insert_or_assign k v m)
  unfolding insert_or_assign
  IsAbsent-insert_or_assign k j v [] n a = (n, tt)
  IsAbsent-insert_or_assign k j v ((i, w) ∷ m) n (a, as') =
      ground (arith, IsAbsent-insert_or_assign k j v m n as')

  IsAbsent-erase : (k j : K) (m : List (K × V)) → IsAbsent j m → IsAbsent j (erase k m)
  unfolding erase
  IsAbsent-erase k j [] a = tt
  IsAbsent-erase k j ((i, w) ∷ m) (a, as') = ground (arith, IsAbsent-erase k j m as')

  pub insert_or_assign-HasDistinctKeys :
      (k : K) (v : V) (m : List (K × V))
      → HasDistinctKeys m
      → HasDistinctKeys (insert_or_assign k v m)
  unfolding insert_or_assign
  insert_or_assign-HasDistinctKeys k v [] d = (tt, tt)
  insert_or_assign-HasDistinctKeys k v ((i, w) ∷ m) (a, d) = ground (
    arith,
    e.beq_iff i k,
    e.beq_iff k i,
    insert_or_assign-HasDistinctKeys k v m d,
    IsAbsent-insert_or_assign k i v m,
  )

  pub erase-HasDistinctKeys :
      (k : K) (m : List (K × V)) → HasDistinctKeys m → HasDistinctKeys (erase k m)
  unfolding erase
  erase-HasDistinctKeys k [] d = tt
  erase-HasDistinctKeys k ((i, w) ∷ m) (a, d) =
      ground (arith, erase-HasDistinctKeys k m d, IsAbsent-erase k i m a)

  pub emplace_absent :
      (k : K) (v : V) (m : List (K × V)) → find k m ≡ none → emplace k v m ≡ insert_or_assign k v m
  unfolding emplace
  emplace_absent k v m h = rw (h, emplace)

  -- Erasing what was just inserted.
  pub erase-insert_or_assign :
      (k : K) (v : V) (m : List (K × V)) → find k m ≡ none → erase k (insert_or_assign k v m) ≡ m
  unfolding erase insert_or_assign find
  erase-insert_or_assign k v [] h = rw (beq_refl k)
  erase-insert_or_assign k v ((i, w) ∷ m) h = ground (arith, erase-insert_or_assign k v m)

  pub insert_or_assign-insert_or_assign :
      (k : K) (v w : V) (m : List (K × V))
      → insert_or_assign k w (insert_or_assign k v m) ≡ insert_or_assign k w m
  unfolding insert_or_assign
  insert_or_assign-insert_or_assign k v w [] = rw (beq_refl k)
  insert_or_assign-insert_or_assign k v w ((i, u) ∷ m) =
      ground (arith, beq_refl k, insert_or_assign-insert_or_assign k v w m)
