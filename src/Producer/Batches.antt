-- ===== src/Producer/Batches.antt =====
-- The minutes that db/mongo_ticker_producer.hpp replays.
use mathlib.Core.List.{append_assoc}
use crypto_bot.Prelude.{
  ℕ, ◌+◌, ◌%◌, ◌^◌, ◌≡◌, refl, sym, ap, ◌∙◌, true, false, inl, inr, List, [], ◌∷◌, ◌++◌, length,
  Outcome, ok, throws, ◌>>=◌, arith, Bool-cases, if◌then◌else◌,
}
use crypto_bot.Prelude.Int.{ℤ, pos, negsuc, ltb_ℤ}
use crypto_bot.Producer.{Event, Document, is_zero, produce_from, produce}

ltb_ℤ_antisymm : (a b : ℤ) → ltb_ℤ a b ≡ false → ltb_ℤ b a ≡ false → a ≡ b
ltb_ℤ_antisymm (pos a) (pos b) h k = ap pos (ground (arith, h, k))
ltb_ℤ_antisymm (pos a) (negsuc b) h k = absurd (ground (arith, h, k))
ltb_ℤ_antisymm (negsuc a) (pos b) h k = absurd (ground (arith, h, k))
ltb_ℤ_antisymm (negsuc a) (negsuc b) h k = ap negsuc (ground (arith, h, k))

ltb_ℤ_irrefl : (a : ℤ) → ltb_ℤ a a ≡ false
ltb_ℤ_irrefl (pos a) = ground arith
ltb_ℤ_irrefl (negsuc a) = ground arith

abbrev pub but_last {κ} : {A : Type κ} → List A → List A
but_last [] = []
but_last (x ∷ []) = []
but_last (x ∷ y ∷ xs) = x ∷ but_last (y ∷ xs)

>>=-congr {ℓ κ} :
    {A : Type ℓ} {B : Type κ} (r : Outcome A) (f g : A → Outcome B)
    → ((a : A) → f a ≡ g a)
    → (r >>= f) ≡ (r >>= g)
>>=-congr (ok a) f g h = h a
>>=-congr (throws x) f g h = refl

module _ {ℓ} {D : Type ℓ} where
  -- The documents come by their minutes, none of which is 0.
  abbrev pub IsAscending : ℤ → List (Document D) → Type 0
  IsAscending m [] = Unit
  IsAscending m (doc ∷ docs) =
      (ltb_ℤ doc.minute_utc m ≡ false)
      × (is_zero doc.minute_utc ≡ false)
      × IsAscending doc.minute_utc docs

  abbrev pub HasMinutes : List (Document D) → Type 0
  HasMinutes [] = Unit
  HasMinutes (doc ∷ docs) = (is_zero doc.minute_utc ≡ false) × IsAscending doc.minute_utc docs

  -- The events of each minute.
  abbrev join : ℤ → List (Event D) → List (ℤ × List (Event D)) → List (ℤ × List (Event D))
  join m es [] = (m, es) ∷ []
  join m es ((n, g) ∷ bs) = if ltb_ℤ m n then (m, es) ∷ (n, g) ∷ bs else (m, es ++ g) ∷ bs

  abbrev pub batches : List (Document D) → List (ℤ × List (Event D))
  batches [] = []
  batches (doc ∷ docs) = join doc.minute_utc doc.events (batches docs)

  -- A joined list begins with the minute that is joined.
  join-cons :
      (m : ℤ) (es : List (Event D)) (bs : List (ℤ × List (Event D)))
      → (g : List (Event D)) × (rest : List (ℤ × List (Event D))) × (join m es bs ≡ (m, g) ∷ rest)
  join-cons m es [] = (es, [], refl)
  join-cons m es ((n, g) ∷ bs) = elim (Bool-cases (ltb_ℤ m n)) [
    | inl e ↦ (es, (n, g) ∷ bs, rw e refl)
    | inr e ↦ (es ++ g, bs, rw e refl)
  ]

  join-later :
      (m n : ℤ) (es fs : List (Event D)) (bs : List (ℤ × List (Event D)))
      → ltb_ℤ m n ≡ true
      → join m es (join n fs bs) ≡ (m, es) ∷ join n fs bs
  join-later m n es fs bs h = let (g, rest, e) = join-cons n fs bs in rw e (rw h refl)

  join-same :
      (m : ℤ) (es fs : List (Event D)) (bs : List (ℤ × List (Event D)))
      → join m es (join m fs bs) ≡ join m (es ++ fs) bs
  join-same m es fs [] = rw (ltb_ℤ_irrefl m) refl
  join-same m es fs ((n, g) ∷ bs) = elim (Bool-cases (ltb_ℤ m n)) [
    | inl e ↦ rw (e, ltb_ℤ_irrefl m) refl
    | inr e ↦ rw (e, ltb_ℤ_irrefl m) (ap (λ l. (m, l) ∷ bs) (sym (append_assoc es fs g)))
  ]

module _ {ℓ κ} {D : Type ℓ} {S : Type κ} (flush : List (Event D) → S → Outcome S) where
  -- The batches one after the other, with the number of their events.
  abbrev pub flush_all : List (ℤ × List (Event D)) → ℕ → S → Outcome (S × ℕ)
  flush_all [] total s = ok (s, total)
  flush_all ((m, es) ∷ bs) total s = do
    s1 ← flush es s
    flush_all bs ((total + length es) % 2 ^ 64) s1

  -- All batches but the last.
  abbrev pub flush_closed : List (ℤ × List (Event D)) → ℕ → S → Outcome (S × ℕ)
  flush_closed bs total s = flush_all (but_last bs) total s

  flush_closed-join :
      (m n : ℤ) (es fs : List (Event D)) (bs : List (ℤ × List (Event D))) (total : ℕ) (s : S)
      → flush_closed ((m, es) ∷ join n fs bs) total s
        ≡ (flush es s >>= λ s1. flush_closed (join n fs bs) ((total + length es) % 2 ^ 64) s1)
  flush_closed-join m n es fs bs total s = let (g, rest, e) = join-cons n fs bs in rw e refl

  produce_from-batches :
      (docs : List (Document D)) (m : ℤ) (es : List (Event D)) (total : ℕ) (s : S)
      → is_zero m ≡ false
      → IsAscending m docs
      → produce_from flush docs m es total s ≡ flush_closed (join m es (batches docs)) total s
  unfolding produce_from
  produce_from-batches [] m es total s z a = refl
  produce_from-batches (doc ∷ docs) m es total s z (a, y, as') =
      elim (Bool-cases (ltb_ℤ m doc.minute_utc)) [
        | inl e ↦
            rw (z, produce_from)
              (rw (e, a)
                (>>=-congr (flush es s) _ _ (λ s1.
                    produce_from-batches docs doc.minute_utc doc.events
                      ((total + length es) % 2 ^ 64) s1 y as')
                  ∙ sym (
                      ap (λ bs. flush_closed bs total s)
                        (join-later m doc.minute_utc es doc.events (batches docs) e)
                      ∙ flush_closed-join m doc.minute_utc es doc.events (batches docs) total s)))
        | inr e ↦
            let same : doc.minute_utc ≡ m = ltb_ℤ_antisymm doc.minute_utc m a e in
            rw (z, produce_from)
              (rw (e, a)
                (produce_from-batches docs doc.minute_utc (es ++ doc.events) total s y as'
                  ∙ ap (λ bs. flush_closed bs total s)
                      (ap (λ n. join n (es ++ doc.events) (batches docs)) same
                        ∙ sym (join-same m es doc.events (batches docs))
                        ∙ ap (λ n. join m es (join n doc.events (batches docs))) (sym same))))
      ]

  -- The documents of a cursor come by their minutes, and none has the minute 0. Then `Produce`
  -- flushes the events of each minute together, one minute after the other in the order of the
  -- cursor, but never those of the last minute, and what it counts, up to 2 ^ 64, are the events
  -- that it has flushed. That holds whatever a flush does, also where one ends by an exception.
  pub produce-batches :
      (docs : List (Document D)) (s : S)
      → HasMinutes docs
      → produce flush docs s ≡ flush_closed (batches docs) 0 s
  unfolding produce produce_from
  produce-batches [] s h = refl
  produce-batches (doc ∷ docs) s (y, as') =
      rw (ltb_ℤ_irrefl doc.minute_utc, produce, produce_from)
        (produce_from-batches docs doc.minute_utc doc.events 0 s y as')
