-- ===== src/OrderBook/Best.antt =====
-- The best level and the depth limit of model/order_book.h: a book of limited depth is the best
-- part of the book with no limit.
use crypto_bot.Prelude.{
  ℕ, suc, ◌+◌, ◌≤◌, ◌<◌, ◌≡◌, ◌≢◌, refl, sym, ◌∙◌, ap, inl, inr, Bool, true, ◌==◌, ==_iff, ltb,
  if◌then◌else◌, List, [], ◌∷◌, length, arith, Bool-cases, last_or,
}
use crypto_bot.Double.{Double}
use crypto_bot.OrderBook.{
  PriceLevel, OrderBook, upsert, trim, below, above, null_level, get_best_bid, get_best_ask,
  upsert_bid, upsert_ask, clear,
}
use crypto_bot.OrderBook.Levels.{
  Follow, IsSorted, IsSide, below-IsSide, above-IsSide, upsert-IsSorted, upsert_front, Follow-trans,
  length-upsert-le,
}

module _ {ℓ} {D : Type ℓ} where
  -- The best `depth` levels: those at the end.
  unfoldable pub keep_best : ℕ → List (PriceLevel D) → List (PriceLevel D)
  keep_best depth [] = []
  keep_best depth (c ∷ cs) = if ltb depth (suc (length cs)) then keep_best depth cs else c ∷ cs

  keep_best_fits :
      (depth : ℕ) (cs : List (PriceLevel D)) → length cs ≤ depth → keep_best depth cs ≡ cs
  unfolding keep_best
  keep_best_fits depth [] h = refl
  keep_best_fits depth (c ∷ cs) h = ground arith

  keep_best_long :
      (depth : ℕ) (c : PriceLevel D) (cs : List (PriceLevel D))
      → depth < suc (length cs)
      → keep_best depth (c ∷ cs) ≡ keep_best depth cs
  unfolding keep_best
  keep_best_long depth c cs h = ground arith

  keep_best-trim :
      (depth : ℕ) (cs : List (PriceLevel D))
      → length cs ≤ depth + 1
      → keep_best depth cs ≡ trim depth cs
  unfolding keep_best trim
  keep_best-trim depth [] h = ground arith
  keep_best-trim depth (c ∷ cs) h = ground (arith, keep_best_fits depth cs)

module _ {ℓ} {D : Type ℓ} (precedes : ℕ → ℕ → Bool) (side : IsSide precedes) where
  keep_best-upsert-cons :
      (depth : ℕ) (l c : PriceLevel D) (cs : List (PriceLevel D))
      → depth < suc (length cs)
      → Follow precedes c.price cs
      → keep_best depth (upsert precedes l (c ∷ cs)) ≡ keep_best depth (upsert precedes l cs)
  unfolding upsert keep_best
  keep_best-upsert-cons depth l c cs h f = elim (Bool-cases (c.price == l.price)) [
    | inl e ↦
        rw (upsert_front precedes side l cs (rw (← (==_iff c.price l.price).0 e) f)) (ground arith)
    | inr n ↦ elim (Bool-cases (precedes l.price c.price)) [
      | inl t ↦
          let front =
            upsert_front precedes side l cs (Follow-trans precedes side l.price c.price cs t f) in
          rw front (ground arith)
      | inr u ↦ ground (arith, length-upsert-le precedes l cs)
    ]
  ]

  -- Dropping the worst level after each upsert loses nothing of the best levels: on a sorted side,
  -- the best `depth` levels after an upsert are what the upsert and the limit make of the best
  -- `depth` levels before it.
  pub keep_best-upsert :
      (depth : ℕ) (l : PriceLevel D) (cs : List (PriceLevel D))
      → IsSorted precedes cs
      → keep_best depth (upsert precedes l cs) ≡ trim depth (upsert precedes l (keep_best depth cs))
  keep_best-upsert depth l [] s =
      keep_best-trim depth (upsert precedes l [])
        (omega (arith, (length-upsert-le precedes l []).1))
      ∙ ap (λ ks. trim depth (upsert precedes l ks)) (sym (keep_best_fits depth [] (omega arith)))
  keep_best-upsert depth l (c ∷ cs) (f, s) = elim (Bool-cases (ltb depth (suc (length cs)))) [
    | inl t ↦
        keep_best-upsert-cons depth l c cs (ground arith) f
        ∙ keep_best-upsert depth l cs s
        ∙ ap (λ ks. trim depth (upsert precedes l ks))
            (sym (keep_best_long depth c cs (ground arith)))
    | inr t ↦
        keep_best-trim depth (upsert precedes l (c ∷ cs))
          (ground (arith, (length-upsert-le precedes l (c ∷ cs)).1))
        ∙ ap (λ ks. trim depth (upsert precedes l ks))
            (sym (keep_best_fits depth (c ∷ cs) (ground arith)))
  ]

module _ {ℓ} {D : Type ℓ} where
  last_or-trim :
      (d : PriceLevel D) (depth : ℕ) (cs : List (PriceLevel D))
      → 0 < depth
      → last_or d (trim depth cs) ≡ last_or d cs
  unfolding trim
  last_or-trim d depth [] h = ground arith
  last_or-trim d depth (c ∷ []) h = ground arith
  last_or-trim d depth (c ∷ b ∷ cs) h = ground arith

module _ {ℓ} {D : Type ℓ} (precedes : ℕ → ℕ → Bool) (side : IsSide precedes) where
  Follow-last_or :
      (p : ℕ) (c : PriceLevel D) (cs : List (PriceLevel D))
      → precedes p c.price ≡ true
      → Follow precedes p cs
      → precedes p (last_or c cs).price ≡ true
  Follow-last_or p c [] h f = h
  Follow-last_or p c (b ∷ cs) h (g, f) = Follow-last_or p b cs g f

  last_or-upsert :
      (d l c : PriceLevel D) (cs : List (PriceLevel D))
      → IsSorted precedes (c ∷ cs)
      → last_or d (upsert precedes l (c ∷ cs))
        ≡ (if precedes l.price (last_or c cs).price then last_or c cs else l)
  unfolding upsert
  last_or-upsert d l c [] s = ground (arith, side.irrefl c.price)
  last_or-upsert d l c (b ∷ cs) (f, s) = ground (
    arith,
    Follow-last_or c.price b cs f.0 f.1,
    side.trans l.price c.price (last_or b cs).price,
    last_or-upsert c l b cs s,
  )

module _ {ℓ} {D : Type ℓ} ⦃d : Double D⦄ where
  -- After `UpsertBid` on a sorted side of a book whose depth is not 0, `GetBestBid` is the new
  -- level, unless its price is below the best bid so far, which then stays the best.
  pub get_best_bid-upsert_bid :
      (ob : OrderBook D) (l : PriceLevel D)
      → IsSorted below ob.bids
      → 0 < ob.depth
      → get_best_bid (upsert_bid ob l)
        ≡ (if below l.price (get_best_bid ob).price then get_best_bid ob else l)
  unfolding get_best_bid upsert_bid
  get_best_bid-upsert_bid ob l s h =
      last_or-trim null_level ob.depth (upsert below l ob.bids) h ∙ best_after ob.bids s
    where
      best_after :
          (cs : List (PriceLevel D))
          → IsSorted below cs
          → last_or null_level (upsert below l cs)
            ≡ (if below l.price (last_or null_level cs).price then last_or null_level cs else l)
      best_after [] s = ground arith
      best_after (c ∷ cs) s = last_or-upsert below below-IsSide null_level l c cs s

  -- After `UpsertAsk` on a sorted side of a book whose depth is not 0, `GetBestAsk` is the new
  -- level, unless there was an ask and the price is above the best one, which then stays the best.
  pub get_best_ask-upsert_ask :
      (ob : OrderBook D) (l : PriceLevel D)
      → IsSorted above ob.asks
      → 0 < ob.depth
      → (ob.asks ≡ [] → get_best_ask (upsert_ask ob l) ≡ l)
        × (ob.asks ≢ []
            → get_best_ask (upsert_ask ob l)
              ≡ (if above l.price (get_best_ask ob).price then get_best_ask ob else l))
  unfolding get_best_ask upsert_ask
  get_best_ask-upsert_ask ob l s h = (
    λ e. last_or-trim null_level ob.depth (upsert above l ob.asks) h ∙ rw e (refl),
    λ n. last_or-trim null_level ob.depth (upsert above l ob.asks) h ∙ best_after ob.asks n s,
  )
    where
      best_after :
          (cs : List (PriceLevel D))
          → cs ≢ []
          → IsSorted above cs
          → last_or null_level (upsert above l cs)
            ≡ (if above l.price (last_or null_level cs).price then last_or null_level cs else l)
      best_after [] n s = absurd (n refl)
      best_after (c ∷ cs) n s = last_or-upsert above above-IsSide null_level l c cs s

module _ {ℓ} {D : Type ℓ} where
  abbrev pub upsert_bids : OrderBook D → List (PriceLevel D) → OrderBook D
  upsert_bids ob [] = ob
  upsert_bids ob (l ∷ ls) = upsert_bids (upsert_bid ob l) ls

  -- The bids of a book with no limit.
  abbrev pub all_bids : List (PriceLevel D) → List (PriceLevel D) → List (PriceLevel D)
  all_bids cs [] = cs
  all_bids cs (l ∷ ls) = all_bids (upsert below l cs) ls

  upsert_bids-eq-keep_best :
      (ls : List (PriceLevel D)) (ob : OrderBook D) (cs : List (PriceLevel D))
      → IsSorted below cs
      → ob.bids ≡ keep_best ob.depth cs
      → (upsert_bids ob ls).bids ≡ keep_best ob.depth (all_bids cs ls)
  unfolding upsert_bid
  upsert_bids-eq-keep_best [] ob cs s e = e
  upsert_bids-eq-keep_best (l ∷ ls) ob cs s e =
      upsert_bids-eq-keep_best ls (upsert_bid ob l) (upsert below l cs)
        (upsert-IsSorted below below-IsSide l cs s)
        (ap (λ bs. trim ob.depth (upsert below l bs)) e
          ∙ sym (keep_best-upsert below below-IsSide ob.depth l cs s))

  -- After any history of bids, a cleared book holds the best `depth` of the levels that a book
  -- with no limit would hold: dropping the worst bid after every upsert loses no bid that is among
  -- the best ones later.
  pub upsert_bids_history :
      (ob : OrderBook D) (ls : List (PriceLevel D))
      → (upsert_bids (clear ob) ls).bids ≡ keep_best ob.depth (all_bids [] ls)
  unfolding clear keep_best
  upsert_bids_history ob ls = upsert_bids-eq-keep_best ls (clear ob) [] tt refl
