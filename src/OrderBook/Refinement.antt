-- ===== src/OrderBook/Refinement.antt =====
-- `OrderBook::Update` of model/order_book.h against the map of prices that an exchange publishes.
use crypto_bot.Prelude.{
  ℕ, ◌+◌, ◌≤◌, ◌<◌, ◌≡◌, refl, ap, ◌∙◌, inl, inr, ◌==◌, if◌then◌else◌, Option, none, some, List, [],
  ◌∷◌, length, arith, Outcome, ok, Outcome-cases, ◌>>=◌,
}
use crypto_bot.Double.{Double}
use crypto_bot.OrderBook.{
  PriceLevel, OrderBook, OrderBookUpdate, PrecisionSettings, RawLevel, below, above, upsert,
  upsert_bid, upsert_ask, delete_bid, delete_ask, read_level, apply_bid, apply_ask, apply_raw,
  then_asks, update,
}
use crypto_bot.OrderBook.Levels.{
  level_at, IsSorted, below-IsSide, above-IsSide, trim_fits, level_at-upsert, length-upsert-le,
}
use crypto_bot.OrderBook.Deletion.{level_at-delete_level, length-delete_level-le}
use crypto_bot.OrderBook.Validity.{IsValid, apply_bid-IsSorted, apply_ask-IsSorted}

-- A side of the exchange's book: the level at each price.
abbrev pub Side {ℓ} : Type ℓ → Type ℓ
Side D = ℕ → Option (PriceLevel D)

module _ {ℓ} {D : Type ℓ} ⦃d : Double D⦄ where
  -- A level of quantity 0 leaves nothing at its price, and any other replaces what is there.
  abbrev pub set_level : Side D → PriceLevel D → Side D
  set_level m l q =
      if l.price == q then (if d.eq l.volume (d.of_ℕ 0) then none else some l) else m q

  abbrev pub set_levels : Side D → List (PriceLevel D) → Side D
  set_levels m [] = m
  set_levels m (l ∷ ls) = set_levels (set_level m l) ls

  -- The levels that the texts of an update stand for, if all can be read.
  abbrev pub read_levels : PrecisionSettings → List RawLevel → Outcome (List (PriceLevel D))
  read_levels ps [] = ok []
  read_levels ps (raw ∷ raws) = do l ← read_level ps raw; ls ← read_levels ps raws; ok (l ∷ ls)

  level_at-apply_bid :
      (ob : OrderBook D) (l : PriceLevel D) (q : ℕ)
      → IsSorted below ob.bids
      → length ob.bids < ob.depth
      → level_at q (apply_bid ob l).bids ≡ set_level (λ p. level_at p ob.bids) l q
  unfolding apply_bid upsert_bid delete_bid
  level_at-apply_bid ob l q s h = ground (
    arith,
    trim_fits ob.depth (upsert below l ob.bids),
    length-upsert-le below l ob.bids,
    level_at-upsert below q l ob.bids,
    level_at-delete_level below below-IsSide l.price q ob.bids s,
  )

  level_at-apply_ask :
      (ob : OrderBook D) (l : PriceLevel D) (q : ℕ)
      → IsSorted above ob.asks
      → length ob.asks < ob.depth
      → level_at q (apply_ask ob l).asks ≡ set_level (λ p. level_at p ob.asks) l q
  unfolding apply_ask upsert_ask delete_ask
  level_at-apply_ask ob l q s h = ground (
    arith,
    trim_fits ob.depth (upsert above l ob.asks),
    length-upsert-le above l ob.asks,
    level_at-upsert above q l ob.asks,
    level_at-delete_level above above-IsSide l.price q ob.asks s,
  )

  -- What an applied level leaves alone, and how far it grows its side.
  apply_bid_frame :
      (ob : OrderBook D) (l : PriceLevel D)
      → ((apply_bid ob l).asks ≡ ob.asks)
        × ((apply_bid ob l).depth ≡ ob.depth)
        × ((apply_bid ob l).precision_settings ≡ ob.precision_settings)
        × (length ob.bids < ob.depth → length (apply_bid ob l).bids ≤ length ob.bids + 1)
  unfolding apply_bid upsert_bid delete_bid
  apply_bid_frame ob l = ground (
    arith,
    trim_fits ob.depth (upsert below l ob.bids),
    length-upsert-le below l ob.bids,
    length-delete_level-le l.price ob.bids,
  )

  apply_ask_frame :
      (ob : OrderBook D) (l : PriceLevel D)
      → ((apply_ask ob l).bids ≡ ob.bids)
        × ((apply_ask ob l).depth ≡ ob.depth)
        × ((apply_ask ob l).precision_settings ≡ ob.precision_settings)
        × (length ob.asks < ob.depth → length (apply_ask ob l).asks ≤ length ob.asks + 1)
  unfolding apply_ask upsert_ask delete_ask
  apply_ask_frame ob l = ground (
    arith,
    trim_fits ob.depth (upsert above l ob.asks),
    length-upsert-le above l ob.asks,
    length-delete_level-le l.price ob.asks,
  )

  apply_all :
      (OrderBook D → PriceLevel D → OrderBook D) → OrderBook D → List (PriceLevel D) → OrderBook D
  apply_all apply ob [] = ob
  apply_all apply ob (l ∷ ls) = apply_all apply (apply ob l) ls

  -- With every text readable the loop of `Update` applies the levels, and throws nothing.
  apply_raw-eq-apply_all :
      (apply : OrderBook D → PriceLevel D → OrderBook D)
      → ((ob : OrderBook D) (l : PriceLevel D)
          → (apply ob l).precision_settings ≡ ob.precision_settings)
      → (ps : PrecisionSettings) (raws : List RawLevel) (ob : OrderBook D)
        (ls : List (PriceLevel D))
      → ob.precision_settings ≡ ps
      → read_levels ps raws ≡ ok ls
      → (apply_raw apply ob raws ≡ (apply_all apply ob ls, none)) × (length ls ≡ length raws)
  unfolding apply_raw apply_all
  apply_raw-eq-apply_all apply keeps ps [] ob [] p e = (refl, refl)
  apply_raw-eq-apply_all apply keeps ps [] ob (l ∷ ls) p e = cc
  apply_raw-eq-apply_all apply keeps ps (raw ∷ raws) ob ls p e =
      elim (Outcome-cases (read_level {D = D} ps raw)) [
        | inr (x, t) ↦ absurd (cc)
        | inl (l, t) ↦ elim (Outcome-cases (read_levels ps raws)) [
          | inr (x, u) ↦ absurd (cc)
          | inl (ms, u) ↦
              let rest =
                apply_raw-eq-apply_all apply keeps ps raws (apply ob l) ms (keeps ob l ∙ p) u in
              ground (arith, rest)
        ]
      ]

  apply_bids_lem :
      (ls : List (PriceLevel D)) (ob : OrderBook D) (m : Side D)
      → IsSorted below ob.bids
      → length ob.bids + length ls ≤ ob.depth
      → ((q : ℕ) → level_at q ob.bids ≡ m q)
      → let r = apply_all apply_bid ob ls in
        ((q : ℕ) → level_at q r.bids ≡ set_levels m ls q)
        × (r.asks ≡ ob.asks)
        × (r.depth ≡ ob.depth)
        × (r.precision_settings ≡ ob.precision_settings)
  unfolding apply_all
  apply_bids_lem [] ob m s h same = (same, refl, refl, refl)
  apply_bids_lem (l ∷ ls) ob m s h same =
      let (asks, depth, ps, longer) = apply_bid_frame ob l in
      let next : (q : ℕ) → level_at q (apply_bid ob l).bids ≡ set_level m l q = λ q.
        level_at-apply_bid ob l q s (omega arith)
        ∙ ap (λ o. if l.price == q then (if d.eq l.volume (d.of_ℕ 0) then none else some l) else o)
            (same q) in
      let (a, b, c, e) =
        apply_bids_lem ls (apply_bid ob l) (set_level m l) (apply_bid-IsSorted ob l s)
          (omega (arith, longer)) next in
      (a, b ∙ asks, c ∙ depth, e ∙ ps)

  apply_asks_lem :
      (ls : List (PriceLevel D)) (ob : OrderBook D) (m : Side D)
      → IsSorted above ob.asks
      → length ob.asks + length ls ≤ ob.depth
      → ((q : ℕ) → level_at q ob.asks ≡ m q)
      → let r = apply_all apply_ask ob ls in
        ((q : ℕ) → level_at q r.asks ≡ set_levels m ls q)
        × (r.bids ≡ ob.bids)
        × (r.depth ≡ ob.depth)
        × (r.precision_settings ≡ ob.precision_settings)
  unfolding apply_all
  apply_asks_lem [] ob m s h same = (same, refl, refl, refl)
  apply_asks_lem (l ∷ ls) ob m s h same =
      let (bids, depth, ps, longer) = apply_ask_frame ob l in
      let next : (q : ℕ) → level_at q (apply_ask ob l).asks ≡ set_level m l q = λ q.
        level_at-apply_ask ob l q s (omega arith)
        ∙ ap (λ o. if l.price == q then (if d.eq l.volume (d.of_ℕ 0) then none else some l) else o)
            (same q) in
      let (a, b, c, e) =
        apply_asks_lem ls (apply_ask ob l) (set_level m l) (apply_ask-IsSorted ob l s)
          (omega (arith, longer)) next in
      (a, b ∙ bids, c ∙ depth, e ∙ ps)

  -- The refinement: if every text of an update can be read, and both sides have room for its
  -- levels, then `Update` throws nothing, and afterwards each side has at every price what the
  -- exchange's map of prices has after the levels of the update are set one by one: the last level
  -- sent for the price, nothing if its quantity is 0, and what stood there before if none was sent.
  pub update-refines :
      (ob : OrderBook D) (u : OrderBookUpdate) (ls ms : List (PriceLevel D))
      → IsValid ob
      → read_levels ob.precision_settings u.bids ≡ ok ls
      → read_levels ob.precision_settings u.asks ≡ ok ms
      → length ob.bids + length u.bids ≤ ob.depth
      → length ob.asks + length u.asks ≤ ob.depth
      → let (after, fault) = update ob u in
        (fault ≡ none)
        × ((q : ℕ) → level_at q after.bids ≡ set_levels (λ p. level_at p ob.bids) ls q)
        × ((q : ℕ) → level_at q after.asks ≡ set_levels (λ p. level_at p ob.asks) ms q)
  unfolding update
  update-refines ob u ls ms v rb ra hb ha =
      let start = record ob { last_update = u } in
      let (eb, lb) =
        apply_raw-eq-apply_all apply_bid (λ o l. (apply_bid_frame o l).2) ob.precision_settings
          u.bids start ls refl rb in
      let (bids, asks, depth, ps) =
        apply_bids_lem ls start (λ p. level_at p ob.bids) v.bids_sorted (omega arith) (λ q. refl) in
      let mid = apply_all apply_bid start ls in
      let (ea, la) =
        apply_raw-eq-apply_all apply_ask (λ o l. (apply_ask_frame o l).2) ob.precision_settings
          u.asks mid ms ps ra in
      let (asks', bids', depth', ps') =
        apply_asks_lem ms mid (λ p. level_at p ob.asks) (rw asks v.asks_sorted)
          (omega (arith, ap length asks)) (λ q. ap (level_at q) asks) in
      let whole : update ob u ≡ (apply_all apply_ask mid ms, none) =
        ap (then_asks u.asks) eb ∙ ea in
      rw whole (refl, (λ q. ap (level_at q) bids' ∙ bids q), asks')
