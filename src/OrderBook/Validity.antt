-- ===== src/OrderBook/Validity.antt =====
-- The invariant of `class OrderBook` of model/order_book.h, and that every operation keeps it.
use crypto_bot.Prelude.{
  ℕ, ◌≤◌, inl, inr, Bool, Option, none, some, List, [], ◌∷◌, length, arith, Bool-cases, Fault,
  Outcome-cases,
}
use crypto_bot.Double.{Double}
use crypto_bot.OrderBook.{
  PriceLevel, OrderBook, OrderBookUpdate, RawLevel, below, above, upsert, trim, upsert_bid,
  upsert_ask, delete_bid, delete_ask, clear, read_level, apply_bid, apply_ask, apply_raw, then_asks,
  update,
}
use crypto_bot.OrderBook.Levels.{
  IsSorted, below-IsSide, above-IsSide, upsert-IsSorted, trim-IsSorted, length-trim-le,
  length-upsert-le,
}
use crypto_bot.OrderBook.Deletion.{delete_level-IsSorted, length-delete_level-le}

-- Bids rise to the best and asks fall to the best, no price stands twice, and neither side is
-- longer than the depth.
pub record IsValid {ℓ} {D : Type ℓ} (ob : OrderBook D) : Type 0 where
  pub bids_sorted : IsSorted below ob.bids
  pub asks_sorted : IsSorted above ob.asks
  pub bids_fit : length ob.bids ≤ ob.depth
  pub asks_fit : length ob.asks ≤ ob.depth

module _ {ℓ} {D : Type ℓ} where
  trim-upsert-fits :
      (precedes : ℕ → ℕ → Bool) (depth : ℕ) (l : PriceLevel D) (cs : List (PriceLevel D))
      → length cs ≤ depth
      → length (trim depth (upsert precedes l cs)) ≤ depth
  trim-upsert-fits precedes depth l cs h =
      length-trim-le depth (upsert precedes l cs)
        (omega (arith, (length-upsert-le precedes l cs).1))

  pub upsert_bid-IsValid :
      (ob : OrderBook D) (l : PriceLevel D) → IsValid ob → IsValid (upsert_bid ob l)
  unfolding upsert_bid
  upsert_bid-IsValid ob l v = record {
    bids_sorted =
        trim-IsSorted below ob.depth _ (upsert-IsSorted below below-IsSide l ob.bids v.bids_sorted);
    asks_sorted = v.asks_sorted;
    bids_fit = trim-upsert-fits below ob.depth l ob.bids v.bids_fit;
    asks_fit = v.asks_fit;
  }

  pub upsert_ask-IsValid :
      (ob : OrderBook D) (l : PriceLevel D) → IsValid ob → IsValid (upsert_ask ob l)
  unfolding upsert_ask
  upsert_ask-IsValid ob l v = record {
    bids_sorted = v.bids_sorted;
    asks_sorted =
        trim-IsSorted above ob.depth _ (upsert-IsSorted above above-IsSide l ob.asks v.asks_sorted);
    bids_fit = v.bids_fit;
    asks_fit = trim-upsert-fits above ob.depth l ob.asks v.asks_fit;
  }

  pub delete_bid-IsValid : (ob : OrderBook D) (p : ℕ) → IsValid ob → IsValid (delete_bid ob p)
  unfolding delete_bid
  delete_bid-IsValid ob p v = record {
    bids_sorted = delete_level-IsSorted below below-IsSide p ob.bids v.bids_sorted;
    asks_sorted = v.asks_sorted;
    bids_fit = omega (arith, length-delete_level-le p ob.bids, v.bids_fit);
    asks_fit = v.asks_fit;
  }

  pub delete_ask-IsValid : (ob : OrderBook D) (p : ℕ) → IsValid ob → IsValid (delete_ask ob p)
  unfolding delete_ask
  delete_ask-IsValid ob p v = record {
    bids_sorted = v.bids_sorted;
    asks_sorted = delete_level-IsSorted above above-IsSide p ob.asks v.asks_sorted;
    bids_fit = v.bids_fit;
    asks_fit = omega (arith, length-delete_level-le p ob.asks, v.asks_fit);
  }

  pub clear-IsValid : (ob : OrderBook D) → IsValid (clear ob)
  unfolding clear
  clear-IsValid ob = record {
    bids_sorted = tt;
    asks_sorted = tt;
    bids_fit = omega arith;
    asks_fit = omega arith;
  }

module _ {ℓ} {D : Type ℓ} ⦃d : Double D⦄ where
  pub apply_bid-IsValid :
      (ob : OrderBook D) (l : PriceLevel D) → IsValid ob → IsValid (apply_bid ob l)
  unfolding apply_bid
  apply_bid-IsValid ob l v = elim (Bool-cases (d.eq l.volume (d.of_ℕ 0))) [
    | inl z ↦ rw z (delete_bid-IsValid ob l.price v)
    | inr z ↦ rw z (upsert_bid-IsValid ob l v)
  ]

  pub apply_ask-IsValid :
      (ob : OrderBook D) (l : PriceLevel D) → IsValid ob → IsValid (apply_ask ob l)
  unfolding apply_ask
  apply_ask-IsValid ob l v = elim (Bool-cases (d.eq l.volume (d.of_ℕ 0))) [
    | inl z ↦ rw z (delete_ask-IsValid ob l.price v)
    | inr z ↦ rw z (upsert_ask-IsValid ob l v)
  ]

  pub apply_bid-IsSorted :
      (ob : OrderBook D) (l : PriceLevel D)
      → IsSorted below ob.bids
      → IsSorted below (apply_bid ob l).bids
  unfolding apply_bid delete_bid upsert_bid
  apply_bid-IsSorted ob l s = ground (
    arith,
    delete_level-IsSorted below below-IsSide l.price ob.bids s,
    trim-IsSorted below ob.depth _ (upsert-IsSorted below below-IsSide l ob.bids s),
  )

  pub apply_ask-IsSorted :
      (ob : OrderBook D) (l : PriceLevel D)
      → IsSorted above ob.asks
      → IsSorted above (apply_ask ob l).asks
  unfolding apply_ask delete_ask upsert_ask
  apply_ask-IsSorted ob l s = ground (
    arith,
    delete_level-IsSorted above above-IsSide l.price ob.asks s,
    trim-IsSorted above ob.depth _ (upsert-IsSorted above above-IsSide l ob.asks s),
  )

  module _ (P : OrderBook D → Type 0) (apply : OrderBook D → PriceLevel D → OrderBook D)
      (keeps : (ob : OrderBook D) (l : PriceLevel D) → P ob → P (apply ob l)) where
    pub apply_raw_keeps :
        (ob : OrderBook D) (raws : List RawLevel) → P ob → P (apply_raw apply ob raws).0
    unfolding apply_raw
    apply_raw_keeps ob [] v = v
    apply_raw_keeps ob (raw ∷ raws) v =
        elim (Outcome-cases (read_level {D = D} ob.precision_settings raw)) [
          | inl (l, e) ↦ rw (e, apply_raw) (apply_raw_keeps (apply ob l) raws (keeps ob l v))
          | inr (x, e) ↦ rw (e, apply_raw) v
        ]

  then_asks_keeps :
      (P : OrderBook D → Type 0) (raws : List RawLevel) (r : OrderBook D × Option Fault)
      → ((ob : OrderBook D) (l : PriceLevel D) → P ob → P (apply_ask ob l))
      → P r.0
      → P (then_asks raws r).0
  then_asks_keeps P raws (ob, none) keeps v = apply_raw_keeps P apply_ask keeps ob raws v
  then_asks_keeps P raws (ob, some e) keeps v = v

  -- What every single deletion and upsert keeps, a whole update keeps.
  pub update_keeps :
      (P : OrderBook D → Type 0)
      → ((ob : OrderBook D) (l : PriceLevel D) → P ob → P (apply_bid ob l))
      → ((ob : OrderBook D) (l : PriceLevel D) → P ob → P (apply_ask ob l))
      → (ob : OrderBook D) (u : OrderBookUpdate) → P (record ob { last_update = u })
      → P (update ob u).0
  unfolding update
  update_keeps P keeps_bid keeps_ask ob u v =
      then_asks_keeps P u.asks _ keeps_ask (apply_raw_keeps P apply_bid keeps_bid _ u.bids v)

  -- `Update` keeps the invariant, also when a text of the update cannot be read and it leaves by an
  -- exception half-way.
  pub update-IsValid :
      (ob : OrderBook D) (u : OrderBookUpdate) → IsValid ob → IsValid (update ob u).0
  update-IsValid ob u v = update_keeps IsValid apply_bid-IsValid apply_ask-IsValid ob u (record {
    bids_sorted = v.bids_sorted;
    asks_sorted = v.asks_sorted;
    bids_fit = v.bids_fit;
    asks_fit = v.asks_fit;
  })
