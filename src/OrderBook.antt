-- ===== src/OrderBook.antt =====
-- model/order_book.h, model/order_book_update.h, model/settings.h: the price levels of one pair on
-- one exchange, best price last. The children hold the theorems.
pub mod Levels
pub mod Deletion
pub mod Best
pub mod Validity
pub mod Refinement
mod Tests
use crypto_bot.Prelude.{
  ℕ, Bool, ◌==◌, ltb, if◌then◌else◌, Option, none, some, List, [], ◌∷◌, reverse, length, pop_front,
  last_or, Outcome, ok, throws, ◌>>=◌, Fault, invalid_argument, or_throw, max, String,
}
use crypto_bot.Double.{Double}
use crypto_bot.QuickMath.{quick_pow10}
use crypto_bot.Symbol.{SymbolPairId}

-- `class PriceLevel`. A price is a `uint64_t`.
pub record PriceLevel {ℓ} (D : Type ℓ) : Type ℓ where
  pub price : ℕ
  pub volume : D
  pub timestamp : ℕ

pub record PrecisionSettings : Type 0 where
  pub price_precision : ℕ
  pub volume_precision : ℕ
  pub timestamp_precision : ℕ

-- `OrderBookUpdate::Level`: the texts that an exchange sends.
pub record RawLevel : Type 0 where
  pub price : String
  pub volume : String
  pub timestamp : Option ℕ

pub record OrderBookUpdate : Type 0 where
  pub last_update_id : ℕ
  pub is_snapshot : Bool
  pub bids : List RawLevel
  pub asks : List RawLevel
  pub arrived_ts : ℕ
  pub exchange : String
  pub symbol : SymbolPairId

pub record OrderBook {ℓ} (D : Type ℓ) : Type ℓ where
  pub bids : List (PriceLevel D)
  pub asks : List (PriceLevel D)
  pub exchange_name : String
  pub symbol : SymbolPairId
  pub depth : ℕ
  pub precision_settings : PrecisionSettings
  pub last_update : OrderBookUpdate

-- `<` for the bids, which rise to the best, and `>` for the asks, which fall to it.
abbrev pub below : ℕ → ℕ → Bool
below p q = ltb p q

abbrev pub above : ℕ → ℕ → Bool
above p q = ltb q p

module _ {ℓ} {D : Type ℓ} where
  -- The loops of `UpsertBid` and `UpsertAsk`, which differ in the comparison: `precedes p q` is the
  -- test that stops the search at a level with price `q`. The level that the caller passes is left
  -- moved from; no caller reads it again.
  unfoldable pub upsert : (ℕ → ℕ → Bool) → PriceLevel D → List (PriceLevel D) → List (PriceLevel D)
  upsert precedes l [] = l ∷ []
  upsert precedes l (c ∷ cs) =
      if c.price == l.price
      then l ∷ cs
      else if precedes l.price c.price
      then l ∷ c ∷ cs
      else c ∷ upsert precedes l cs

  -- One level beyond the depth drops the worst.
  unfoldable pub trim : ℕ → List (PriceLevel D) → List (PriceLevel D)
  trim depth levels = if ltb depth (length levels) then pop_front levels else levels

  unfoldable pub upsert_bid : OrderBook D → PriceLevel D → OrderBook D
  unfolding upsert trim
  upsert_bid ob l = record ob { bids = trim ob.depth (upsert below l ob.bids) }

  unfoldable pub upsert_ask : OrderBook D → PriceLevel D → OrderBook D
  unfolding upsert trim
  upsert_ask ob l = record ob { asks = trim ob.depth (upsert above l ob.asks) }

  -- `Delete` walks from the end, and erases the first level with the price that it meets.
  unfoldable pub erase_first : ℕ → List (PriceLevel D) → List (PriceLevel D)
  erase_first price [] = []
  erase_first price (c ∷ cs) = if c.price == price then cs else c ∷ erase_first price cs

  unfoldable pub delete_level : ℕ → List (PriceLevel D) → List (PriceLevel D)
  unfolding erase_first
  delete_level price levels = reverse (erase_first price (reverse levels))

  unfoldable pub delete_bid : OrderBook D → ℕ → OrderBook D
  unfolding delete_level
  delete_bid ob price = record ob { bids = delete_level price ob.bids }

  unfoldable pub delete_ask : OrderBook D → ℕ → OrderBook D
  unfolding delete_level
  delete_ask ob price = record ob { asks = delete_level price ob.asks }

  unfoldable pub clear : OrderBook D → OrderBook D
  clear ob = record ob { bids = []; asks = [] }

  -- `GetLatestUpdateTimestamp`
  unfoldable pub latest_timestamp : ℕ → List (PriceLevel D) → ℕ
  latest_timestamp ret [] = ret
  latest_timestamp ret (l ∷ ls) = latest_timestamp (max ret l.timestamp) ls

  unfoldable pub get_latest_update_timestamp : OrderBook D → ℕ
  unfolding latest_timestamp
  get_latest_update_timestamp ob = latest_timestamp (latest_timestamp 0 ob.bids) ob.asks

module _ {ℓ} {D : Type ℓ} ⦃d : Double D⦄ where
  -- `PriceLevel::Null()`
  abbrev pub null_level : PriceLevel D
  null_level = record { price = 0; volume = d.of_ℕ 0; timestamp = 0 }

  unfoldable pub get_best_bid : OrderBook D → PriceLevel D
  get_best_bid ob = last_or null_level ob.bids

  unfoldable pub get_best_ask : OrderBook D → PriceLevel D
  get_best_ask ob = last_or null_level ob.asks

  -- The level that one text of an update stands for.
  unfoldable pub read_level : PrecisionSettings → RawLevel → Outcome (PriceLevel D)
  unfolding quick_pow10
  read_level ps raw = do
    price ← or_throw (d.stod raw.price) invalid_argument
    scale ← quick_pow10 ps.price_precision
    qty ← or_throw (d.stod raw.volume) invalid_argument
    ok (record {
      price = d.to_ℕ (d.mul price (d.of_ℕ scale));
      volume = qty;
      timestamp = elim raw.timestamp [ none ↦ 0 | some ts ↦ ts ];
    })

  -- A level of quantity 0 deletes.
  unfoldable pub apply_bid : OrderBook D → PriceLevel D → OrderBook D
  unfolding delete_bid upsert_bid
  apply_bid ob l = if d.eq l.volume (d.of_ℕ 0) then delete_bid ob l.price else upsert_bid ob l

  unfoldable pub apply_ask : OrderBook D → PriceLevel D → OrderBook D
  unfolding delete_ask upsert_ask
  apply_ask ob l = if d.eq l.volume (d.of_ℕ 0) then delete_ask ob l.price else upsert_ask ob l

  -- The two loops of `Update`. An exception leaves the book with the levels applied so far.
  unfoldable pub apply_raw :
      (OrderBook D → PriceLevel D → OrderBook D)
      → OrderBook D
      → List RawLevel
      → OrderBook D × Option Fault
  unfolding read_level
  apply_raw apply ob [] = (ob, none)
  apply_raw apply ob (raw ∷ raws) = elim (read_level ob.precision_settings raw) [
    | throws e ↦ (ob, some e)
    | ok l ↦ apply_raw apply (apply ob l) raws
  ]

  abbrev pub then_asks : List RawLevel → OrderBook D × Option Fault → OrderBook D × Option Fault
  then_asks raws (ob, some e) = (ob, some e)
  then_asks raws (ob, none) = apply_raw apply_ask ob raws

  unfoldable pub update : OrderBook D → OrderBookUpdate → OrderBook D × Option Fault
  unfolding apply_raw apply_bid apply_ask
  update ob u = then_asks u.asks (apply_raw apply_bid (record ob { last_update = u }) u.bids)
