-- ===== src/OrderBook/Tests.antt =====
-- Tests and witnesses for model/order_book.h. The first test is that of order_book_unittest.cc.
use crypto_bot.Prelude.{
  ℕ, ◌≡◌, refl, none, some, List, [], ◌∷◌, map, arith, false, invalid_argument,
}
use crypto_bot.Prelude.Int.{ℤ, pos, ◌*ℤ◌}
use crypto_bot.Double.{exact, read_ℤ}
use crypto_bot.Symbol.{btc_usdt}
use crypto_bot.OrderBook
use crypto_bot.OrderBook.{
  PriceLevel, upsert, OrderBook, OrderBookUpdate, RawLevel, upsert_bid, delete_bid, update,
  get_best_bid, get_best_ask, upsert_ask, below, above,
}
use crypto_bot.OrderBook.Validity.{IsValid, update-IsValid}
use crypto_bot.OrderBook.Refinement.{update-refines}
use crypto_bot.OrderBook.Best.{keep_best, upsert_bids, upsert_bids_history}

abbrev level : ℕ → ℕ → PriceLevel ℤ
level p v = record { price = p; volume = pos v; timestamp = 0 }

abbrev no_update : OrderBookUpdate
no_update = record {
  last_update_id = 0;
  is_snapshot = false;
  bids = [];
  asks = [];
  arrived_ts = 0;
  exchange = "test";
  symbol = btc_usdt;
}

abbrev empty_book : ℕ → OrderBook ℤ
empty_book depth = record {
  bids = [];
  asks = [];
  exchange_name = "test";
  symbol = btc_usdt;
  depth = depth;
  precision_settings = record {
    price_precision = 2;
    volume_precision = 8;
    timestamp_precision = 8;
  };
  last_update = no_update;
}

abbrev raw : OrderBook.RawLevel
raw = record { price = "4738"; volume = "7"; timestamp = none }

abbrev sample : OrderBook ℤ
sample = record (empty_book 4) { bids = level 100 1 ∷ level 473800 3 ∷ []; asks = level 900 5 ∷ [] }

abbrev sample_update : OrderBookUpdate
sample_update = record no_update {
  bids = raw ∷ record { price = "1"; volume = "0"; timestamp = some 9 } ∷ [];
  asks = record { price = "8"; volume = "2"; timestamp = some 9 } ∷ [];
}

abbrev prices : List (PriceLevel ℤ) → List ℕ
prices = map (λ l. l.price)

bid_order :
    let ob =
      upsert_bid
        (upsert_bid
          (upsert_bid (upsert_bid (empty_book 10) (level 473832 1)) (level 473821 1))
          (level 473823 2))
        (level 473821 4) in
    (prices ob.bids ≡ 473821 ∷ 473823 ∷ 473832 ∷ [])
    × (prices (delete_bid ob 473821).bids ≡ 473823 ∷ 473832 ∷ [])
unfolding upsert_bid delete_bid
bid_order = (refl, refl)

sample_updated : prices (update sample sample_update).0.bids ≡ 473800 ∷ []
unfolding update read_ℤ ◌*ℤ◌
sample_updated = refl

unreadable :
    (update sample (record no_update { bids = record raw { price = "x" } ∷ [] })).1
    ≡ some invalid_argument
unfolding update read_ℤ
unreadable = refl

sample-IsValid : IsValid sample
sample-IsValid = ground arith

update-IsValid_example : IsValid (update sample sample_update).0
update-IsValid_example = update-IsValid sample sample_update sample-IsValid

update-refines_example : (update sample sample_update).1 ≡ none
unfolding update read_ℤ ◌*ℤ◌
update-refines_example =
    (update-refines sample sample_update
      (level 473800 7 ∷ record { price = 100; volume = pos 0; timestamp = 9 } ∷ [])
      (record { price = 800; volume = pos 2; timestamp = 9 } ∷ []) sample-IsValid refl refl
      (omega arith) (omega arith)).0

upsert_bids_history_example :
    (upsert_bids (OrderBook.clear (empty_book 2)) (level 5 1 ∷ level 7 1 ∷ level 6 1 ∷ [])).bids
    ≡ level 6 1 ∷ level 7 1 ∷ []
unfolding keep_best upsert
upsert_bids_history_example =
    upsert_bids_history (empty_book 2) (level 5 1 ∷ level 7 1 ∷ level 6 1 ∷ [])
