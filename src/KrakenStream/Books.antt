-- ===== src/KrakenStream/Books.antt =====
-- The books of websocket/kraken_websocket_client.hpp.
use mathlib.Core.Path.{subst}
use crypto_bot.Prelude.{
  ℕ, ◌≡◌, inl, inr, ◌⊎◌, if◌then◌else◌, Bool-cases, Bool, true, false, Option, none, some, String,
  List, [], ◌∷◌, arith, All, Option-cases, Outcome, ok, throws,
}
use crypto_bot.Assoc.{Eq, find, insert_or_assign, emplace}
use crypto_bot.Double.{Double}
use crypto_bot.Symbol.{SymbolPairId, pair_eq_key}
use crypto_bot.Symbol.Pair.{from_kraken_string}
use crypto_bot.OrderBook.{OrderBook, PrecisionSettings}
use crypto_bot.OrderBook.Validity.{IsValid}
use crypto_bot.KrakenBook.{BookMessage}
use crypto_bot.KrakenBook.Validity.{on_order_book_message-IsValid}
use crypto_bot.KrakenStream.{
  Message, event, ticker, book, other_channel, KrakenStream, new_book, subscribe, sent_precisions,
  read_ticker, parse_ticker, after_book, on_book, on_message,
}

taken {κ} :
    {V : Type κ} (b : Bool) (w v : V) (rest : Option V)
    → (if b then some w else rest) ≡ some v
    → (w ≡ v) ⊎ (rest ≡ some v)
taken true w v rest h = inl cc
taken false w v rest h = inr h

module _ {ℓ κ μ} {K : Type ℓ} {V : Type κ} ⦃e : Eq K⦄ (P : V → Type μ) where
  insert_or_assign-All :
      (k : K) (v : V) (m : List (K × V))
      → P v
      → All (λ p. P p.1) m
      → All (λ p. P p.1) (insert_or_assign k v m)
  unfolding insert_or_assign
  insert_or_assign-All k v [] h t = (h, tt)
  insert_or_assign-All k v ((j, w) ∷ m) h (g, t) = elim (Bool-cases (e.beq j k)) [
    | inl u ↦ rw u (h, t)
    | inr u ↦ rw u (g, insert_or_assign-All k v m h t)
  ]

  find-All : (k : K) (v : V) (m : List (K × V)) → find k m ≡ some v → All (λ p. P p.1) m → P v
  unfolding find
  find-All k v [] h t = absurd cc
  find-All k v ((j, w) ∷ m) h (g, t) = elim (taken (e.beq j k) w v (find k m) h) [
    | inl u ↦ subst P u g
    | inr u ↦ find-All k v m u t
  ]

  emplace-All :
      (k : K) (v : V) (m : List (K × V))
      → P v
      → All (λ p. P p.1) m
      → All (λ p. P p.1) (emplace k v m)
  unfolding emplace
  emplace-All k v m h t = elim (Option-cases (find k m)) [
    | inl u ↦ rw (u, emplace) (insert_or_assign-All k v m h t)
    | inr (w, u) ↦ rw (u, emplace) t
  ]

abbrev pub HasValidBooks {ℓ} : {D : Type ℓ} → KrakenStream D → Type 0
HasValidBooks s = All (λ p. IsValid p.1) s.order_books

module _ {ℓ} {D : Type ℓ} where
  new_book-IsValid :
      (spid : SymbolPairId) (depth : ℕ) (ps : PrecisionSettings)
      → IsValid (new_book {D = D} spid depth ps)
  new_book-IsValid spid depth ps = record {
    bids_sorted = tt;
    asks_sorted = tt;
    bids_fit = omega arith;
    asks_fit = omega arith;
  }

  -- A subscription keeps the books valid, also where it ends by an exception because the precisions
  -- of the pair are not known.
  pub subscribe-HasValidBooks :
      (symbol : String) (requested depth : ℕ) (s : KrakenStream D)
      → HasValidBooks s
      → HasValidBooks (subscribe symbol requested depth s).0
  unfolding subscribe
  subscribe-HasValidBooks symbol requested depth s v =
      elim (Option-cases (find (from_kraken_string symbol) sent_precisions)) [
        | inl u ↦ rw (u, subscribe) v
        | inr (ps, u) ↦
            rw (u, subscribe)
              (emplace-All IsValid (from_kraken_string symbol) _ s.order_books
                (new_book-IsValid (from_kraken_string symbol) depth ps) v)
      ]

module _ {ℓ} {D : Type ℓ} ⦃d : Double D⦄ where
  read_ticker-HasValidBooks :
      (now : ℕ) (spid : SymbolPairId) (s : KrakenStream D) (bid bid_vol ask ask_vol : Option D)
      → HasValidBooks s
      → HasValidBooks (read_ticker now spid s bid bid_vol ask ask_vol).0
  unfolding read_ticker
  read_ticker-HasValidBooks now spid s (some b) (some bv) (some a) (some av) v = v
  read_ticker-HasValidBooks now spid s none bv a av v = v
  read_ticker-HasValidBooks now spid s (some b) none a av v = v
  read_ticker-HasValidBooks now spid s (some b) (some bv) none av v = v
  read_ticker-HasValidBooks now spid s (some b) (some bv) (some a) none v = v

  module _ (crc : String → ℕ) (validate : Bool) where
    after_book-HasValidBooks :
        (now : ℕ) (symbol : String) (spid : SymbolPairId) (s : KrakenStream D)
        (r : OrderBook D × Outcome Bool)
        → IsValid r.0
        → HasValidBooks s
        → HasValidBooks (after_book crc validate now symbol spid s r).0
    unfolding after_book
    after_book-HasValidBooks now symbol spid s (ob, throws x) u v =
        insert_or_assign-All IsValid spid ob s.order_books u v
    after_book-HasValidBooks now symbol spid s (ob, ok true) u v =
        insert_or_assign-All IsValid spid ob s.order_books u v
    after_book-HasValidBooks now symbol spid s (ob, ok false) u v =
        insert_or_assign-All IsValid spid ob s.order_books u v

    on_book-HasValidBooks :
        (now : ℕ) (m : BookMessage) (symbol : String) (s : KrakenStream D)
        → HasValidBooks s
        → HasValidBooks (on_book crc validate now m symbol s).0
    unfolding on_book
    on_book-HasValidBooks now m symbol s v =
        elim (Option-cases (find (from_kraken_string symbol) s.order_books)) [
          | inl u ↦ rw (u, on_book) v
          | inr (ob, u) ↦
              rw (u, on_book)
                (after_book-HasValidBooks now symbol (from_kraken_string symbol) s _
                  (on_order_book_message-IsValid crc validate m ob
                    (find-All IsValid (from_kraken_string symbol) ob s.order_books u v))
                  v)
        ]

    -- A message of any kind keeps all the books of the stream valid, also where its handler ends by
    -- an exception.
    pub on_message-HasValidBooks :
        (now : ℕ) (m : Message) (s : KrakenStream D)
        → HasValidBooks s
        → HasValidBooks (on_message crc validate now m s).0
    unfolding on_message parse_ticker
    on_message-HasValidBooks now event s v = v
    on_message-HasValidBooks now (ticker texts symbol) s v =
        read_ticker-HasValidBooks now (from_kraken_string symbol) s _ _ _ _ v
    on_message-HasValidBooks now (book m symbol) s v = on_book-HasValidBooks now m symbol s v
    on_message-HasValidBooks now (other_channel symbol) s v = v
