-- ===== src/BinanceTickers/Messages.antt =====
-- What websocket/binance_book_ticker_stream.hpp and websocket/binance_trade_ticker_stream.hpp
-- report.
use crypto_bot.Prelude.{
  ℕ, ◌≡◌, refl, ◌∙◌, inl, inr, ◌&&◌, Option, none, some, [], ◌∷◌, Outcome, ok, throws, Bool-cases,
}
use crypto_bot.Assoc.{find, find-insert_or_assign, beq_refl}
use crypto_bot.Symbol.{pair_eq_key}
use crypto_bot.Double.{Double}
use crypto_bot.Json.{Json}
use crypto_bot.Ticker.{Ticker}
use crypto_bot.TickersWatcher
use crypto_bot.BinanceTickers.{
  TickerStream, check_message, read_book_ticker, after_book_ticker, on_book_message,
}

module _ {ℓ} {D : Type ℓ} where
  -- A ticker is reported with its pair in the table of last arrivals, and else nothing has changed.
  abbrev pub IsReported : TickerStream → TickerStream × Outcome (Option (Ticker D)) → Type 0
  IsReported s (s1, ok (some t)) = find t.symbol s1.tickers_watcher.last_arrived ≡ some t.arrived_ts
  IsReported s (s1, ok none) = s1 ≡ s
  IsReported s (s1, throws x) = s1 ≡ s

  after_book_ticker-IsReported :
      (s : TickerStream) (r : Outcome (Ticker D)) → IsReported s (after_book_ticker s r)
  unfolding after_book_ticker TickersWatcher.set
  after_book_ticker-IsReported s (throws x) = refl
  after_book_ticker-IsReported s (ok t) =
      find-insert_or_assign t.symbol t.symbol t.arrived_ts s.tickers_watcher.last_arrived
      ∙ rw (beq_refl t.symbol) refl

module _ {ℓ} {J : Type 0} (D : Type ℓ) ⦃j : Json J⦄ ⦃d : Double D⦄ where
  -- For a message of any kind: a ticker is reported together with the time of its pair in the table
  -- that the watcher goes through, and a message that is not complete or cannot be read changes
  -- nothing.
  pub on_book_message-IsReported :
      (now : ℕ) (v : J) (s : TickerStream) → IsReported {D = D} s (on_book_message now v s)
  unfolding on_book_message
  on_book_message-IsReported now v s =
      elim (Bool-cases
        (j.is_object v && check_message v ("u" ∷ "s" ∷ "b" ∷ "B" ∷ "a" ∷ "A" ∷ []))) [
          | inl e ↦
              rw (e, on_book_message) (after_book_ticker-IsReported s (read_book_ticker now v))
          | inr e ↦ rw (e, on_book_message) refl
        ]
