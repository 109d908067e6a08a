-- ===== src/TickersWatcher/Closing.antt =====
-- When websocket/tickers_watcher.hpp closes the connection.
use crypto_bot.Prelude.{
  ℕ, ◌≡◌, refl, ap, ◌∙◌, Bool, true, false, ◌||◌, if◌then◌else◌, List, [], ◌∷◌, arith,
}
use crypto_bot.Prelude.Int.{ℤ, pos, ltb_ℤ}
use crypto_bot.Symbol.{SymbolPairId, unknown}
use crypto_bot.Double.{exact, max_double}
use crypto_bot.TickersWatcher.{TickersWatcher, oldest, watch, age}

-- Whether some last message is older than `limit` milliseconds.
abbrev pub has_older : ℕ → ℤ → List (SymbolPairId × ℕ) → Bool
has_older now limit [] = false
has_older now limit ((p, ts) ∷ m) = ltb_ℤ limit (age now ts) || has_older now limit m

above_greater :
    (limit a b : ℤ) (rest : Bool)
    → (ltb_ℤ limit (max_double a b) || rest) ≡ (ltb_ℤ limit a || (ltb_ℤ limit b || rest))
above_greater limit a b rest = ground arith

second_of_if :
    (c : Bool) (a b : SymbolPairId × ℤ) → (if c then a else b).1 ≡ (if c then a.1 else b.1)
second_of_if true a b = refl
second_of_if false a b = refl

oldest-has_older :
    (now : ℕ) (limit : ℤ) (pair : SymbolPairId) (max_age : ℤ) (m : List (SymbolPairId × ℕ))
    → ltb_ℤ limit (oldest now (pair, max_age) m).1 ≡ (ltb_ℤ limit max_age || has_older now limit m)
unfolding oldest
oldest-has_older now limit pair max_age [] = or_false (ltb_ℤ limit max_age)
  where
    or_false : (b : Bool) → b ≡ (b || false)
    or_false true = refl
    or_false false = refl
oldest-has_older now limit pair max_age ((p, ts) ∷ m) =
    let best : SymbolPairId × ℤ =
      if ltb_ℤ max_age (age now ts) then (p, age now ts) else (pair, max_age) in
    oldest-has_older now limit best.0 best.1 m
    ∙ ap (λ x. ltb_ℤ limit x || has_older now limit m)
        (second_of_if (ltb_ℤ max_age (age now ts)) (p, age now ts) (pair, max_age))
    ∙ above_greater limit max_age (age now ts) (has_older now limit m)

-- One look of the watcher closes the connection exactly if the last message of some pair is older
-- than the interval. Ages are whole milliseconds.
pub watch-has_older :
    (now : ℕ) (w : TickersWatcher)
    → (watch {D = ℤ} now w).1 ≡ has_older now (pos w.interval_ms) w.last_arrived
unfolding watch
watch-has_older now w =
    oldest-has_older now (pos w.interval_ms) unknown (pos 0) w.last_arrived
    ∙ ap (λ b. b || has_older now (pos w.interval_ms) w.last_arrived) (not_negative w.interval_ms)
  where
    not_negative : (n : ℕ) → ltb_ℤ (pos n) (pos 0) ≡ false
    not_negative n = ground arith
