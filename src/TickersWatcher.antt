-- ===== src/TickersWatcher.antt =====
-- websocket/tickers_watcher.hpp: when the last message for each pair arrived. The thread that calls
-- WatchImpl is not modelled: `watch` is one such call.
pub mod Closing
mod Tests
use crypto_bot.Prelude.{ℕ, ◌+◌, ◌-◌, ◌%◌, ◌^◌, Bool, if◌then◌else◌, List, [], ◌∷◌}
use crypto_bot.Assoc.{insert_or_assign}
use crypto_bot.Symbol.{SymbolPairId, unknown, pair_eq_key}
use crypto_bot.Double.{Double}

pub record TickersWatcher : Type 0 where
  pub interval_ms : ℕ
  pub last_arrived : List (SymbolPairId × ℕ)
  pub sum_delay : ℕ
  pub count : ℕ

unfoldable pub set : SymbolPairId → ℕ → ℕ → TickersWatcher → TickersWatcher
unfolding insert_or_assign
set spid arrived_ts source_ts w = record w {
  last_arrived = insert_or_assign spid arrived_ts w.last_arrived;
  sum_delay = (w.sum_delay + (arrived_ts + 2 ^ 64 - source_ts) % 2 ^ 64) % 2 ^ 64;
  count = (w.count + 1) % 2 ^ 64;
}

module _ {ℓ} {D : Type ℓ} ⦃d : Double D⦄ where
  -- `ms_since_last`
  abbrev pub age : ℕ → ℕ → D
  age now ts = d.div (d.of_ℕ ((now + 2 ^ 64 - ts) % 2 ^ 64)) (d.lit 10000 1)

  -- The loop of `WatchImpl`: the greatest age in milliseconds, and its pair.
  unfoldable pub oldest : ℕ → SymbolPairId × D → List (SymbolPairId × ℕ) → SymbolPairId × D
  oldest now best [] = best
  oldest now (pair, max_age) ((p, ts) ∷ m) =
      let ms_since_last = age now ts in
      oldest now (if d.lt max_age ms_since_last then (p, ms_since_last) else (pair, max_age)) m

  -- `WatchImpl`: the state that it leaves, the pair whose last message is the oldest, with its age,
  -- and whether it closes the connection.
  unfoldable pub watch : ℕ → TickersWatcher → (TickersWatcher × (SymbolPairId × D)) × Bool
  unfolding oldest
  watch now w =
      let (pair, max_age) = oldest now (unknown, d.of_ℕ 0) w.last_arrived in
      (
        (record w { sum_delay = 0; count = 0 }, (pair, max_age)),
        d.lt (d.of_ℕ w.interval_ms) max_age,
      )
