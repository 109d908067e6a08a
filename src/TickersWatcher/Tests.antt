-- ===== src/TickersWatcher/Tests.antt =====
-- A witness for websocket/tickers_watcher.hpp.
use crypto_bot.Prelude.{◌≡◌, [], ◌∷◌}
use crypto_bot.Prelude.Int.{ℤ, pos}
use crypto_bot.Symbol.{btc_usdt, unknown}
use crypto_bot.Double.{exact}
use crypto_bot.TickersWatcher.{TickersWatcher, watch}
use crypto_bot.TickersWatcher.Closing.{has_older, watch-has_older}

abbrev watcher : TickersWatcher
watcher = record {
  interval_ms = 5;
  last_arrived = (btc_usdt, 1000) ∷ (unknown, 9000) ∷ [];
  sum_delay = 0;
  count = 0;
}

watch-has_older_example :
    (watch {D = ℤ} 9500 watcher).1 ≡ has_older 9500 (pos 5) watcher.last_arrived
watch-has_older_example = watch-has_older 9500 watcher
