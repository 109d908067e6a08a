-- ===== src/UserDataStream/Keys.antt =====
-- The key of websocket/binance_user_data_stream.hpp: asking for a new one, and keeping one alive.
use crypto_bot.Prelude.{
  ℕ, zero, suc, ◌+◌, ◌-◌, ◌%◌, ◌^◌, ◌≤◌, ◌<◌, ◌≡◌, refl, none, some, String, ok, arith,
}
use crypto_bot.UserDataStream.{
  UserDataStream, Answers, ask_within, on_close, stream_uri, keepalive_interval, on_ping,
}

ask_within-first :
    (answers : Answers) (n k m : ℕ) (key : String)
    → k + n ≡ m
    → ((i : ℕ) → k ≤ i → i < m → answers i ≡ ok none)
    → answers m ≡ ok (some key)
    → ask_within (suc n) answers k ≡ some (ok (key, m))
unfolding ask_within
ask_within-first answers zero k m key e before last =
    let same : k ≡ m = omega (arith, e) in rw same (rw (last, ask_within) refl)
ask_within-first answers (suc n) k m key e before last =
    rw (before k (omega arith) (omega (arith, e)), ask_within)
      (ask_within-first answers n (k + 1) m key (omega (arith, e))
        (λ i l h. before i (omega (arith, l)) h) last)

-- When the connection closes and the first n requests for a key fail, but the next one gives a key,
-- then `OnClose` ends with its answer: the address has that key. The key that is kept alive stays
-- the old one.
pub on_close-first :
    (answers : Answers) (n : ℕ) (key : String) (s : UserDataStream)
    → ((i : ℕ) → i < n → answers i ≡ ok none)
    → answers n ≡ ok (some key)
    → on_close (suc n) answers s ≡ some (ok (record s { uri = stream_uri key }))
unfolding on_close
on_close-first answers n key s before last =
    rw (ask_within-first answers n 0 n key (omega arith) (λ i l h. before i h) last) refl

-- A key that Binance has not been asked to keep alive for at least half an hour is kept alive at
-- the next ping, and then not again before another half hour has gone by: of two pings closer
-- together than that, at most the first asks.
pub on_ping-once :
    (now later : ℕ) (s : UserDataStream)
    → now ≤ later
    → later < 2 ^ 64
    → later - now ≤ keepalive_interval
    → (on_ping now s).1 ≡ some s.listen_key
    → (on_ping later (on_ping now s).0).1 ≡ none
unfolding on_ping
on_ping-once now later s l b h asked = ground (arith, asked, wrap)
  where
    wrap : (later + 2 ^ 64 - now) % 2 ^ 64 ≡ later - now
    wrap = omega (arith, l, b)
