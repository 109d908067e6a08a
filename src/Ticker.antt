-- ===== src/Ticker.antt =====
-- model/ticker.h: the best prices of a pair on an exchange.
use crypto_bot.Prelude.{ℕ, String, Option}
use crypto_bot.Symbol.{SymbolPairId}

pub record Ticker {ℓ} (D : Type ℓ) : Type ℓ where
  pub ask : D
  pub ask_vol : Option D
  pub bid : D
  pub bid_vol : Option D
  pub source_ts : Option ℕ
  pub arrived_ts : ℕ
  pub id : ℕ
  pub exchange : String
  pub symbol : SymbolPairId
