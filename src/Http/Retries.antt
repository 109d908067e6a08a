-- ===== src/Http/Retries.antt =====
-- How often http/http_client.hpp sends a request, and what its replies say.
use Prim.Native.String.{◌++◌ as str_append}
use text.Mathlib.Text.{◌==◌ as str_eq}
use crypto_bot.Prelude.{ℕ, suc, ◌+◌, ◌≤◌, ◌≡◌, true, false, Option, some, String}
use crypto_bot.Http.{is_success, Network, Sent, Built}

module _ {W : Type 0} (net : Network W) where
  -- A call that began after `n` exchanges, with `left` retries left.
  pub record IsBounded (n left : ℕ) (x : Sent W) : Type 0 where
    pub at_most : x.exchanges ≤ n + suc left
    pub answered :
        is_success x.reply ≡ true
        → (b : Built) × (w : W) × (net.exchange b w ≡ (x.world, (false, x.reply.response)))

  abbrev Ends : ℕ → ℕ → Option (Sent W) → Type 0
  Ends n left o = (x : Sent W) × (o ≡ some x) × IsBounded n left x
