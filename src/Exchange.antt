-- ===== src/Exchange.antt =====
-- exchange/exchange_client.h: what a request to an exchange gives back.
use crypto_bot.Prelude.{Bool, Option, none, some, String, Outcome, or_throw, bad_optional_access}
use text.Mathlib.Text.{◌==◌ as str_eq}

-- `class Result`: it counts as a success if there is no error message.
pub record Result {ℓ} (A : Type ℓ) : Type ℓ where
  pub raw_response : String
  pub error_msg : String
  pub result_object : Option A

module _ {ℓ} {A : Type ℓ} where
  -- The two constructors: a result with an object, and one with an error message.
  abbrev pub success : String → A → Result A
  success raw obj = record { raw_response = raw; error_msg = ""; result_object = some obj }

  abbrev pub failure : String → String → Result A
  failure raw msg = record { raw_response = raw; error_msg = msg; result_object = none }

  unfoldable pub succeeded : Result A → Bool
  succeeded r = str_eq r.error_msg ""

  unfoldable pub get : Result A → Outcome A
  get r = or_throw r.result_object bad_optional_access
