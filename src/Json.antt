-- ===== src/Json.antt =====
-- What the code uses of the JSON library that it carries: the library's types and functions are an
-- interface.
pub mod Flat
use crypto_bot.Prelude.{ℕ, Bool, String, List, Outcome, ◌>>=◌, or_throw, invalid_argument}
use crypto_bot.Prelude.Int.{ℤ}
use crypto_bot.Double.{Double}

-- `parse` is `json::parse`, `field` and `element` are `operator[]`, `values` is a range of `for`
-- and `items` one over `items()`. `get_string`, `get_int`, `get_uint` and `get_bool` are
-- `get<std::string>()`, `get<int64_t>()`, `get<uint64_t>()` and `get<bool>()`. What fails leaves by
-- an exception.
pub record Json (J : Type 0) : Type 0 where
  pub parse : String → Outcome J
  pub contains : J → String → Bool
  pub field : J → String → Outcome J
  pub element : J → ℕ → Outcome J
  pub size : J → ℕ
  pub values : J → List J
  pub items : J → List (String × J)
  pub is_array : J → Bool
  pub is_object : J → Bool
  pub get_string : J → Outcome String
  pub get_int : J → Outcome ℤ
  pub get_uint : J → Outcome ℕ
  pub get_bool : J → Outcome Bool

module _ {J : Type 0} ⦃j : Json J⦄ where
  -- `v[key].get<std::string>()` and the like.
  abbrev pub text_field : J → String → Outcome String
  text_field v key = do f ← j.field v key; j.get_string f

  abbrev pub int_field : J → String → Outcome ℤ
  int_field v key = do f ← j.field v key; j.get_int f

  abbrev pub uint_field : J → String → Outcome ℕ
  uint_field v key = do f ← j.field v key; j.get_uint f

  abbrev pub bool_field : J → String → Outcome Bool
  bool_field v key = do f ← j.field v key; j.get_bool f

  -- `std::stod(v[key].get<std::string>())`
  abbrev pub double_field {ℓ} : {D : Type ℓ} ⦃d : Double D⦄ → J → String → Outcome D
  double_field ⦃d⦄ v key = do s ← text_field v key; or_throw (d.stod s) invalid_argument
