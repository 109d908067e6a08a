-- ===== src/Numerals.antt =====
-- `std::to_string` of an unsigned integer of 64 bits, which has 20 digits at most.
use Prim.Native.String.{◌++◌ as str_append}
use crypto_bot.Prelude.{
  ℕ, zero, suc, ◌/◌, ◌%◌, ◌≡◌, refl, String, List, [], ◌∷◌, Option, none, some, get_elem?, ltb,
  if◌then◌else◌,
}

abbrev digits : List String
digits = "0" ∷ "1" ∷ "2" ∷ "3" ∷ "4" ∷ "5" ∷ "6" ∷ "7" ∷ "8" ∷ "9" ∷ []

abbrev or_empty : Option String → String
or_empty none = ""
or_empty (some s) = s

-- `acc` holds the digits behind those of `n`.
unfoldable decimal : ℕ → ℕ → String → String
decimal zero n acc = acc
decimal (suc fuel) n acc =
    let longer = str_append (or_empty (get_elem? digits (n % 10))) acc in
    let rest = decimal fuel (n / 10) longer in if ltb n 10 then longer else rest

unfoldable pub to_string : ℕ → String
unfolding decimal
to_string n = decimal 20 n ""

two_digits : to_string 10 ≡ "10"
unfolding to_string
two_digits = refl
