-- ===== src/KrakenBook/Numbers.antt =====
-- The functions of std::string that websocket/kraken_order_book_handler.hpp applies to numbers.
use Prim.Native.Char.{code}
use crypto_bot.Prelude.{
  ◌≡◌, refl, ℕ, zero, suc, ◌+◌, ◌-◌, ◌*◌, ◌%◌, ◌^◌, Bool, true, false, ◌&&◌, if◌then◌else◌, String,
  Outcome, ok, throws, invalid_argument, out_of_range, ◌==◌, ltb, leb,
}

abbrev pub npos : ℕ
npos = 2 ^ 64 - 1

abbrev pub size : String → ℕ
size String.[] = 0
size (String.◌∷◌ c s) = size s + 1

-- `find('.')`
abbrev dot_from : ℕ → String → ℕ
dot_from i String.[] = npos
dot_from i (String.◌∷◌ c s) = let rest = dot_from (i + 1) s in if code c == 46 then i else rest

abbrev pub find_dot : String → ℕ
find_dot s = dot_from 0 s

-- The text without the character at a place.
abbrev without : ℕ → String → String
without n String.[] = String.[]
without zero (String.◌∷◌ c s) = s
without (suc n) (String.◌∷◌ c s) = String.◌∷◌ c (without n s)

-- `erase(pos, 1)`
abbrev pub erase_at : ℕ → String → Outcome String
erase_at pos s = if ltb (size s) pos then throws out_of_range else ok (without pos s)

-- `std::isspace` in the C locale.
abbrev is_space : ℕ → Bool
is_space c = if c == 32 then true else leb 9 c && leb c 13

-- The value of the digits that a text begins with, added to the digits read so far.
abbrev digits_from : ℕ → String → ℕ
digits_from n String.[] = n
digits_from n (String.◌∷◌ c s) =
    let rest = digits_from (n * 10 + (code c - 48)) s in
    if leb 48 (code c) && leb (code c) 57 then rest else n

abbrev starts_with_digit : String → Bool
starts_with_digit String.[] = false
starts_with_digit (String.◌∷◌ c s) = leb 48 (code c) && leb (code c) 57

-- A number without its sign: a text that does not begin with a digit is refused, and so is a value
-- of more than 64 bits.
abbrev magnitude : String → Outcome ℕ
magnitude s =
    if starts_with_digit s
    then if ltb (digits_from 0 s) (2 ^ 64) then ok (digits_from 0 s) else throws out_of_range
    else throws invalid_argument

abbrev negated : Outcome ℕ → Outcome ℕ
negated (throws e) = throws e
negated (ok n) = ok ((2 ^ 64 - n) % 2 ^ 64)

abbrev signed : String → Outcome ℕ
signed String.[] = throws invalid_argument
signed (String.◌∷◌ c s) =
    if code c == 43
    then magnitude s
    else if code c == 45
    then negated (magnitude s)
    else magnitude (String.◌∷◌ c s)

-- `std::stoull`, and `std::stoul`, where `unsigned long` has 64 bits.
abbrev pub stoull : String → Outcome ℕ
stoull String.[] = throws invalid_argument
stoull (String.◌∷◌ c s) =
    let rest = stoull s in if is_space (code c) then rest else signed (String.◌∷◌ c s)

stoull_pads : stoull " 0042.5" ≡ ok 42
stoull_pads = refl

dot_found : find_dot "12.50" ≡ 2
dot_found = refl
