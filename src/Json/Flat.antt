-- ===== src/Json/Flat.antt =====
-- A small implementation of the interface to JSON, for tests: texts, numbers, and objects and
-- arrays of these.
use crypto_bot.Prelude.{
  ℕ, Bool, true, false, Option, none, some, String, List, [], map, Outcome, ok, throws,
  runtime_error, length, get_elem?,
}
use crypto_bot.Prelude.Int.{ℤ, pos}
use crypto_bot.Assoc.{find}
use crypto_bot.Symbol.{string_key}
use crypto_bot.Json.{Json}

pub data Scalar : Type 0 where
  words : String → Scalar
  truth : Bool → Scalar
  number : ℤ → Scalar

pub data Flat : Type 0 where
  scalar : Scalar → Flat
  object : List (String × Scalar) → Flat
  array : List Scalar → Flat

abbrev lift : Option Scalar → Outcome Flat
lift none = throws runtime_error
lift (some s) = ok (scalar s)

abbrev has : Option Scalar → Bool
has none = false
has (some s) = true

abbrev flat_contains : Flat → String → Bool
unfolding find
flat_contains (object m) key = has (find key m)
flat_contains _ key = false

abbrev flat_field : Flat → String → Outcome Flat
unfolding find
flat_field (object m) key = lift (find key m)
flat_field _ key = throws runtime_error

abbrev flat_element : Flat → ℕ → Outcome Flat
flat_element (array l) k = lift (get_elem? l k)
flat_element _ k = throws runtime_error

abbrev flat_size : Flat → ℕ
flat_size (array l) = length l
flat_size (object m) = length m
flat_size (scalar s) = 1

abbrev flat_values : Flat → List Flat
flat_values (array l) = map scalar l
flat_values _ = []

abbrev flat_items : Flat → List (String × Flat)
flat_items (object m) = map (λ p. (p.0, scalar p.1)) m
flat_items _ = []

abbrev flat_string : Flat → Outcome String
flat_string (scalar (words s)) = ok s
flat_string _ = throws runtime_error

abbrev flat_int : Flat → Outcome ℤ
flat_int (scalar (number n)) = ok n
flat_int _ = throws runtime_error

abbrev flat_uint : Flat → Outcome ℕ
flat_uint (scalar (number (pos n))) = ok n
flat_uint _ = throws runtime_error

abbrev flat_bool : Flat → Outcome Bool
flat_bool (scalar (truth t)) = ok t
flat_bool _ = throws runtime_error

abbrev is_list : Flat → Bool
is_list (array l) = true
is_list _ = false

abbrev is_map : Flat → Bool
is_map (object m) = true
is_map _ = false

-- An implementation that reads every text as one value.
unfoldable pub reads_as : Flat → Json Flat
unfolding flat_contains flat_field
reads_as v = record {
  parse = λ s. ok v;
  contains = flat_contains;
  field = flat_field;
  element = flat_element;
  size = flat_size;
  values = flat_values;
  items = flat_items;
  is_array = is_list;
  is_object = is_map;
  get_string = flat_string;
  get_int = flat_int;
  get_uint = flat_uint;
  get_bool = flat_bool;
}
