-- ===== src/Store/Values.antt =====
-- A small implementation of the interface to BSON, for tests.
use crypto_bot.Prelude.{
  ℕ, ◌%◌, ◌^◌, ◌≡◌, refl, ap, Bool, true, false, String, List, [], ◌∷◌, Outcome, ok, throws,
  runtime_error,
}
use crypto_bot.Prelude.Int.{ℤ}
use crypto_bot.Store.{Bson, IsFaithful}

mutual
  pub data Value : Type 0 where
    real : ℤ → Value
    words : String → Value
    whole : ℕ → Value
    truth : Bool → Value
    sequence : Sequence → Value
    mapping : Mapping → Value

  pub data Sequence : Type 0 where
    empty : Sequence
    first : Value → Sequence → Sequence

  pub data Mapping : Type 0 where
    no_field : Mapping
    one_field : String → Value → Mapping → Mapping

abbrev to_sequence : List Value → Sequence
to_sequence [] = empty
to_sequence (v ∷ vs) = first v (to_sequence vs)

abbrev of_sequence : Sequence → List Value
of_sequence empty = []
of_sequence (first v s) = v ∷ of_sequence s

abbrev to_mapping : List (String × Value) → Mapping
to_mapping [] = no_field
to_mapping ((k, v) ∷ m) = one_field k v (to_mapping m)

abbrev of_mapping : Mapping → List (String × Value)
of_mapping no_field = []
of_mapping (one_field k v m) = (k, v) ∷ of_mapping m

of_sequence-to_sequence : (l : List Value) → of_sequence (to_sequence l) ≡ l
of_sequence-to_sequence [] = refl
of_sequence-to_sequence (v ∷ l) = ap (λ m. v ∷ m) (of_sequence-to_sequence l)

of_mapping-to_mapping : (l : List (String × Value)) → of_mapping (to_mapping l) ≡ l
of_mapping-to_mapping [] = refl
of_mapping-to_mapping ((k, v) ∷ l) = ap (λ m. (k, v) ∷ m) (of_mapping-to_mapping l)

abbrev as_real : Value → Outcome ℤ
as_real (real x) = ok x
as_real _ = throws runtime_error

abbrev as_words : Value → Outcome String
as_words (words s) = ok s
as_words _ = throws runtime_error

abbrev as_whole : Value → Outcome ℕ
as_whole (whole n) = ok (n % 2 ^ 64)
as_whole _ = throws runtime_error

abbrev as_truth : Value → Outcome Bool
as_truth (truth t) = ok t
as_truth _ = throws runtime_error

abbrev as_list : Value → Outcome (List Value)
as_list (sequence s) = ok (of_sequence s)
as_list _ = throws runtime_error

abbrev as_fields : Value → Outcome (List (String × Value))
as_fields (mapping m) = ok (of_mapping m)
as_fields _ = throws runtime_error

abbrev is_real : Value → Bool
is_real (real x) = true
is_real _ = false

unfoldable pub values : Bson Value ℤ
values = record {
  double = real;
  utf8 = words;
  int64 = whole;
  boolean = truth;
  array = λ l. sequence (to_sequence l);
  document = λ l. mapping (to_mapping l);
  get_double = as_real;
  get_utf8 = as_words;
  get_int64 = as_whole;
  get_bool = as_truth;
  get_array = as_list;
  get_fields = as_fields;
  is_double = is_real;
}

pub values-IsFaithful : IsFaithful values
unfolding values
values-IsFaithful = record {
  get_double-double = λ x. refl;
  get_utf8-utf8 = λ s. refl;
  get_int64-int64 = λ n. refl;
  get_bool-boolean = λ t. refl;
  get_array-array = λ l. ap ok (of_sequence-to_sequence l);
  get_fields-document = λ l. ap ok (of_mapping-to_mapping l);
  is_double-double = λ x. refl;
}
