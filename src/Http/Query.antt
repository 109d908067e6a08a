-- ===== src/Http/Query.antt =====
-- The query that http/http_client.hpp makes of the parameters of a request.
use Prim.Native.String.append
use Prim.Native.String.{◌++◌ as str_append}
use crypto_bot.Prelude.{◌≡◌, refl, ap, ◌∙◌, Bool, true, false, ◌||◌, String, List, [], ◌∷◌}
use crypto_bot.Prelude.Strings.{is_cons, is_cons-append, is_cons-not_empty, append_assoc}
use crypto_bot.Http.{add_params}

abbrev pub pair_text : String × String → String
pair_text (key, value) = str_append (str_append key "=") value

-- The pairs, each two with a `&` between them.
abbrev pub join_pairs : List (String × String) → String
join_pairs [] = ""
join_pairs (p ∷ []) = pair_text p
join_pairs (p ∷ q ∷ params) = str_append (pair_text p) (str_append "&" (join_pairs (q ∷ params)))

pair_text-is_cons : (p : String × String) → is_cons (pair_text p) ≡ true
pair_text-is_cons (key, value) =
    is_cons-append (str_append key "=") value
    ∙ ap (λ b. b || is_cons value) (is_cons-append key "=" ∙ or_true (is_cons key))
  where
    or_true : (b : Bool) → (b || true) ≡ true
    or_true true = refl
    or_true false = refl

regroup :
    (query key value : String)
    → str_append (str_append (str_append (str_append query "&") key) "=") value
      ≡ str_append query (str_append "&" (pair_text (key, value)))
regroup query key value = simp append_assoc refl

-- Behind a text that is not empty.
add_params-behind :
    (p : String × String) (params : List (String × String)) (query : String)
    → is_cons query ≡ true
    → add_params (p ∷ params) query ≡ str_append query (str_append "&" (join_pairs (p ∷ params)))
unfolding add_params
add_params-behind (key, value) [] query h = rw (is_cons-not_empty query h) (regroup query key value)
add_params-behind (key, value) (q ∷ params) query h = rw (is_cons-not_empty query h) (
    ap (add_params (q ∷ params)) (regroup query key value)
    ∙ add_params-behind q params (str_append query (str_append "&" (pair_text (key, value)))) (
        is_cons-append query (str_append "&" (pair_text (key, value)))
        ∙ ap (λ b. b || is_cons (str_append "&" (pair_text (key, value)))) h)
    ∙ append_assoc query _ _
    ∙ ap (str_append query) (append_assoc "&" _ _))

first_pair :
    (p : String × String) → str_append (str_append (str_append "" p.0) "=") p.1 ≡ pair_text p
first_pair (key, value) = ap (λ x. str_append (str_append x "=") value) (append.nil key)

-- The query of a request is its parameters as `key=value`, in the order of the map, with a `&`
-- between each two and none before the first or behind the last, also where keys or values are
-- empty.
pub add_params-join_pairs :
    (params : List (String × String)) → add_params params "" ≡ join_pairs params
unfolding add_params
add_params-join_pairs [] = refl
add_params-join_pairs ((key, value) ∷ []) = first_pair (key, value)
add_params-join_pairs ((key, value) ∷ q ∷ params) =
    ap (add_params (q ∷ params)) (first_pair (key, value))
    ∙ add_params-behind q params (pair_text (key, value)) (pair_text-is_cons (key, value))
