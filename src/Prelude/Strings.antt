-- ===== src/Prelude/Strings.antt =====
-- Lemmas on the concatenation of texts.
use Prim.Native.String.append
use Prim.Native.String.{String, ◌++◌ as str_append}
use mathlib.Core.Path.{◌≡◌, sym, ap, ◌∙◌}
use mathlib.Core.Bool.{Bool, true, false, ◌||◌}
use mathlib.Core.Logic.{inl, inr}
use text.Mathlib.Text.{◌==◌ as str_eq}
use text.Mathlib.TextEquality.{eq_iff}
use crypto_bot.Prelude.Tests.{Bool-cases}

abbrev pub is_cons : String → Bool
is_cons String.[] = false
is_cons (String.◌∷◌ c s) = true

pub is_cons-append : (s t : String) → is_cons (str_append s t) ≡ (is_cons s || is_cons t)
is_cons-append String.[] t = ap is_cons (append.nil t)
is_cons-append (String.◌∷◌ c s) t = ap is_cons (append.cons c s t)

pub is_cons-not_empty : (s : String) → is_cons s ≡ true → str_eq s "" ≡ false
is_cons-not_empty s h = elim (Bool-cases (str_eq s "")) [
  | inr differs ↦ differs
  | inl same ↦ absurd (cc (h, ap is_cons ((eq_iff s "").0 same)))
]

pub append_assoc : (s t u : String) → str_append (str_append s t) u ≡ str_append s (str_append t u)
append_assoc String.[] t u =
    ap (λ x. str_append x u) (append.nil t) ∙ sym (append.nil (str_append t u))
append_assoc (String.◌∷◌ c s) t u =
    ap (λ x. str_append x u) (append.cons c s t)
    ∙ append.cons c (str_append s t) u
    ∙ ap (String.◌∷◌ c) (append_assoc s t u)
    ∙ sym (append.cons c s (str_append t u))

pub append_empty : (s : String) → str_append s "" ≡ s
append_empty String.[] = append.nil ""
append_empty (String.◌∷◌ c s) = append.cons c s "" ∙ ap (String.◌∷◌ c) (append_empty s)
