-- ===== src/Settings/Precision.antt =====
-- The precision that utils/string.cc reads from a text.
use Prim.Native.Char.{Char, code}
use Prim.Native.String.append
use Prim.Native.String.{◌++◌ as str_append}
use crypto_bot.Prelude.{
  ℕ, ◌+◌, ◌≡◌, refl, ap, ◌∙◌, true, false, if◌then◌else◌, String, ok, ltb, ◌==◌, arith,
}
use crypto_bot.Settings.{is_digit, decimals_from, precision_from_string}

abbrev pub text_length : String → ℕ
text_length String.[] = 0
text_length (String.◌∷◌ c s) = text_length s + 1

abbrev pub IsDigits : String → Type 0
IsDigits String.[] = Unit
IsDigits (String.◌∷◌ c s) = (is_digit (code c) ≡ true) × IsDigits s

abbrev pub IsZeros : String → Type 0
IsZeros String.[] = Unit
IsZeros (String.◌∷◌ c s) = (code c ≡ 48) × IsZeros s

-- No decimals, or decimals of which the last is not 0.
abbrev pub IsTrimmed : String → Type 0
IsTrimmed String.[] = Unit
IsTrimmed (String.◌∷◌ c String.[]) = ltb 48 (code c) ≡ true
IsTrimmed (String.◌∷◌ c (String.◌∷◌ e s)) = IsTrimmed (String.◌∷◌ e s)

decimals_from-zeros : (j last : ℕ) (z : String) → IsZeros z → decimals_from j last z ≡ ok last
unfolding decimals_from
decimals_from-zeros j last String.[] h = refl
decimals_from-zeros j last (String.◌∷◌ c s) (e, h) = rw e (decimals_from-zeros (j + 1) last s h)

decimals_from-trimmed :
    (j last : ℕ) (c : Char) (s z : String)
    → IsDigits (String.◌∷◌ c s)
    → IsTrimmed (String.◌∷◌ c s)
    → IsZeros z
    → decimals_from j last (str_append (String.◌∷◌ c s) z) ≡ ok (j + text_length (String.◌∷◌ c s))
unfolding decimals_from
decimals_from-trimmed j last c String.[] z (d, ds) t h =
    ap (decimals_from j last) (append.cons c String.[] z ∙ ap (String.◌∷◌ c) (append.nil z))
    ∙ rw (d, t) (decimals_from-zeros (j + 1) (j + 1) z h)
decimals_from-trimmed j last c (String.◌∷◌ e s) z (d, ds) t h =
    ap (decimals_from j last) (append.cons c (String.◌∷◌ e s) z)
    ∙ rw d (
        decimals_from-trimmed (j + 1) (if ltb 48 (code c) then j + 1 else last) e s z ds t h
        ∙ ap ok (omega arith))

decimals_from-counts :
    (s z : String)
    → IsDigits s
    → IsTrimmed s
    → IsZeros z
    → decimals_from 0 0 (str_append s z) ≡ ok (text_length s)
unfolding decimals_from
decimals_from-counts String.[] z d t h =
    ap (decimals_from 0 0) (append.nil z) ∙ decimals_from-zeros 0 0 z h
decimals_from-counts (String.◌∷◌ c s) z d t h =
    decimals_from-trimmed 0 0 c s z d t h ∙ ap ok (omega arith)

point : (c : ℕ) → is_digit c ≡ true → (c == 46) ≡ false
point c h = ground arith

-- A text of digits, a point and digits has as its precision the number of decimals without the
-- zeros at the end.
pub precision_from_string-counts :
    (whole s z : String)
    → IsDigits whole
    → IsDigits s
    → IsTrimmed s
    → IsZeros z
    → precision_from_string (str_append whole (str_append "." (str_append s z)))
      ≡ ok (text_length s)
unfolding precision_from_string
precision_from_string-counts String.[] s z w d t h =
    ap precision_from_string (append.nil (str_append "." (str_append s z)) ∙ dot (str_append s z))
    ∙ decimals_from-counts s z d t h
  where
    dot : (x : String) → str_append "." x ≡ String.◌∷◌ "." x
    dot x = append.cons "." String.[] x ∙ ap (String.◌∷◌ ".") (append.nil x)
precision_from_string-counts (String.◌∷◌ c whole) s z (e, w) d t h =
    ap precision_from_string (append.cons c whole (str_append "." (str_append s z)))
    ∙ rw (point (code c) e, e) (precision_from_string-counts whole s z w d t h)

-- A text of digits without a point has the precision 0.
pub precision_from_string-whole : (s : String) → IsDigits s → precision_from_string s ≡ ok 0
unfolding precision_from_string
precision_from_string-whole String.[] d = refl
precision_from_string-whole (String.◌∷◌ c s) (e, d) =
    rw (point (code c) e, e) (precision_from_string-whole s d)
