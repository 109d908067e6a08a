-- ===== src/Double.antt =====
-- The C++ type `double`: the operations that the code applies to it. The definitions of the
-- library take any type with these operations, so they say nothing of rounding. The instance on ℤ
-- is arithmetic that does not round: amounts counted in a smallest unit.
pub mod Strict
use Prim.Native.Char.{code}
use crypto_bot.Prelude.{
  ℕ, ◌+◌, ◌-◌, ◌*◌, ◌/◌, ◌^◌, ◌≡◌, Bool, true, false, ◌&&◌, Option, none, some, String, List, [],
  ◌∷◌, arith, leb, ◌==◌, if◌then◌else◌,
}
use crypto_bot.Prelude.Int.{ℤ, pos, pos_part, neg_part, sub_ℕ, ltb_ℤ, ◌+ℤ◌, ◌-ℤ◌, ◌*ℤ◌}

-- `of_ℕ` converts an unsigned integer and `to_ℕ` is the cast to `uint64_t`. `lit m k` is the
-- literal whose digits are `m`, the last `k` of them behind the point. `stod` reads a text, and
-- gives `none` where `std::stod` throws. `lt`, `le` and `eq` are `<`, `<=` and `==`,
-- and `greatest` and `lowest` are `max()` and `lowest()` of `std::numeric_limits`.
pub record Double {ℓ} (D : Type ℓ) : Type ℓ where
  pub add : D → D → D
  pub sub : D → D → D
  pub mul : D → D → D
  pub div : D → D → D
  pub neg : D → D
  pub lt : D → D → Bool
  pub le : D → D → Bool
  pub eq : D → D → Bool
  pub of_ℕ : ℕ → D
  pub lit : ℕ → ℕ → D
  pub to_ℕ : D → ℕ
  pub stod : String → Option D
  pub greatest : D
  pub lowest : D

module _ {ℓ} {D : Type ℓ} ⦃d : Double D⦄ where
  -- `std::min` and `std::max`, with the argument that they take where the two are not ordered.
  abbrev pub min_double : D → D → D
  min_double a b = if d.lt b a then b else a

  abbrev pub max_double : D → D → D
  max_double a b = if d.lt a b then b else a

-- What `<` has on every double, NaN included.
pub record IsStrict {ℓ} (D : Type ℓ) ⦃d : Double D⦄ : Type ℓ where
  pub lt_irrefl : (a : D) → d.lt a a ≡ false
  pub lt_trans : (a b c : D) → d.lt a b ≡ true → d.lt b c ≡ true → d.lt a c ≡ true

-- Integers that are read and divided: `stod` takes digits alone, and division drops the remainder.
read_digits : ℕ → List ℕ → Option ℕ
read_digits n [] = some n
read_digits n (c ∷ cs) =
    let rest = read_digits (n * 10 + (c - 48)) cs in if leb 48 c && leb c 57 then rest else none

abbrev codes : String → List ℕ
codes String.[] = []
codes (String.◌∷◌ c s) = code c ∷ codes s

abbrev read_whole : Option ℕ → Option ℤ
read_whole none = none
read_whole (some n) = some (pos n)

abbrev quotient : ℤ → ℤ → ℤ
quotient a b =
    sub_ℕ (pos_part a / pos_part b + neg_part a / neg_part b)
      (pos_part a / neg_part b + neg_part a / pos_part b)

unfoldable pub read_ℤ : String → Option ℤ
unfolding read_digits
read_ℤ s = if s_is_empty (codes s) then none else read_whole (read_digits 0 (codes s))
  where
    s_is_empty : List ℕ → Bool
    s_is_empty [] = true
    s_is_empty (_ ∷ _) = false

instance abbrev pub exact : Double ℤ
exact = record {
  add = ◌+ℤ◌;
  sub = ◌-ℤ◌;
  mul = ◌*ℤ◌;
  div = quotient;
  neg = λ a. pos 0 -ℤ a;
  lt = ltb_ℤ;
  le = λ a b. leb (pos_part a + neg_part b) (pos_part b + neg_part a);
  eq = λ a b. pos_part a + neg_part b == pos_part b + neg_part a;
  of_ℕ = pos;
  lit = λ m k. pos (m / 10 ^ k);
  to_ℕ = pos_part;
  stod = read_ℤ;
  greatest = pos (2 ^ 1024 - 2 ^ 971);
  lowest = pos 0 -ℤ pos (2 ^ 1024 - 2 ^ 971);
}

pub exact-IsStrict : IsStrict ℤ
exact-IsStrict = ground arith

-- Numbers with three digits behind the point, counted in thousandths; what is behind them is
-- dropped.
abbrev pub fixed_point : Double ℤ
fixed_point = record exact {
  mul = λ a b. quotient (a *ℤ b) (pos 1000);
  div = λ a b. quotient (a *ℤ pos 1000) b;
  of_ℕ = λ n. pos (n * 1000);
  lit = λ m k. pos (m * 1000 / 10 ^ k);
  to_ℕ = λ a. pos_part a / 1000;
}
