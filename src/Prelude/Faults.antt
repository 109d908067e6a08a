-- ===== src/Prelude/Faults.antt =====
-- What a C++ call gives back: a value, or the exception that it leaves by.
use mathlib.Core.Path.{◌≡◌, refl, ap}
use mathlib.Core.Logic.{◌⊎◌, inl, inr}
use mathlib.Core.Option.{Option, none, some}

-- `undefined` stands for behaviour that the language does not define, `aborted` for an assertion
-- that fails, and `exited` for a call of `std::exit`: the program ends by it.
pub data Fault : Type 0 where
  out_of_range invalid_argument runtime_error bad_optional_access undefined : Fault
  aborted exited future_error : Fault

pub data Outcome {ℓ} (A : Type ℓ) : Type ℓ where
  ok : A → Outcome A
  throws : Fault → Outcome A

infixl 5 ◌>>=◌
abbrev pub ◌>>=◌ {ℓ κ} : {A : Type ℓ} {B : Type κ} → Outcome A → (A → Outcome B) → Outcome B
ok a >>= f = f a
throws e >>= f = throws e

-- `map.at(key)` and the like.
abbrev pub or_throw {ℓ} : {A : Type ℓ} → Option A → Fault → Outcome A
or_throw none e = throws e
or_throw (some a) e = ok a

pub Outcome-cases {ℓ} :
    {A : Type ℓ} (o : Outcome A) → ((a : A) × (o ≡ ok a)) ⊎ ((x : Fault) × (o ≡ throws x))
Outcome-cases (ok a) = inl (a, refl)
Outcome-cases (throws x) = inr (x, refl)

abbrev value_or {ℓ} : {A : Type ℓ} → A → Outcome A → A
value_or b (ok a) = a
value_or b (throws x) = b

pub ok-injective {ℓ} : {A : Type ℓ} {a b : A} → Outcome.ok a ≡ ok b → a ≡ b
ok-injective {a} h = ap (value_or a) h

pub not_thrown {ℓ} : {A : Type ℓ} {a : A} {x : Fault} → Outcome.throws x ≡ ok a → ⊥
not_thrown h = cc

-- What every value that a call gives back satisfies.
abbrev pub Yields {ℓ κ} : {A : Type ℓ} → (A → Type κ) → Outcome A → Type (ℓ ⊔ κ)
Yields {A} Q o = (a : A) → o ≡ ok a → Q a

pub Yields-ok {ℓ κ} : {A : Type ℓ} (Q : A → Type κ) (a : A) → Q a → Yields Q (ok a)
Yields-ok Q a q b h = rw (← ok-injective h) q
