-- ===== src/Common/Throw.antt =====
-- C++ code that may throw: `thrown` is an exception that the function lets through.
use mathlib.Core.Path.{◌≡◌, refl, ap}
use mathlib.Core.Logic.{◌⊎◌, inl, inr}
use mathlib.Core.Option.{Option, none, some}

-- The exceptions of the libraries that the program can meet, and the faults that C++ leaves
-- undefined: a read past the end of a vector, a signed overflow, a call on a freed object or by a
-- null pointer; `std::exit(EXIT_FAILURE)`, `std::terminate`, and a loop of the model that runs out of fuel.
pub data Fault : Type 0 where
  invalid_argument out_of_range setting_not_found logger_exists json_error bad_index int_overflow
        use_after_free null_pointer exit_failure terminate no_fuel :
      Fault

pub data Partial {ℓ} (A : Type ℓ) : Type ℓ where
  done : A → Partial A
  thrown : Fault → Partial A

module _ {ℓ κ} {A : Type ℓ} {B : Type κ} where
  abbrev pub bind : Partial A → (A → Partial B) → Partial B
  bind (done a) f = f a
  bind (thrown e) f = thrown e

  pub bind-eq-done :
      (m : Partial A) (f : A → Partial B) {b : B}
      → bind m f ≡ done b
      → (a : A) × (m ≡ done a) × (f a ≡ done b)
  bind-eq-done (done a) f h = (a, refl, h)
  bind-eq-done (thrown e) f h = cc

-- `v.at(i)`, `m.at(k)`: an exception where there is no such element.
abbrev pub found_or {ℓ} : {A : Type ℓ} → Fault → Option A → Partial A
found_or e none = thrown e
found_or e (some a) = done a

abbrev value_or {ℓ} : {A : Type ℓ} → A → Partial A → A
value_or d (done a) = a
value_or d (thrown _) = d

pub done-injective {ℓ} : {A : Type ℓ} {a b : A} → done a ≡ done b → a ≡ b
done-injective {a} h = ap (value_or a) h

pub Partial-cases {ℓ} :
    {A : Type ℓ} (m : Partial A) → ((a : A) × (m ≡ done a)) ⊎ ((e : Fault) × (m ≡ thrown e))
Partial-cases (done a) = inl (a, refl)
Partial-cases (thrown e) = inr (e, refl)
