-- ===== src/Prelude/Result.antt =====
-- Exceptions as values. A computation on a state keeps what it wrote before it raised.
use mathlib.Core.Path.{◌≡◌, refl}
use mathlib.Core.Logic.{◌⊎◌, inl, inr}

-- The exceptions that the program's paths raise, by the class that a handler would name.
pub data Exc : Type 0 where
  io_error value_error struct_error unicode_error key_error attribute_error type_error : Exc
  json_error index_error import_error ros_error out_of_fuel : Exc

pub data Result {ℓ} (A : Type ℓ) : Type ℓ where
  ok : A → Result A
  err : Exc → Result A

-- What follows a computation that may have raised.
infixl 5 ◌>>=◌
abbrev pub ◌>>=◌ {ℓ₁ ℓ₂} :
    {Got : Type ℓ₁} {Made : Type ℓ₂} → Result Got → (Got → Result Made) → Result Made
err raised >>= next = err raised
ok got >>= next = next got

-- A chain that returns: its first part returned, and the rest from there.
pub >>=-eq-ok {ℓ₁ ℓ₂} :
    {Got : Type ℓ₁} {Made : Type ℓ₂} (first : Result Got) (next : Got → Result Made) {made : Made}
    → (first >>= next) ≡ ok made
    → (got : Got) × (first ≡ ok got) × (next got ≡ ok made)
>>=-eq-ok (err raised) next returns = cc
>>=-eq-ok (ok got) next returns = (got, refl, returns)

-- Which of the two it is, with the equation.
pub Result-cases {ℓ} :
    {A : Type ℓ} (r : Result A) → ((e : Exc) × (r ≡ err e)) ⊎ ((a : A) × (r ≡ ok a))
Result-cases (ok a) = inr (a, refl)
Result-cases (err e) = inl (e, refl)
