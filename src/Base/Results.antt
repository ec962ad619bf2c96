-- ===== src/Base/Results.antt =====
-- Exceptions as values: the Python exception classes that the modelled code raises.
use mathlib.Core.Path.{◌≡◌, refl}
use mathlib.Core.Logic.{◌⊎◌, inl, inr}
use mathlib.Core.Bool.{Bool, true, false}
use mathlib.Core.Option.{Option, none, some}
use mathlib.Core.List.{List, [], ◌∷◌}

pub data Error : Type 0 where
  value_error index_error key_error zero_division_error : Error
  runtime_error assertion_error timeout_error queue_full : Error

-- A call returns a value or raises an exception.
pub data Result {ℓ} (A : Type ℓ) : Type ℓ where
  ok : A → Result A
  err : Error → Result A

module _ {ℓ} {A : Type ℓ} where
  abbrev pub or_raise : Option A → Error → Result A
  or_raise (some found) _ = ok found
  or_raise none missing = err missing

  abbrev pub map_ok {κ} : {B : Type κ} → (A → B) → Result A → Result B
  map_ok g (ok x) = ok (g x)
  map_ok g (err raised) = err raised

  pub ok-inj : (x y : A) → Result.ok x ≡ ok y → x ≡ y
  ok-inj x y e = cc

  pub Result-cases : (r : Result A) → ((x : A) × (r ≡ ok x)) ⊎ ((raised : Error) × (r ≡ err raised))
  Result-cases (ok x) = inl (x, refl)
  Result-cases (err raised) = inr (raised, refl)

-- What follows a statement is left out once an exception is raised.
infixl 5 ◌>>=◌
abbrev pub ◌>>=◌ {κ ℓ} : {B : Type κ} {A : Type ℓ} → Result B → (B → Result A) → Result A
err raised >>= rest = err raised
ok x >>= rest = rest x

infixl 5 ◌>>◌
abbrev pub ◌>>◌ {ℓ} : {A : Type ℓ} → Result (Unit {0}) → Result A → Result A
first >> rest = first >>= λ done. rest

-- `if not test: raise raised`.
abbrev pub guard : Bool → Error → Result (Unit {0})
guard false raised = err raised
guard true raised = ok tt

-- A comprehension whose body may raise.
abbrev pub traverse {ℓ κ} : {A : Type ℓ} {B : Type κ} → (A → Result B) → List A → Result (List B)
traverse f [] = ok []
traverse f (x ∷ xs) = do y ← f x; ys ← traverse f xs; ok (y ∷ ys)
