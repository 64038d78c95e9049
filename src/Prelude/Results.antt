-- ===== src/Prelude/Results.antt =====
-- Exceptions as values. The classes derived from `AppError` (app/core/exceptions.py) are one
-- constructor with the class as its first field; the others are the exceptions of the language and
-- its libraries that the modelled code can raise.
use mathlib.Core.Path.{◌≡◌, refl}
use mathlib.Core.Logic.{◌⊎◌, inl, inr}
use mathlib.Core.Bool.{Bool, true, false}
use mathlib.Core.List.{List, [], ◌∷◌}
use dart_backend.Prelude.Text.{Text, txt}

pub data ErrorKind : Type 0 where
  plain not_found permission_denied conflict unauthorized : ErrorKind

pub data Exception : Type 0 where
  app_exception : (kind : ErrorKind) (message code : Text) → Exception
  import_validation_error : (message : Text) → Exception
  invalid_operation value_error integrity_error other_error : Exception

-- AppError(message, code=code)
abbrev pub app_error : Text → Text → Exception
app_error message code = app_exception plain message code

abbrev pub not_found_error : Text → Exception
not_found_error message = app_exception not_found message (txt "not_found")

abbrev pub conflict_error : Text → Exception
conflict_error message = app_exception conflict message (txt "conflict")

pub data Result {ℓ} (A : Type ℓ) : Type ℓ where
  ok : A → Result A
  raised : Exception → Result A

-- if test: raise e
abbrev pub raise_if : Bool → Exception → Result (Unit {0})
raise_if false e = ok tt
raise_if true e = raised e

module _ {ℓ κ} {A : Type ℓ} {B : Type κ} where
  infixl 5 ◌>>=◌
  -- The statements after one that may raise.
  abbrev pub ◌>>=◌ : Result A → (A → Result B) → Result B
  raised e >>= next = raised e
  ok value >>= next = next value

  -- What a block that returned has been through.
  pub >>=-eq-ok :
      (first : Result A) (next : A → Result B) {b : B}
      → (first >>= next) ≡ ok b
      → (value : A) × (first ≡ ok value) × (next value ≡ ok b)
  >>=-eq-ok (raised e) next returned = cc
  >>=-eq-ok (ok value) next returned = (value, refl, returned)

infixl 5 ◌>>◌
abbrev pub ◌>>◌ {κ} : {B : Type κ} → Result (Unit {0}) → Result B → Result B
first >> rest = first >>= λ done. rest

pub ok_inj : {A : Type 0} (a b : A) → ◌≡◌ {A = Result A} (ok a) (ok b) → a ≡ b
ok_inj a b same = cc

-- To split on a computed result and keep the equation.
pub Result-cases :
    {A : Type 0} (r : Result A) → ((a : A) × (r ≡ ok a)) ⊎ ((e : Exception) × (r ≡ raised e))
Result-cases (ok a) = inl (a, refl)
Result-cases (raised e) = inr (e, refl)

module _ {ℓ κ} {A : Type ℓ} {B : Type κ} where
  -- A list comprehension whose body may raise: the first exception ends it.
  unfoldable pub map_result : (A → Result B) → List A → Result (List B)
  map_result f [] = ok []
  map_result f (x ∷ xs) = do y ← f x; ys ← map_result f xs; ok (y ∷ ys)
