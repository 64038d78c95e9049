-- ===== src/Prelude/Equality.antt =====
-- Equality tests as an interface, with instances for numbers, lists, texts and tuples.
use Prim.Native.Nat.{ℕ}
use Prim.Native.String.{String}
use mathlib.Core.Path.{◌≡◌, refl}
use mathlib.Core.Logic.{◌↔◌, ◌≢◌, inl, inr}
use mathlib.Core.Bool.{Bool, true, false, ◌&&◌}
use mathlib.Core.List.{List, [], ◌∷◌}
use native.Mathlib.Omega.{arith}
use text.Mathlib.Text.{◌==◌ as str_eq}
use text.Mathlib.TextEquality.{eq_iff as str_eq_iff}
use dart_backend.Prelude.Tests.{nat_beq, nat_beq_iff, Bool-cases}

-- A class with a test that decides equality.
pub record Eq {ℓ} (A : Type ℓ) : Type ℓ where
  pub test : A → A → Bool
  pub decides : (x y : A) → (test x y ≡ true) ↔ (x ≡ y)

module _ {ℓ} {A : Type ℓ} ⦃e : Eq A⦄ where
  infix 50 ◌==◌
  abbrev pub ◌==◌ : A → A → Bool
  x == y = e.test x y

  pub ==_iff : (x y : A) → ((x == y) ≡ true) ↔ (x ≡ y)
  ==_iff x y = e.decides x y

  pub ==_refl : (x : A) → (x == x) ≡ true
  ==_refl x = (==_iff x x).1 refl

  pub eq_of_== : (x y : A) → (x == y) ≡ true → x ≡ y
  eq_of_== x y same = (==_iff x y).0 same

  pub ==_false : (x y : A) → x ≢ y → (x == y) ≡ false
  ==_false x y differ = elim (Bool-cases (x == y)) [
    | inr different ↦ different
    | inl same ↦ absurd (differ (eq_of_== x y same))
  ]

module _ {ℓ κ} {A : Type ℓ} {B : Type κ} ⦃e : Eq A⦄ ⦃d : Eq B⦄ where
  abbrev pub pair_beq : A × B → A × B → Bool
  pair_beq (x, y) (x', y') = x == x' && y == y'

  pub pair_beq_iff : (p q : A × B) → (pair_beq p q ≡ true) ↔ (p ≡ q)
  pair_beq_iff (x, y) (x', y') = ground (arith, e.decides x x', d.decides y y')

instance abbrev pub pair_eq {ℓ κ} : {A : Type ℓ} {B : Type κ} ⦃e : Eq A⦄ ⦃d : Eq B⦄ → Eq (A × B)
pair_eq = record { test = pair_beq; decides = pair_beq_iff }

module _ {ℓ} {A : Type ℓ} ⦃e : Eq A⦄ where
  unfoldable pub list_beq : List A → List A → Bool
  list_beq (x ∷ xs) (y ∷ ys) = x == y && list_beq xs ys
  list_beq (x ∷ xs) [] = false
  list_beq [] (y ∷ ys) = false
  list_beq [] [] = true

  pub list_beq_iff : (xs ys : List A) → (list_beq xs ys ≡ true) ↔ (xs ≡ ys)
  unfolding list_beq
  list_beq_iff (x ∷ xs) (y ∷ ys) = ground (arith, e.decides x y, list_beq_iff xs ys)
  list_beq_iff (x ∷ xs) [] = ground arith
  list_beq_iff [] (y ∷ ys) = ground arith
  list_beq_iff [] [] = ground arith

instance abbrev pub list_eq {ℓ} : {A : Type ℓ} ⦃e : Eq A⦄ → Eq (List A)
list_eq = record { test = list_beq; decides = list_beq_iff }

instance abbrev pub string_eq : Eq String
string_eq = record { test = str_eq; decides = str_eq_iff }

instance abbrev pub nat_eq : Eq ℕ
nat_eq = record { test = nat_beq; decides = nat_beq_iff }
