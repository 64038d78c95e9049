-- ===== src/Prelude/Tests.antt =====
-- Boolean tests on the native numbers, the conditional, and case splits on computed values.
use Prim.Native.Nat.{ℕ, compare, Ordering}
use mathlib.Core.Path.{◌≡◌, refl}
use mathlib.Core.Logic.{◌↔◌, ◌⊎◌, inl, inr}
use mathlib.Core.Bool.{Bool, true, false}
use mathlib.Core.Option.{Option, none, some}
use native.Mathlib.Omega.{arith}

abbrev pub ltb : ℕ → ℕ → Bool
ltb a b = elim (compare a b) [ Ordering.lt ↦ true | _ ↦ false ]

abbrev pub leb : ℕ → ℕ → Bool
leb a b = elim (compare a b) [ Ordering.gt ↦ false | _ ↦ true ]

abbrev pub nat_beq : ℕ → ℕ → Bool
nat_beq a b = elim (compare a b) [ Ordering.eq ↦ true | _ ↦ false ]

infix 1 if◌then◌else◌
abbrev pub if◌then◌else◌ {ℓ} : {A : Type ℓ} → Bool → A → A → A
if true then x else y = x
if false then x else y = y

pub nat_beq_iff : (a b : ℕ) → (nat_beq a b ≡ true) ↔ (a ≡ b)
nat_beq_iff a b = ground arith

-- To split on a computed value and keep the equation.
pub Bool-cases : (b : Bool) → (b ≡ true) ⊎ (b ≡ false)
Bool-cases true = inl refl
Bool-cases false = inr refl

pub Option-cases {ℓ} : {A : Type ℓ} (o : Option A) → (o ≡ none) ⊎ ((a : A) × (o ≡ some a))
Option-cases none = inl refl
Option-cases (some a) = inr (a, refl)

pub some_inj : {A : Type 0} (a b : A) → ◌≡◌ {A = Option A} (some a) (some b) → a ≡ b
some_inj a b same = cc

-- `x or d` on an optional value, and `x is not None`.
abbrev pub or_else {ℓ} : {A : Type ℓ} → Option A → A → A
or_else none d = d
or_else (some a) d = a

abbrev pub is_some {ℓ} : {A : Type ℓ} → Option A → Bool
is_some none = false
is_some (some a) = true

-- To prove a property of a ladder of tests whose first branches are all `x`.
module _ {ℓ κ} {A : Type ℓ} (P : A → Type κ) where
  pub if_ladder3 :
      (a b c : Bool) (x y : A)
      → P x
      → (a ≡ false → b ≡ false → c ≡ false → P y)
      → P (if a then x else if b then x else if c then x else y)
  if_ladder3 true b c x y px py = px
  if_ladder3 false true c x y px py = px
  if_ladder3 false false true x y px py = px
  if_ladder3 false false false x y px py = py refl refl refl

  pub if_ladder4 :
      (a b c d : Bool) (x y : A)
      → P x
      → (a ≡ false → b ≡ false → c ≡ false → d ≡ false → P y)
      → P (if a then x else if b then x else if c then x else if d then x else y)
  if_ladder4 true b c d x y px py = px
  if_ladder4 false b c d x y px py = if_ladder3 b c d x y px (py refl)
