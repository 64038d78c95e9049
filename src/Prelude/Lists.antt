-- ===== src/Prelude/Lists.antt =====
-- Lists measured by native numbers, quantified tests, and predicates by recursion.
use Prim.Native.Nat.{ℕ, suc, zero, ◌+◌, ◌≤◌}
use mathlib.Core.Path.{◌≡◌, refl}
use mathlib.Core.Logic.{◌⊎◌, inl, inr}
use mathlib.Core.Bool.{Bool, true, false, ◌||◌, ◌&&◌}
use mathlib.Core.List.{List, [], ◌∷◌, ◌++◌}
use mathlib.Core.Option.{Option, none, some}
use native.Mathlib.Omega.{arith}
use dart_backend.Prelude.Tests.{if◌then◌else◌, Bool-cases, some_inj}

module _ {ℓ} {A : Type ℓ} where
  abbrev pub length : List A → ℕ
  length [] = 0
  length (x ∷ xs) = suc (length xs)

  abbrev pub get_elem? : List A → ℕ → Option A
  get_elem? [] i = none
  get_elem? (x ∷ xs) zero = some x
  get_elem? (x ∷ xs) (suc i) = get_elem? xs i

  -- `any(p(x) for x in xs)` and `all(p(x) for x in xs)`
  abbrev pub any : (A → Bool) → List A → Bool
  any p [] = false
  any p (x ∷ xs) = p x || any p xs

  abbrev pub all : (A → Bool) → List A → Bool
  all p [] = true
  all p (x ∷ xs) = p x && all p xs

  -- `[x for x in xs if p(x)]`
  abbrev pub keep : (A → Bool) → List A → List A
  keep p [] = []
  keep p (x ∷ xs) = let rest = keep p xs in if p x then x ∷ rest else rest

  -- `first x such that p(x)`, or none
  abbrev pub find : (A → Bool) → List A → Option A
  find p [] = none
  find p (x ∷ xs) = if p x then some x else find p xs

  pub length-append : (xs ys : List A) → length (xs ++ ys) ≡ length xs + length ys
  length-append [] ys = omega arith
  length-append (x ∷ xs) ys = omega (arith, length-append xs ys)

module _ {ℓ κ} {A : Type ℓ} where
  abbrev pub All : (A → Type κ) → List A → Type κ
  All P [] = Unit
  All P (x ∷ xs) = P x × All P xs

module _ {ℓ κ} {A : Type ℓ} (P : A → Type κ) where
  pub All-append : (xs ys : List A) → All P xs → All P ys → All P (xs ++ ys)
  All-append [] ys hx hy = hy
  All-append (x ∷ xs) ys hx hy = (hx.0, All-append xs ys hx.1 hy)

module _ {A : Type 0} where
  -- Membership and the quantifiers as types that compute.
  abbrev pub In : A → List A → Type 0
  In a [] = ⊥
  In a (x ∷ xs) = (x ≡ a) ⊎ In a xs

  pub In-append_right : (a : A) (xs ys : List A) → In a ys → In a (xs ++ ys)
  In-append_right a [] ys h = h
  In-append_right a (x ∷ xs) ys h = inr (In-append_right a xs ys h)

  pub In-append_left : (a : A) (xs ys : List A) → In a xs → In a (xs ++ ys)
  In-append_left a [] ys h = absurd h
  In-append_left a (x ∷ xs) ys (inl e) = inl e
  In-append_left a (x ∷ xs) ys (inr h) = inr (In-append_left a xs ys h)

  pub In-append : (a : A) (xs ys : List A) → In a (xs ++ ys) → In a xs ⊎ In a ys
  In-append a [] ys h = inr h
  In-append a (x ∷ xs) ys (inl e) = inl (inl e)
  In-append a (x ∷ xs) ys (inr h) = elim (In-append a xs ys h) [
    | inl there ↦ inl (inr there)
    | inr behind ↦ inr behind
  ]

  -- A quantified test that fails, fails at every member.
  pub any-false_at : (p : A → Bool) (xs : List A) (a : A) → any p xs ≡ false → In a xs → p a ≡ false
  any-false_at p [] a h there = absurd there
  any-false_at p (x ∷ xs) a h (inl e) = rw (← e) (ground arith)
  any-false_at p (x ∷ xs) a h (inr there) = any-false_at p xs a (ground arith) there

  pub any-true_at : (p : A → Bool) (xs : List A) (a : A) → In a xs → p a ≡ true → any p xs ≡ true
  any-true_at p [] a there h = absurd there
  any-true_at p (x ∷ xs) a (inl e) h = let here : p x ≡ true = (rw e h) in ground arith
  any-true_at p (x ∷ xs) a (inr there) h = ground (arith, any-true_at p xs a there h)

  pub any-append : (p : A → Bool) (xs ys : List A) → any p xs ≡ true → any p (xs ++ ys) ≡ true
  any-append p [] ys h = absurd (ground arith)
  any-append p (x ∷ xs) ys h = ground (arith, any-append p xs ys)

  pub any-witness :
      (p : A → Bool) (xs : List A) → any p xs ≡ true → (a : A) × In a xs × (p a ≡ true)
  any-witness p [] h = absurd (ground arith)
  any-witness p (x ∷ xs) h = elim (Bool-cases (p x)) [
    | inl here ↦ (x, inl refl, here)
    | inr not_here ↦
        let (a, there, found) = any-witness p xs (ground arith) in (a, inr there, found)
  ]

  pub In-snoc : (a b : A) (xs : List A) → In a (xs ++ b ∷ []) → In a xs ⊎ (b ≡ a)
  In-snoc a b [] (inl e) = inr e
  In-snoc a b [] (inr h) = absurd h
  In-snoc a b (x ∷ xs) (inl e) = inl (inl e)
  In-snoc a b (x ∷ xs) (inr h) = elim (In-snoc a b xs h) [
    | inl there ↦ inl (inr there)
    | inr e ↦ inr e
  ]

  pub In-keep : (p : A → Bool) (xs : List A) (a : A) → In a (keep p xs) → In a xs × (p a ≡ true)
  In-keep p [] a h = absurd h
  In-keep p (x ∷ xs) a h = elim (Bool-cases (p x)) [
    | inl yes_x ↦ elim (let h' : In a (x ∷ keep p xs) = (rw yes_x at h) in h') [
      | inl e ↦ (inl e, rw (← e) yes_x)
      | inr there ↦ let (i, q) = In-keep p xs a there in (inr i, q)
    ]
    | inr no_x ↦ let (i, q) = In-keep p xs a (rw no_x at h) in (inr i, q)
  ]

  pub In-keep_of : (p : A → Bool) (xs : List A) (a : A) → In a xs → p a ≡ true → In a (keep p xs)
  In-keep_of p [] a there h = absurd there
  In-keep_of p (x ∷ xs) a (inl e) h = let here : p x ≡ true = (rw e h) in rw here (inl e)
  In-keep_of p (x ∷ xs) a (inr there) h = elim (Bool-cases (p x)) [
    | inl yes_x ↦ rw yes_x (inr (In-keep_of p xs a there h))
    | inr no_x ↦ rw no_x (In-keep_of p xs a there h)
  ]

module _ {A : Type 0} where
  pub find-none : (p : A → Bool) (xs : List A) (a : A) → find p xs ≡ none → In a xs → p a ≡ false
  find-none p [] a h i = absurd i
  find-none p (x ∷ xs) a h i = elim (Bool-cases (p x)) [
    | inl holds ↦ let h' : some x ≡ none = (rw holds at h) in absurd (ground arith)
    | inr fails ↦ elim i [
      | inl e ↦ rw (← e) fails
      | inr there ↦ find-none p xs a (rw fails at h) there
    ]
  ]

  pub find-some : (p : A → Bool) (xs : List A) (a : A) → find p xs ≡ some a → In a xs × (p a ≡ true)
  find-some p [] a h = absurd (ground arith)
  find-some p (x ∷ xs) a h = elim (Bool-cases (p x)) [
    | inl holds ↦
        let e = some_inj x a (let h' : some x ≡ some a = (rw holds at h) in h') in
        (inl e, rw (← e) holds)
    | inr fails ↦ let (there, found) = find-some p xs a (rw fails at h) in (inr there, found)
  ]

module _ {ℓ} {A : Type ℓ} where
  abbrev pub take : ℕ → List A → List A
  take zero xs = []
  take (suc n) [] = []
  take (suc n) (x ∷ xs) = x ∷ take n xs

  abbrev pub drop : ℕ → List A → List A
  drop zero xs = xs
  drop (suc n) [] = []
  drop (suc n) (x ∷ xs) = drop n xs

  pub length-keep_le : (p : A → Bool) (xs : List A) → length (keep p xs) ≤ length xs
  length-keep_le p [] = omega arith
  length-keep_le p (x ∷ xs) = ground (arith, length-keep_le p xs)
