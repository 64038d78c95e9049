-- ===== src/Prelude/Text/Laws.antt =====
-- Laws of the text methods: case folding and stripping, and numbers written and read back.
use Prim.Native.Nat.{ℕ, zero, suc, ◌+◌, ◌/◌, ◌%◌, ◌≤◌, ◌<◌}
use mathlib.Core.Path.{◌≡◌, refl, ap, ◌∙◌}
use mathlib.Core.Logic.{inl, inr}
use mathlib.Core.Bool.{false}
use mathlib.Core.List.{[], ◌∷◌, ◌++◌}
use native.Mathlib.Omega.{arith}
use dart_backend.Prelude.Tests.{ltb, Bool-cases}
use dart_backend.Prelude.Text.{
  Text, strip, rstrip, is_empty, is_space, lower_char, lower, lstrip, span_digits, number_from,
  digits_before, number_text, AllDigits,
}

pub lower_char_idem : (c : ℕ) → lower_char (lower_char c) ≡ lower_char c
unfolding lower_char
lower_char_idem c = ground arith

pub lower_idem : (s : Text) → lower (lower s) ≡ lower s
unfolding lower
lower_idem [] = refl
lower_idem (c ∷ s) = cc (lower_char_idem c, lower_idem s)

pub is_space-lower_char : (c : ℕ) → is_space (lower_char c) ≡ is_space c
unfolding is_space lower_char
is_space-lower_char c = ground arith

pub is_empty-lower : (s : Text) → is_empty (lower s) ≡ is_empty s
unfolding lower
is_empty-lower [] = refl
is_empty-lower (c ∷ s) = refl

pub lstrip-lower : (s : Text) → lstrip (lower s) ≡ lower (lstrip s)
unfolding lstrip lower
lstrip-lower [] = refl
lstrip-lower (c ∷ s) = elim (Bool-cases (is_space c)) [
  | inl h ↦ rw (is_space-lower_char c, h) (lstrip-lower s)
  | inr h ↦ rw (is_space-lower_char c, h)
]

pub lstrip_idem : (s : Text) → lstrip (lstrip s) ≡ lstrip s
unfolding lstrip
lstrip_idem [] = refl
lstrip_idem (c ∷ s) = elim (Bool-cases (is_space c)) [
  | inl h ↦ rw h (lstrip_idem s)
  | inr h ↦ rw h (rw h)
]

pub digit_not_space : (c : ℕ) → 48 ≤ c → c ≤ 57 → is_space c ≡ false
unfolding is_space
digit_not_space c h k = ground arith

pub number_from-digits_before :
    (fuel n : ℕ) (rest : Text)
    → n < fuel
    → number_from 0 (digits_before fuel n rest) ≡ number_from n rest
unfolding number_from digits_before
number_from-digits_before zero n rest h = elim h [ ]
number_from-digits_before (suc fuel) n rest h = elim (Bool-cases (ltb n 10)) [
  | inl small ↦ rw small (ap (λ m. number_from m rest) (omega arith))
  | inr big ↦ rw big (
      number_from-digits_before fuel (n / 10) ((48 + n % 10) ∷ rest) (ground arith)
      ∙ ap (λ m. number_from m rest) (omega arith))
]

pub number_text_read : (n : ℕ) → number_from 0 (number_text n) ≡ n
unfolding number_text
number_text_read n =
    number_from-digits_before (suc n) n [] (omega arith) ∙ unfold number_from in refl

pub digits_before-AllDigits :
    (fuel n : ℕ) (rest : Text) → n < fuel → AllDigits rest → AllDigits (digits_before fuel n rest)
unfolding digits_before
digits_before-AllDigits zero n rest h ds = elim h [ ]
digits_before-AllDigits (suc fuel) n rest h ds = elim (Bool-cases (ltb n 10)) [
  | inl small ↦ rw small (omega arith, ground arith, ds)
  | inr big ↦ rw big (
      digits_before-AllDigits fuel (n / 10) ((48 + n % 10) ∷ rest) (ground arith)
        (omega arith, omega arith, ds))
]

pub number_text-AllDigits : (n : ℕ) → AllDigits (number_text n)
unfolding number_text
number_text-AllDigits n = digits_before-AllDigits (suc n) n [] (omega arith) tt

pub span_digits-append :
    (ds rest : Text)
    → AllDigits ds
    → span_digits rest ≡ ([], rest)
    → span_digits (ds ++ rest) ≡ (ds, rest)
unfolding span_digits
span_digits-append [] rest all h = h
span_digits-append (c ∷ ds) rest (lo, hi, all) h =
    rw (span_digits-append ds rest all h) (ground arith)

pub rstrip-lower : (s : Text) → rstrip (lower s) ≡ lower (rstrip s)
unfolding rstrip lower
rstrip-lower [] = refl
rstrip-lower (c ∷ s) =
    rw (rstrip-lower s) (ground (arith, is_space-lower_char c, is_empty-lower (rstrip s)))

pub rstrip_idem : (s : Text) → rstrip (rstrip s) ≡ rstrip s
unfolding rstrip
rstrip_idem [] = refl
rstrip_idem (c ∷ s) = ground (arith, rstrip_idem s)

pub lstrip-rstrip : (s : Text) → lstrip (rstrip s) ≡ rstrip (lstrip s)
unfolding lstrip rstrip
lstrip-rstrip [] = refl
lstrip-rstrip (c ∷ s) = elim (Bool-cases (is_space c)) [
  | inl h ↦ ground (arith, lstrip-rstrip s)
  | inr h ↦ ground arith
]

pub strip_idem : (s : Text) → strip (strip s) ≡ strip s
unfolding strip
strip_idem s =
    ap rstrip (lstrip-rstrip (lstrip s))
    ∙ rstrip_idem (lstrip (lstrip s))
    ∙ ap rstrip (lstrip_idem s)

pub strip-lower : (s : Text) → strip (lower s) ≡ lower (strip s)
unfolding strip
strip-lower s = ap rstrip (lstrip-lower s) ∙ rstrip-lower (lstrip s)
