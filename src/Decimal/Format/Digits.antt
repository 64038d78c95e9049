-- ===== src/Decimal/Format/Digits.antt =====
-- Reading back a written number: the parser on digits, a point and two more digits.
use dart_backend.Prelude.{
  ℕ, zero, suc, ◌+◌, ◌*◌, ◌-◌, ◌/◌, ◌%◌, ◌≤◌, ◌<◌, ◌≡◌, refl, ap, ◌∙◌, Bool, false, some, [], ◌∷◌,
  ◌++◌, arith, nat_beq, ltb, Bool-cases, inl, inr, list_beq, length,
}
use dart_backend.Prelude.Int.{pos, negsuc, ◌-ℤ◌}
use dart_backend.Prelude.Text.{
  Text, strip, lstrip, rstrip, lower, lower_char, without, is_empty, is_space, span_digits,
  number_from, digits_before, number_text, AllDigits,
}
use dart_backend.Prelude.Text.Laws.{
  number_text_read, number_text-AllDigits, span_digits-append, digit_not_space,
}
use dart_backend.Decimal.{finite}
use dart_backend.Decimal.Parse.{parse_number, parse_unsigned, is_tagged}

-- Code points that neither stripping nor the removal of `,` and `_` drops.
abbrev pub AllPlain : Text → Type 0
AllPlain [] = Unit
AllPlain (c ∷ s) =
    (is_space c ≡ false) × (nat_beq c b',' ≡ false) × (nat_beq c b'_' ≡ false) × AllPlain s

pub AllPlain-digits : (s rest : Text) → AllDigits s → AllPlain rest → AllPlain (s ++ rest)
AllPlain-digits [] rest ds h = h
AllPlain-digits (c ∷ s) rest (lo, hi, ds) h =
    (digit_not_space c lo hi, ground arith, ground arith, AllPlain-digits s rest ds h)

lstrip-plain : (s : Text) → AllPlain s → lstrip s ≡ s
unfolding lstrip
lstrip-plain [] h = refl
lstrip-plain (c ∷ s) h = rw (h.0)

rstrip-plain : (s : Text) → AllPlain s → rstrip s ≡ s
unfolding rstrip
rstrip-plain [] h = refl
rstrip-plain (c ∷ s) h = rw (h.0) (ap (λ t. c ∷ t) (rstrip-plain s h.3))

pub strip-plain : (s : Text) → AllPlain s → strip s ≡ s
unfolding strip
strip-plain s h = ap rstrip (lstrip-plain s h) ∙ rstrip-plain s h

pub without_comma-plain : (s : Text) → AllPlain s → without b',' s ≡ s
unfolding without
without_comma-plain [] h = refl
without_comma-plain (c ∷ s) h = rw (h.1) (ap (λ t. c ∷ t) (without_comma-plain s h.3))

pub without_underscore-plain : (s : Text) → AllPlain s → without b'_' s ≡ s
unfolding without
without_underscore-plain [] h = refl
without_underscore-plain (c ∷ s) h = rw (h.2) (ap (λ t. c ∷ t) (without_underscore-plain s h.3))

digits_before-cons :
    (fuel n : ℕ) (rest : Text)
    → n < fuel
    → (d : ℕ) × (ds : Text) × (digits_before fuel n rest ≡ d ∷ ds)
unfolding digits_before
digits_before-cons zero n rest h = elim h [ ]
digits_before-cons (suc fuel) n rest h = elim (Bool-cases (ltb n 10)) [
  | inl small ↦ (48 + n, rest, rw small)
  | inr big ↦
      let (d, ds, e) = digits_before-cons fuel (n / 10) ((48 + n % 10) ∷ rest) (ground arith) in
      (d, ds, rw big e)
]

-- A written number has a first digit.
pub number_text-cons : (n : ℕ) → (d : ℕ) × (ds : Text) × (number_text n ≡ d ∷ ds)
unfolding number_text
number_text-cons n = digits_before-cons (suc n) n [] (omega arith)

number_from-append :
    (n : ℕ) (xs ys : Text) → number_from n (xs ++ ys) ≡ number_from (number_from n xs) ys
unfolding number_from
number_from-append n [] ys = refl
number_from-append n (x ∷ xs) ys = number_from-append (n * 10 + (x - 48)) xs ys

abbrev pub fraction_text : ℕ → Text
fraction_text c = b'.' ∷ (48 + c % 100 / 10) ∷ (48 + c % 10) ∷ []

pub fraction_text-plain : (c : ℕ) → AllPlain (fraction_text c)
fraction_text-plain c = (
  unfold is_space in refl,
  refl,
  refl,
  AllPlain-digits ((48 + c % 100 / 10) ∷ (48 + c % 10) ∷ []) [] (omega arith) tt,
)

whole_and_cents :
    (c : ℕ)
    → number_from 0 (number_text (c / 100) ++ ((48 + c % 100 / 10) ∷ (48 + c % 10) ∷ [])) ≡ c
whole_and_cents c =
    number_from-append 0 (number_text (c / 100)) ((48 + c % 100 / 10) ∷ (48 + c % 10) ∷ [])
    ∙ ap (λ n. number_from n ((48 + c % 100 / 10) ∷ (48 + c % 10) ∷ []))
        (number_text_read (c / 100))
    ∙ unfold number_from in omega arith

span_fraction :
    (c : ℕ)
    → span_digits ((48 + c % 100 / 10) ∷ (48 + c % 10) ∷ [])
      ≡ ((48 + c % 100 / 10) ∷ (48 + c % 10) ∷ [], [])
span_fraction c =
    span_digits-append ((48 + c % 100 / 10) ∷ (48 + c % 10) ∷ []) [] (omega arith)
      (unfold span_digits in refl)

is_empty-append : (xs ys : Text) → is_empty ys ≡ false → is_empty (xs ++ ys) ≡ false
is_empty-append [] ys h = h
is_empty-append (x ∷ xs) ys h = refl

parse_number-parts :
    (negative : Bool) (whole fraction : Text)
    → span_digits (whole ++ b'.' ∷ fraction) ≡ (whole, b'.' ∷ fraction)
    → span_digits fraction ≡ (fraction, [])
    → is_empty (whole ++ fraction) ≡ false
    → parse_number negative (whole ++ b'.' ∷ fraction)
      ≡ some (finite negative (number_from 0 (whole ++ fraction)) (pos 0 -ℤ pos (length fraction)))
unfolding parse_number
parse_number-parts negative whole fraction split rest some_digit =
    rw split (rw rest (rw some_digit))

pub parse_number-cents :
    (negative : Bool) (c : ℕ)
    → parse_number negative (number_text (c / 100) ++ fraction_text c)
      ≡ some (finite negative c (negsuc 1))
unfolding ◌-ℤ◌
parse_number-cents negative c =
    parse_number-parts negative (number_text (c / 100)) ((48 + c % 100 / 10) ∷ (48 + c % 10) ∷ [])
      (span_digits-append (number_text (c / 100)) (fraction_text c)
        (number_text-AllDigits (c / 100)) (unfold span_digits in refl))
      (span_fraction c)
      (is_empty-append (number_text (c / 100)) ((48 + c % 100 / 10) ∷ (48 + c % 10) ∷ []) refl)
    ∙ ap (λ n. some (finite negative n (negsuc 1))) (whole_and_cents c)

-- Text that starts with a digit is read as a number.
pub parse_unsigned-digit :
    (negative : Bool) (d : ℕ) (s : Text)
    → 48 ≤ d
    → d ≤ 57
    → parse_unsigned negative (d ∷ s) ≡ parse_number negative (d ∷ s)
unfolding parse_unsigned is_tagged lower lower_char list_beq
parse_unsigned-digit negative d s lo hi = ground arith
