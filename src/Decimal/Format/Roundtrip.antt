-- ===== src/Decimal/Format/Roundtrip.antt =====
-- `parse_amount` on the texts that `format_decimal` writes (app/services/bridge_resolve.py).
use dart_backend.Prelude.{
  ℕ, ◌/◌, ◌<◌, ◌≤◌, ◌≡◌, refl, ◌∙◌, Bool, true, false, some, ◌∷◌, ◌++◌, arith, ltb, Bool-cases, inl,
  inr,
}
use dart_backend.Prelude.Int.{negsuc}
use dart_backend.Prelude.Text.{Text, txt, is_space, number_text, AllDigits}
use dart_backend.Prelude.Text.Laws.{number_text-AllDigits}
use dart_backend.Prelude.Results.{ok}
use dart_backend.Decimal.{
  Decimal, finite, infinite, nan, signalling_nan, quantize, cents_of, precision_limit,
}
use dart_backend.Decimal.Parse.{take_sign, parse_unsigned, parse_amount}
use dart_backend.Decimal.Format.{cents_text, sign_text, format_decimal}
use dart_backend.Decimal.Format.Digits.{
  AllPlain, AllPlain-digits, strip-plain, without_comma-plain, without_underscore-plain,
  number_text-cons, fraction_text, fraction_text-plain, parse_number-cents, parse_unsigned-digit,
}

-- A text that nothing is dropped from is read by its sign and what follows.
parse_amount-plain :
    (c : ℕ) (s : Text)
    → AllPlain (c ∷ s)
    → (d : Decimal) → parse_unsigned (take_sign (c ∷ s)).0 (take_sign (c ∷ s)).1 ≡ some d
    → parse_amount (some (c ∷ s)) ≡ d
unfolding parse_amount
parse_amount-plain c s plain d h = rw (strip-plain (c ∷ s) plain) (
    rw (without_comma-plain (c ∷ s) plain)
      (rw (strip-plain (c ∷ s) plain) (rw (without_underscore-plain (c ∷ s) plain) (rw h))))

unsigned_plain : (c : ℕ) → AllPlain (number_text (c / 100) ++ fraction_text c)
unsigned_plain c =
    AllPlain-digits (number_text (c / 100)) (fraction_text c) (number_text-AllDigits (c / 100))
      (fraction_text-plain c)

module _ (c d : ℕ) (ds : Text) (e : number_text (c / 100) ≡ d ∷ ds) where
  first_digit : (48 ≤ d) × (d ≤ 57)
  first_digit =
      let all : AllDigits (d ∷ ds) = rw e at (number_text-AllDigits (c / 100)) in (all.0, all.1)

  read_unsigned :
      (negative : Bool)
      → parse_unsigned negative (d ∷ (ds ++ fraction_text c)) ≡ some (finite negative c (negsuc 1))
  read_unsigned negative =
      parse_unsigned-digit negative d (ds ++ fraction_text c) first_digit.0 first_digit.1
      ∙ (rw e at (parse_number-cents negative c))

  no_sign : take_sign (d ∷ (ds ++ fraction_text c)) ≡ (false, d ∷ (ds ++ fraction_text c))
  unfolding take_sign
  no_sign = ground (arith, first_digit)

  plain : AllPlain (d ∷ (ds ++ fraction_text c))
  plain = rw e at (unsigned_plain c)

  read_negative : parse_amount (some (cents_text true c)) ≡ finite true c (negsuc 1)
  unfolding cents_text take_sign is_space
  read_negative = rw e (
      parse_amount-plain b'-' (d ∷ (ds ++ fraction_text c)) (refl, refl, refl, plain) _
        (read_unsigned true))

  read_positive : parse_amount (some (cents_text false c)) ≡ finite false c (negsuc 1)
  unfolding cents_text
  read_positive =
      rw e (parse_amount-plain d (ds ++ fraction_text c) plain _ (rw no_sign (read_unsigned false)))

-- The text of a number of cents is read back as that number.
pub parse_amount-cents_text :
    (negative : Bool) (c : ℕ)
    → parse_amount (some (cents_text negative c)) ≡ finite negative c (negsuc 1)
parse_amount-cents_text true c =
    let (d, ds, e) = number_text-cons (c / 100) in read_negative c d ds e
parse_amount-cents_text false c =
    let (d, ds, e) = number_text-cons (c / 100) in read_positive c d ds e

cents_of-cents : (c : ℕ) → cents_of c (negsuc 1) ≡ c
unfolding cents_of
cents_of-cents c = ground arith

pub format_cents :
    (negative : Bool) (c : ℕ)
    → c < precision_limit
    → format_decimal (finite negative c (negsuc 1)) ≡ ok (cents_text negative c)
unfolding format_decimal quantize
format_cents negative c h = rw (cents_of-cents c) (ground arith)

reformat_cents :
    (negative : Bool) (c : ℕ) (t : Text)
    → c < precision_limit
    → ok (cents_text negative c) ≡ ok t
    → format_decimal (parse_amount (some t)) ≡ ok t
reformat_cents negative c t fits e =
    let same : cents_text negative c ≡ t = cc in
    rw (← same) (rw (parse_amount-cents_text negative c) (format_cents negative c fits))

parse_nan : (negative : Bool) → parse_amount (some (sign_text negative ++ txt "NaN")) ≡ nan negative
unfolding parse_amount
parse_nan true = refl
parse_nan false = refl

reformat_nan :
    (negative : Bool) (t : Text)
    → ok (sign_text negative ++ txt "NaN") ≡ ok t
    → format_decimal (parse_amount (some t)) ≡ ok t
unfolding format_decimal quantize
reformat_nan negative t e =
    let same : sign_text negative ++ txt "NaN" ≡ t = cc in rw (← same) (rw (parse_nan negative))

-- Whatever `format_decimal` writes, `parse_amount` followed by `format_decimal` writes again.
pub format_decimal-parse_amount :
    (d : Decimal) (t : Text)
    → format_decimal d ≡ ok t
    → format_decimal (parse_amount (some t)) ≡ ok t
unfolding format_decimal quantize
format_decimal-parse_amount (finite s c e) t h =
    elim (Bool-cases (ltb (cents_of c e) precision_limit)) [
      | inl fits ↦ reformat_cents s (cents_of c e) t (ground arith) (rw fits at h)
      | inr wide ↦ absurd (ground arith)
    ]
format_decimal-parse_amount (infinite s) t h = cc
format_decimal-parse_amount (nan s) t h = reformat_nan s t h
format_decimal-parse_amount (signalling_nan s) t h = cc
