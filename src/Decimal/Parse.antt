-- ===== src/Decimal/Parse.antt =====
-- `Decimal(text)`, and `parse_amount` of app/services/bridge_resolve.py.
use dart_backend.Prelude.{
  ℕ, zero, suc, Bool, true, false, ◌&&◌, ◌||◌, Option, none, some, [], ◌∷◌, ◌++◌, nat_beq,
  if◌then◌else◌, length, list_eq, nat_eq, ◌==◌, list_beq,
}
use dart_backend.Prelude.Int.{ℤ, pos, negsuc, ◌-ℤ◌}
use dart_backend.Prelude.Text.{Text, txt, strip, lower, without, is_empty, span_digits, number_from}
use dart_backend.Decimal.{Decimal, finite, infinite, nan, signalling_nan, decimal_zero}

-- The sign at the front, and the rest.
unfoldable pub take_sign : Text → Bool × Text
take_sign [] = (false, [])
take_sign (c ∷ s) =
    if nat_beq c b'-' then (true, s) else if nat_beq c b'+' then (false, s) else (false, c ∷ s)

-- The digits behind a point, and the rest.
unfoldable pub take_fraction : Text → Text × Text
unfolding span_digits
take_fraction [] = ([], [])
take_fraction (c ∷ s) = if nat_beq c b'.' then span_digits s else ([], c ∷ s)

abbrev signed_ℤ : Bool → ℕ → ℤ
signed_ℤ negative zero = pos 0
signed_ℤ negative (suc n) = if negative then negsuc n else pos (suc n)

-- Digits alone, at least one.
unfoldable pub only_digits : Text → Option ℕ
unfolding span_digits number_from
only_digits s =
    let (ds, rest) = span_digits s in
    if is_empty ds || (if is_empty rest then false else true) then none else some (number_from 0 ds)

-- The exponent part: nothing, or `e` with a signed number.
unfoldable pub take_exponent : Text → Option ℤ
unfolding take_sign only_digits
take_exponent [] = some (pos 0)
take_exponent (c ∷ s) =
    let (negative, rest) = take_sign s in
    if nat_beq c b'e' || nat_beq c b'E'
    then elim (only_digits rest) [ none ↦ none | some n ↦ some (signed_ℤ negative n) ]
    else none

abbrev scaled : Bool → Text → Text → Option ℤ → Option Decimal
scaled negative whole fraction none = none
scaled negative whole fraction (some e) =
    some (finite negative (number_from 0 (whole ++ fraction)) (e -ℤ pos (length fraction)))

-- Digits with a point and an exponent.
unfoldable pub parse_number : Bool → Text → Option Decimal
unfolding span_digits take_fraction take_exponent number_from ◌-ℤ◌
parse_number negative s =
    let (whole, r) = span_digits s in
    let (fraction, r') = take_fraction r in
    if is_empty (whole ++ fraction) then none else scaled negative whole fraction (take_exponent r')

-- `nan` or `snan` may have digits behind it.
unfoldable pub is_tagged : Text → Text → Bool
unfolding span_digits
is_tagged [] s = is_empty (span_digits s).1
is_tagged (p ∷ ps) [] = false
is_tagged (p ∷ ps) (c ∷ s) = nat_beq p c && is_tagged ps s

unfoldable pub parse_unsigned : Bool → Text → Option Decimal
unfolding parse_number is_tagged lower list_beq
parse_unsigned negative s =
    let t = lower s in
    if t == txt "inf" || t == txt "infinity"
    then some (infinite negative)
    else if is_tagged (txt "nan") t
    then some (nan negative)
    else if is_tagged (txt "snan") t
    then some (signalling_nan negative)
    else parse_number negative s

-- Decimal(text): white space round the number and underscores anywhere are dropped; `none` is
-- InvalidOperation.
unfoldable pub decimal_of_text : Text → Option Decimal
unfolding take_sign parse_unsigned strip without
decimal_of_text s =
    let (negative, rest) = take_sign (without b'_' (strip s)) in parse_unsigned negative rest

abbrev or_zero : Option Decimal → Decimal
or_zero none = decimal_zero
or_zero (some d) = d

-- parse_amount(raw)
unfoldable pub parse_amount : Option Text → Decimal
unfolding decimal_of_text strip without
parse_amount none = decimal_zero
parse_amount (some raw) =
    let s = strip raw in
    if is_empty s then decimal_zero else or_zero (decimal_of_text (without b',' s))
