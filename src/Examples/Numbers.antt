-- ===== src/Examples/Numbers.antt =====
-- Amounts: the theorems on parsing, formatting and rounding at concrete numbers.
use dart_backend.Prelude.{
  list_beq, ◌≡◌, ◌<◌, ◌≤◌, ◌*◌, ◌+◌, ◌^◌, refl, true, some, suc, list_eq, nat_eq, pair_eq,
}
use dart_backend.Prelude.Dict.{get, put}
use dart_backend.Prelude.Text.{
  is_space, lower_char, upper_char, lower, upper, lstrip, rstrip, strip, join, without, starts_with,
  drop_prefix, remove_prefix, span_digits, number_from, digits_before, number_text, txt,
}
use dart_backend.Prelude.Results.{map_result, ok}
use dart_backend.Prelude.Sorting.{text_leb, insert_sorted, sort_by}
use dart_backend.Prelude.Int.{◌+ℤ◌, ◌-ℤ◌, min_ℤ, negsuc}
use dart_backend.Decimal.{
  shed, half_even, half_up, fix, multiply, add_signed, rescale, add, subtract, absolute, greater,
  cents_of, quantize, finite,
}
use dart_backend.Decimal.Parse.{
  take_sign, take_fraction, only_digits, take_exponent, parse_number, is_tagged, parse_unsigned,
  decimal_of_text, parse_amount,
}
use dart_backend.Decimal.Format.{cents_text, format_decimal}
use dart_backend.Decimal.Rounding.{cents_of_bounds}
use dart_backend.Decimal.Format.Roundtrip.{format_decimal-parse_amount}

program : Unit {0}
unfolding list_beq get put is_space lower_char upper_char lower upper lstrip rstrip strip join
    without starts_with drop_prefix remove_prefix span_digits number_from digits_before number_text
    map_result text_leb insert_sorted sort_by ◌+ℤ◌ ◌-ℤ◌ min_ℤ shed half_even half_up fix multiply
    add_signed rescale add subtract absolute greater cents_of quantize take_sign take_fraction
    only_digits take_exponent parse_number is_tagged parse_unsigned decimal_of_text parse_amount
    cents_text format_decimal
program = tt

format_decimal-parse_amount_example :
    format_decimal (parse_amount (some (txt "-12.35"))) ≡ ok (txt "-12.35")
unfolding program
format_decimal-parse_amount_example =
    format_decimal-parse_amount (finite true 12345 (negsuc 2)) (txt "-12.35") refl

cents_of_bounds_example :
    (2 * (cents_of 12345 (negsuc (suc 1)) * 10 ^ 1) ≤ 2 * 12345 + 10 ^ 1)
    × (2 * 12345 < 2 * (cents_of 12345 (negsuc (suc 1)) * 10 ^ 1) + 10 ^ 1)
cents_of_bounds_example = cents_of_bounds 12345 1
