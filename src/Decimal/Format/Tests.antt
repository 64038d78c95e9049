-- ===== src/Decimal/Format/Tests.antt =====
-- What parsing and formatting do on concrete amounts.
use dart_backend.Prelude.{◌≡◌, refl, some, true, false}
use dart_backend.Prelude.Text.{txt, number_text}
use dart_backend.Prelude.Int.{pos, negsuc}
use dart_backend.Prelude.Results.{ok, raised, invalid_operation}
use dart_backend.Decimal.{finite, decimal_zero, quantize, cents_of, half_up}
use dart_backend.Decimal.Parse.{parse_amount}
use dart_backend.Decimal.Format.{format_decimal, cents_text}

program : Unit {0}
unfolding format_decimal quantize cents_of half_up cents_text number_text parse_amount
program = tt

parse_plain : parse_amount (some (txt " -1,234.565 ")) ≡ finite true 1234565 (negsuc 2)
unfolding program
parse_plain = refl

parse_exponent : parse_amount (some (txt "1.5E+3")) ≡ finite false 15 (pos 2)
unfolding program
parse_exponent = refl

parse_junk : parse_amount (some (txt "12 USD")) ≡ decimal_zero
unfolding program
parse_junk = refl

format_tie : format_decimal (finite true 1234565 (negsuc 2)) ≡ ok (txt "-1234.57")
unfolding program
format_tie = refl

format_wide : format_decimal (parse_amount (some (txt "1e26"))) ≡ raised invalid_operation
unfolding program
format_wide = refl
