-- ===== src/Decimal/Format.antt =====
-- `format_decimal` of app/services/bridge_resolve.py.
mod Digits
pub mod Tests
pub mod Roundtrip
use dart_backend.Prelude.{
  ℕ, zero, suc, ◌+◌, ◌/◌, ◌%◌, Bool, true, false, List, [], ◌∷◌, ◌++◌, if◌then◌else◌,
}
use dart_backend.Prelude.Text.{Text, txt, number_text}
use dart_backend.Prelude.Results.{Result, ok, raised, ◌>>=◌}
use dart_backend.Decimal.{Decimal, finite, infinite, nan, signalling_nan, quantize}

abbrev pub sign_text : Bool → Text
sign_text true = txt "-"
sign_text false = []

-- format(d, "f") of a coefficient at the exponent -2.
unfoldable pub cents_text : Bool → ℕ → Text
cents_text negative c =
    sign_text negative
    ++ (number_text (c / 100) ++ (b'.' ∷ (48 + c % 100 / 10) ∷ (48 + c % 10) ∷ []))

abbrev format_quantized : Decimal → Text
format_quantized (finite s c e) = cents_text s c
format_quantized (infinite s) = sign_text s ++ txt "Infinity"
format_quantized (nan s) = sign_text s ++ txt "NaN"
format_quantized (signalling_nan s) = sign_text s ++ txt "sNaN"

-- format_decimal(value)
unfoldable pub format_decimal : Decimal → Result Text
format_decimal d = do quantized ← quantize d; ok (format_quantized quantized)
