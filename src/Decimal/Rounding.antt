-- ===== src/Decimal/Rounding.antt =====
-- How far rounding to cents moves an amount, and what `* Decimal("-1")` does to one.
use dart_backend.Prelude.{
  ℕ, zero, suc, ◌+◌, ◌*◌, ◌^◌, ◌≤◌, ◌<◌, ◌≡◌, refl, ap, Bool, true, false, not, arith,
}
use native.Mathlib.Nat.{pow-suc, mul-one}
use dart_backend.Prelude.Int.{ℤ, pos, negsuc, ◌+ℤ◌}
use dart_backend.Prelude.Results.{ok}
use dart_backend.Decimal.{
  Decimal, finite, half_up, cents_of, shed, fix, multiply, xor, precision_limit, decimal_minus_one,
}

pow_ten_pos : (n : ℕ) → 0 < 10 ^ n
pow_ten_pos zero = omega arith
pow_ten_pos (suc n) = rw pow-suc (omega (arith, pow_ten_pos n))

half_up_bounds :
    (c m : ℕ) → 0 < m → (2 * (half_up c m * m) ≤ 2 * c + m) × (2 * c < 2 * (half_up c m * m) + m)
unfolding half_up
half_up_bounds c m h = grind arith

-- Rounding to cents moves a coefficient at the exponent -(n + 2) by at most half a cent; an amount
-- that lies half-way is moved away from zero.
pub cents_of_bounds :
    (c n : ℕ)
    → (2 * (cents_of c (negsuc (suc n)) * 10 ^ n) ≤ 2 * c + 10 ^ n)
      × (2 * c < 2 * (cents_of c (negsuc (suc n)) * 10 ^ n) + 10 ^ n)
unfolding cents_of
cents_of_bounds c n = half_up_bounds c (10 ^ n) (pow_ten_pos n)

shed-eq-zero : (fuel c : ℕ) → c < precision_limit → shed fuel c ≡ 0
unfolding shed
shed-eq-zero zero c h = refl
shed-eq-zero (suc fuel) c h = ground arith

-- A coefficient within the precision is left as it is.
pub fix_exact : (s : Bool) (c : ℕ) (e : ℤ) → c < precision_limit → fix s c e ≡ finite s c e
unfolding fix
fix_exact s c e h = rw (shed-eq-zero c c h)

+ℤ-zero : (e : ℤ) → e +ℤ pos 0 ≡ e
unfolding ◌+ℤ◌
+ℤ-zero (pos n) = ground arith
+ℤ-zero (negsuc n) = ground arith

-- One with the sign that `negative` gives.
abbrev pub unit : Bool → Decimal
unit negative = finite negative 1 (pos 0)

-- Within the precision a sign is multiplied in exactly.
pub multiply-unit :
    (s negative : Bool) (c : ℕ) (e : ℤ)
    → c < precision_limit
    → multiply (finite s c e) (unit negative) ≡ ok (finite (xor s negative) c e)
unfolding multiply
multiply-unit s negative c e h = rw (mul-one, +ℤ-zero e) (ap ok (fix_exact (xor s negative) c e h))

pub multiply-minus_one :
    (negative : Bool) → multiply (unit negative) decimal_minus_one ≡ ok (unit (not negative))
multiply-minus_one true = multiply-unit true true 1 (pos 0) (omega arith)
multiply-minus_one false = multiply-unit false true 1 (pos 0) (omega arith)
