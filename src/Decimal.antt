-- ===== src/Decimal.antt =====
-- The `decimal.Decimal` values that the services compute with: signed coefficients and exponents
-- with the default context (28 digits, ROUND_HALF_EVEN, InvalidOperation trapped), as app/services
-- use them: parsing, `*`, `+`, `-`, `abs`, `>` and `quantize(Decimal("0.01"), ROUND_HALF_UP)`.
-- A NaN carries no payload, and the context's limits on exponents are not modelled.
pub mod Parse
pub mod Format
pub mod Rounding
use dart_backend.Prelude.{
  ℕ, zero, suc, ◌+◌, ◌-◌, ◌*◌, ◌/◌, ◌%◌, ◌^◌, Bool, true, false, ◌&&◌, ◌||◌, not, ltb, leb, nat_beq,
  if◌then◌else◌,
}
use dart_backend.Prelude.Int.{ℤ, pos, negsuc, ◌+ℤ◌, ◌-ℤ◌, min_ℤ, pos_part}
use dart_backend.Prelude.Results.{Result, ok, raised, invalid_operation}

pub data Decimal : Type 0 where
  finite : (negative : Bool) (coefficient : ℕ) (exponent : ℤ) → Decimal
  infinite : (negative : Bool) → Decimal
  nan : (negative : Bool) → Decimal
  signalling_nan : (negative : Bool) → Decimal

abbrev pub xor : Bool → Bool → Bool
xor true b = not b
xor false b = b

abbrev pub decimal_zero : Decimal
decimal_zero = finite false 0 (pos 0)

abbrev pub decimal_one : Decimal
decimal_one = finite false 1 (pos 0)

abbrev pub decimal_minus_one : Decimal
decimal_minus_one = finite true 1 (pos 0)

-- Coefficients of at most 28 digits are below this.
abbrev pub precision_limit : ℕ
precision_limit = 10 ^ 28

-- How many digits a coefficient has beyond the precision; the fuel is the coefficient itself.
unfoldable pub shed : ℕ → ℕ → ℕ
shed zero c = 0
shed (suc fuel) c = let more = suc (shed fuel (c / 10)) in if ltb c precision_limit then 0 else more

-- c / m to the nearest integer, ties to the even one.
unfoldable pub half_even : ℕ → ℕ → ℕ
half_even c m =
    let q = c / m in
    let twice = 2 * (c % m) in
    if ltb m twice || (nat_beq twice m && nat_beq (q % 2) 1) then q + 1 else q

-- c / m to the nearest integer, ties upwards.
unfoldable pub half_up : ℕ → ℕ → ℕ
half_up c m = let q = c / m in if leb m (2 * (c % m)) then q + 1 else q

-- The rounding of a result to the precision of the context.
unfoldable pub fix : Bool → ℕ → ℤ → Decimal
unfolding shed half_even
fix negative c e =
    let k = shed c c in
    let q = half_even c (10 ^ k) in
    if nat_beq k 0
    then finite negative c e
    else if nat_beq q precision_limit
    then finite negative (q / 10) (e +ℤ pos (k + 1))
    else finite negative q (e +ℤ pos k)

-- x * y
unfoldable pub multiply : Decimal → Decimal → Result Decimal
unfolding fix
multiply (signalling_nan s) y = raised invalid_operation
multiply (finite s c e) (finite t d f) = ok (fix (xor s t) (c * d) (e +ℤ f))
multiply (finite s c e) (infinite t) =
    if nat_beq c 0 then raised invalid_operation else ok (infinite (xor s t))
multiply (infinite s) (finite t d f) =
    if nat_beq d 0 then raised invalid_operation else ok (infinite (xor s t))
multiply (infinite s) (infinite t) = ok (infinite (xor s t))
multiply x (signalling_nan t) = raised invalid_operation
multiply (nan s) y = ok (nan s)
multiply x (nan t) = ok (nan t)

-- The sum of two signed magnitudes; a zero that cancels is positive.
unfoldable pub add_signed : Bool → ℕ → Bool → ℕ → Bool × ℕ
add_signed s c t d =
    if xor s (not t)
    then (s, c + d)
    else if ltb d c
    then (s, c - d)
    else if ltb c d
    then (t, d - c)
    else (false, 0)

-- The coefficient at a lower exponent.
unfoldable pub rescale : ℕ → ℤ → ℤ → ℕ
rescale c e low = c * 10 ^ pos_part (e -ℤ low)

-- x + y
unfoldable pub add : Decimal → Decimal → Result Decimal
unfolding fix add_signed rescale
add (signalling_nan s) y = raised invalid_operation
add (finite s c e) (finite t d f) =
    let low = min_ℤ e f in
    let (sign, sum) = add_signed s (rescale c e low) t (rescale d f low) in ok (fix sign sum low)
add (finite s c e) (infinite t) = ok (infinite t)
add (infinite s) (finite t d f) = ok (infinite s)
add (infinite s) (infinite t) = if xor s t then raised invalid_operation else ok (infinite s)
add x (signalling_nan t) = raised invalid_operation
add (nan s) y = ok (nan s)
add x (nan t) = ok (nan t)

abbrev pub copy_negate : Decimal → Decimal
copy_negate (finite s c e) = finite (not s) c e
copy_negate (infinite s) = infinite (not s)
copy_negate (nan s) = nan s
copy_negate (signalling_nan s) = signalling_nan s

-- x - y: a NaN operand comes back as it is.
unfoldable pub subtract : Decimal → Decimal → Result Decimal
unfolding add
subtract x y = add x (copy_negate y)

-- abs(x)
unfoldable pub absolute : Decimal → Result Decimal
unfolding fix
absolute (finite s c e) = ok (fix false c e)
absolute (infinite s) = ok (infinite false)
absolute (nan s) = ok (nan s)
absolute (signalling_nan s) = raised invalid_operation

-- x > y: a comparison with a NaN raises.
unfoldable pub greater : Decimal → Decimal → Result Bool
unfolding rescale
greater (finite s c e) (finite t d f) =
    let low = min_ℤ e f in
    let x = rescale c e low in
    let y = rescale d f low in
    ok (if s then t && ltb x y else (if t then ltb 0 (x + y) else ltb y x))
greater (finite s c e) (infinite t) = ok t
greater (infinite s) (finite t d f) = ok (not s)
greater (infinite s) (infinite t) = ok (t && not s)
greater x y = raised invalid_operation

-- The coefficient of x at the exponent -2, ties away from zero.
unfoldable pub cents_of : ℕ → ℤ → ℕ
unfolding half_up
cents_of c (pos n) = c * 10 ^ (n + 2)
cents_of c (negsuc zero) = c * 10
cents_of c (negsuc (suc n)) = half_up c (10 ^ n)

-- x.quantize(Decimal("0.01"), rounding=ROUND_HALF_UP)
unfoldable pub quantize : Decimal → Result Decimal
unfolding cents_of
quantize (finite s c e) =
    let q = cents_of c e in
    if ltb q precision_limit then ok (finite s q (negsuc 1)) else raised invalid_operation
quantize (infinite s) = raised invalid_operation
quantize (nan s) = ok (nan s)
quantize (signalling_nan s) = raised invalid_operation
