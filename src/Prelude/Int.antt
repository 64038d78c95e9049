-- ===== src/Prelude/Int.antt =====
-- Signed integers over the native numbers: `negsuc n` is -(n + 1), and `int` of a text.
use dart_backend.Prelude.Tests.{leb, nat_beq, if◌then◌else◌}
use Prim.Native.Nat.{ℕ, zero, suc, ◌+◌, ◌-◌, ◌*◌}
use mathlib.Core.Bool.{Bool, true, false, ◌&&◌}
use mathlib.Core.List.{[], ◌∷◌}
use mathlib.Core.Option.{Option, none, some}
use mathlib.Core.Option
use dart_backend.Prelude.Text.{Text, strip, is_digit}

pub data ℤ : Type 0 where
  pos : ℕ → ℤ
  negsuc : ℕ → ℤ

abbrev pub pos_part : ℤ → ℕ
pos_part (pos n) = n
pos_part (negsuc n) = 0

abbrev pub neg_part : ℤ → ℕ
neg_part (pos n) = 0
neg_part (negsuc n) = suc n

-- a - b, as an integer.
abbrev pub sub_ℕ : ℕ → ℕ → ℤ
sub_ℕ a b = if leb b a then pos (a - b) else negsuc (b - a - 1)

infixl 65 ◌+ℤ◌ ◌-ℤ◌
unfoldable pub ◌+ℤ◌ : ℤ → ℤ → ℤ
a +ℤ b = sub_ℕ (pos_part a + pos_part b) (neg_part a + neg_part b)

unfoldable pub ◌-ℤ◌ : ℤ → ℤ → ℤ
a -ℤ b = sub_ℕ (pos_part a + neg_part b) (neg_part a + pos_part b)

abbrev pub leb_ℤ : ℤ → ℤ → Bool
leb_ℤ a b = leb (pos_part a + neg_part b) (pos_part b + neg_part a)

unfoldable pub min_ℤ : ℤ → ℤ → ℤ
min_ℤ a b = if leb_ℤ a b then a else b

-- A digit, or an underscore that a digit follows, behind a digit.
abbrev digits_to_end : Bool → ℕ → Text → Option ℕ
digits_to_end behind n [] = if behind then some n else none
digits_to_end behind n (c ∷ s) =
    let digit = digits_to_end true (n * 10 + (c - 48)) s in
    let gap = digits_to_end false n s in
    if is_digit c then digit else if behind && nat_beq c 95 then gap else none

abbrev negated : ℕ → ℤ
negated zero = pos 0
negated (suc n) = negsuc n

abbrev signed : Text → Option ℤ
signed [] = none
signed (c ∷ s) =
    if nat_beq c 45
    then Option.map negated (digits_to_end false 0 s)
    else if nat_beq c 43
    then Option.map pos (digits_to_end false 0 s)
    else Option.map pos (digits_to_end false 0 (c ∷ s))

-- `int(s)` for a text, with the ASCII digits; none where it raises ValueError.
unfoldable pub int_of : Text → Option ℤ
unfolding strip
int_of s = signed (strip s)
