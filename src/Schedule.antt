-- ===== src/Schedule.antt =====
-- The next run of a workflow's schedule: app/services/workflow_schedule.py. A time is a count of
-- microseconds, of UTC or of the wall clock of a zone; what the program takes of datetime and zoneinfo
-- is an argument.
pub mod Next
pub mod Field
pub mod Scan
use dart_backend.Prelude.{
  ℕ, zero, suc, ◌+◌, ◌-◌, ◌*◌, ◌/◌, ◌%◌, Bool, true, false, ◌||◌, ◌&&◌, not, Option, none, some,
  List, [], ◌∷◌, ◌++◌, if◌then◌else◌, keep, any, length, leb, ltb, nat_beq, or_else, list_eq,
  nat_eq, list_beq, ◌==◌,
}
use dart_backend.Prelude.Int.{ℤ, int_of}
use dart_backend.Prelude.Text.{Text, txt, is_empty, is_space, starts_with, remove_prefix, strip}
use dart_backend.Prelude.Results.{
  Exception, Result, ok, raised, raise_if, ◌>>=◌, value_error, app_error,
}

-- `text.split(c)`
unfoldable pub split_on : ℕ → Text → List Text
split_on c [] = [] ∷ []
split_on c (d ∷ s) = let rest = split_on c s in if nat_beq d c then [] ∷ rest else join_head d rest
  where
    join_head : ℕ → List Text → List Text
    join_head d [] = (d ∷ []) ∷ []
    join_head d (part ∷ parts) = (d ∷ part) ∷ parts

-- `text.split(c, 1)`, when `c` is in the text.
unfoldable pub cut : ℕ → Text → Option (Text × Text)
cut c [] = none
cut c (d ∷ s) = let rest = cut c s in if nat_beq d c then some ([], s) else behind d rest
  where
    behind : ℕ → Option (Text × Text) → Option (Text × Text)
    behind d none = none
    behind d (some (first, second)) = some (d ∷ first, second)

abbrev pub int_or_raise : Text → Result ℤ
int_or_raise s = elim (int_of s) [ some n ↦ ok n | none ↦ raised value_error ]

-- A number without a minus sign.
abbrev pub unsigned : ℤ → Result ℕ
unsigned (ℤ.pos n) = ok n
unsigned (ℤ.negsuc n) = raised value_error

abbrev pub at_least_one : ℤ → Result ℕ
at_least_one (ℤ.pos zero) = raised value_error
at_least_one (ℤ.pos (suc n)) = ok (suc n)
at_least_one (ℤ.negsuc n) = raised value_error

-- `step = int(step_s)`, at least 1.
abbrev pub step_from : Option Text → Result ℕ
step_from none = ok 1
step_from (some s) = int_or_raise s >>= λ n. at_least_one n

-- Where a part starts, where it ends (no value for an end below zero), and its step.
pub record Part : Type 0 where
  pub start : ℕ
  pub stop : Option ℕ
  pub step : ℕ

abbrev pub end_of : ℤ → Option ℕ
end_of (ℤ.pos n) = some n
end_of (ℤ.negsuc n) = none

abbrev pub body_part : (minimum maximum step : ℕ) → Text → Result Part
body_part minimum maximum step body =
    if body == txt "*" || is_empty body
    then ok (record { start = minimum; stop = some maximum; step = step })
    else elim (cut 45 body) [
      | some (start_s, end_s) ↦ do
        first ← int_or_raise start_s
        start ← unsigned first
        last ← int_or_raise end_s
        ok (record { start = start; stop = end_of last; step = step })
      | none ↦ do
        first ← int_or_raise body
        start ← unsigned first
        ok (record { start = start; stop = some start; step = step })
    ]

unfoldable pub read_part : (minimum maximum : ℕ) → Text → Result Part
unfolding list_beq
read_part minimum maximum part = elim (cut 47 part) [
  | none ↦ body_part minimum maximum 1 part
  | some (body, step_s) ↦ do step ← step_from (some step_s); body_part minimum maximum step body
]

-- `range(start, end + 1, step)`: it has no more than `fuel` values.
unfoldable pub range_from : (fuel start last step : ℕ) → List ℕ
range_from zero start last step = []
range_from (suc fuel) start last step =
    let rest = range_from fuel (start + step) last step in
    if leb start last then start ∷ rest else []

abbrev pub range_of : ℕ → ℕ → Option ℕ → List ℕ
range_of start step none = []
range_of start step (some last) = range_from (suc last - start) start last step

unfoldable pub values_of : (minimum maximum : ℕ) → List Text → Result (List ℕ)
values_of minimum maximum [] = ok []
values_of minimum maximum (part ∷ parts) = do
  p ← read_part minimum maximum part
  rest ← values_of minimum maximum parts
  ok (range_of p.start p.step p.stop ++ rest)

abbrev pub in_bounds : ℕ → ℕ → ℕ → Bool
in_bounds minimum maximum v = leb minimum v && leb v maximum

abbrev pub has_none : List ℕ → Bool
has_none [] = true
has_none (v ∷ vs) = false

-- The members of the set, some of them more than once.
unfoldable pub parse_cron_field : Text → (minimum maximum : ℕ) → Result (List ℕ)
parse_cron_field expr minimum maximum = do
  values ← values_of minimum maximum (split_on 44 expr)
  let out = keep (in_bounds minimum maximum) values
  matched ← raise_if (has_none out) value_error
  ok out
