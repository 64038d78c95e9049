-- ===== src/Schedule/Next.antt =====
-- The next time of a schedule: next_scheduled_at of app/services/workflow_schedule.py and its parts.
use dart_backend.Prelude.{
  ℕ, zero, suc, ◌+◌, ◌*◌, ◌/◌, ◌%◌, Bool, false, ◌&&◌, not, Option, none, some, List, [], ◌∷◌,
  if◌then◌else◌, keep, any, length, leb, ltb, nat_beq, list_eq, nat_eq,
}
use dart_backend.Prelude.Text.{Text, txt, is_space, starts_with, remove_prefix, strip}
use dart_backend.Prelude.Results.{
  Exception, Result, ok, raised, raise_if, ◌>>=◌, value_error, app_error,
}
use dart_backend.Schedule.{parse_cron_field}

-- What the program reads of a wall-clock minute, with Monday as weekday 0.
pub record Moment : Type 0 where
  pub month : ℕ
  pub day : ℕ
  pub hour : ℕ
  pub minute : ℕ
  pub weekday : ℕ

abbrev pub cron_weekday : Moment → ℕ
cron_weekday m = (m.weekday + 1) % 7

-- A zone: from UTC to its wall clock (`astimezone(tz)`), and back.
pub record Zone : Type 0 where
  pub to_local : ℕ → ℕ
  pub to_utc : ℕ → ℕ

-- What `datetime.fromisoformat` reads: a wall clock without a zone, or a time of UTC.
pub data Stamp : Type 0 where
  naive : ℕ → Stamp
  aware : ℕ → Stamp

pub record Calendar : Type 0 where
  pub zone_of : Text → Option Zone
  pub civil : (minutes : ℕ) → Moment
  pub stamp_of : Text → Option Stamp

abbrev pub contains : ℕ → List ℕ → Bool
contains v vs = any (λ w. nat_beq w v) vs

-- The five sets of an expression.
pub record Fields : Type 0 where
  pub minutes : List ℕ
  pub hours : List ℕ
  pub days : List ℕ
  pub months : List ℕ
  pub dows : List ℕ

-- `if 7 in dows: ...`
abbrev pub sundays : List ℕ → List ℕ
sundays dows = if contains 7 dows then keep (λ v. not (nat_beq v 7)) (0 ∷ dows) else dows

abbrev pub matches : Fields → Moment → Bool
matches f m =
    contains m.month f.months
    && contains m.day f.days
    && contains m.hour f.hours
    && contains m.minute f.minutes
    && contains (cron_weekday m) f.dows

-- `expr.split()`
unfoldable pub words_from : (inside : Bool) → Text → List Text
unfolding is_space
words_from inside [] = if inside then [] ∷ [] else []
words_from inside (c ∷ s) =
    let rest = words_from (not (is_space c)) s in
    if is_space c then if inside then [] ∷ rest else rest else extend c rest
  where
    extend : ℕ → List Text → List Text
    extend c [] = (c ∷ []) ∷ []
    extend c (w ∷ ws) = (c ∷ w) ∷ ws

abbrev pub invalid_cron : Text → Exception
invalid_cron message = app_error message (txt "invalid_cron")

abbrev pub bad_schedule : Exception
bad_schedule = invalid_cron (txt "schedule_cron or timezone is invalid.")

abbrev pub zone_or_raise : Option Zone → Result Zone
zone_or_raise (some zone) = ok zone
zone_or_raise none = raised value_error

abbrev pub read_fields : List Text → Result Fields
read_fields (minute_s ∷ hour_s ∷ day_s ∷ month_s ∷ dow_s ∷ []) = do
  minutes ← parse_cron_field minute_s 0 59
  hours ← parse_cron_field hour_s 0 23
  days ← parse_cron_field day_s 1 31
  months ← parse_cron_field month_s 1 12
  dows ← parse_cron_field dow_s 0 7
  ok (record {
    minutes = minutes;
    hours = hours;
    days = days;
    months = months;
    dows = sundays dows;
  })
read_fields words = raised value_error

abbrev pub not_five : Exception
not_five = invalid_cron (txt "schedule_cron must have 5 fields (m h dom mon dow).")

abbrev pub never_matches : Exception
never_matches = invalid_cron (txt "schedule_cron never matches in the next year.")

-- `except (ValueError, ZoneInfoNotFoundError)`
abbrev pub as_bad_schedule : {A : Type 0} → Result A → Result A
as_bad_schedule (ok a) = ok a
as_bad_schedule (raised value_error) = raised bad_schedule
as_bad_schedule (raised e) = raised e

abbrev pub minute_size : ℕ
minute_size = 60 * 1000000

-- The minutes that are looked at: those of 366 days, and the last of them.
abbrev pub scan_size : ℕ
scan_size = 366 * 1440 + 1

-- The first minute from `cursor` that passes, among so many.
unfoldable pub scan : (ℕ → Bool) → (size cursor : ℕ) → Option ℕ
scan test zero cursor = none
scan test (suc size) cursor = if test cursor then some cursor else scan test size (suc cursor)

abbrev pub found_or_raise : Zone → Option ℕ → Result ℕ
found_or_raise zone (some minute) = ok (zone.to_utc (minute * minute_size))
found_or_raise zone none = raised never_matches

abbrev pub first_minute : Zone → ℕ → ℕ
first_minute zone now = zone.to_local now / minute_size + 1

-- The next time of UTC behind `now` that the expression matches in the zone.
unfoldable pub next_cron_utc : Calendar → Text → Text → (now : ℕ) → Result ℕ
next_cron_utc calendar expr timezone now = do
  five ← raise_if (not (nat_beq (length (words_from false expr)) 5)) not_five
  zone ← as_bad_schedule (zone_or_raise (calendar.zone_of timezone))
  fields ← as_bad_schedule (read_fields (words_from false expr))
  found_or_raise zone
      (scan (λ minute. matches fields (calendar.civil minute)) scan_size (first_minute zone now))

abbrev pub once_prefix : Text
once_prefix = txt "@once "

abbrev pub day_size : ℕ
day_size = 1440 * minute_size

abbrev pub stamp_or_raise : Option Stamp → Result Stamp
stamp_or_raise (some stamp) = ok stamp
stamp_or_raise none = raised value_error

-- Wall clocks of the same zone are compared as they are, other times as those of UTC.
abbrev pub is_before_today : Zone → ℕ → Stamp → Bool
is_before_today zone now (Stamp.naive wall) = ltb wall (zone.to_local now / day_size * day_size)
is_before_today zone now (Stamp.aware utc) =
    ltb utc (zone.to_utc (zone.to_local now / day_size * day_size))

abbrev pub stamp_utc : Zone → Stamp → ℕ
stamp_utc zone (Stamp.naive wall) = zone.to_utc wall
stamp_utc zone (Stamp.aware utc) = utc

unfoldable pub once_utc : Calendar → Text → Text → (now : ℕ) → Result (Option ℕ)
unfolding strip
once_utc calendar stamp timezone now = do
  zone ← as_bad_schedule (zone_or_raise (calendar.zone_of timezone))
  moment ← as_bad_schedule (stamp_or_raise (calendar.stamp_of (strip stamp)))
  let utc = stamp_utc zone moment
  ok (if is_before_today zone now moment then none else if leb utc now then some now else some utc)

-- No expression, or an empty one, gives no time.
unfoldable pub next_scheduled_at : Calendar → Option Text → Text → (now : ℕ) → Result (Option ℕ)
unfolding starts_with remove_prefix
next_scheduled_at calendar none timezone now = ok none
next_scheduled_at calendar (some []) timezone now = ok none
next_scheduled_at calendar (some (c ∷ s)) timezone now =
    if starts_with (c ∷ s) once_prefix
    then once_utc calendar (remove_prefix (c ∷ s) once_prefix) timezone now
    else do utc ← next_cron_utc calendar (c ∷ s) timezone now; ok (some utc)
