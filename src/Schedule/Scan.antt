-- ===== src/Schedule/Scan.antt =====
-- The time that `next_cron_utc` (app/services/workflow_schedule.py) finds.
use dart_backend.Prelude.{
  ℕ, zero, suc, ◌+◌, ◌*◌, ◌≤◌, ◌<◌, ◌≡◌, refl, inl, inr, Bool, true, false, Option, none, some,
  Bool-cases, arith, nat_beq, length, subst,
}
use dart_backend.Prelude.Text.{Text}
use dart_backend.Prelude.Results.{Result, ok, raised}
use dart_backend.Schedule.Next.{
  Calendar, Zone, Fields, scan, scan_size, first_minute, matches, minute_size, words_from,
  read_fields, next_cron_utc, never_matches, found_or_raise,
}

-- What a scan of so many minutes from a cursor finds.
abbrev Scanned : (ℕ → Bool) → ℕ → ℕ → Option ℕ → Type 0
Scanned test size cursor (some m) =
    (test m ≡ true)
    × (cursor ≤ m)
    × (m < cursor + size)
    × ((j : ℕ) → cursor ≤ j → j < m → test j ≡ false)
Scanned test size cursor none = (j : ℕ) → cursor ≤ j → j < cursor + size → test j ≡ false

later :
    (test : ℕ → Bool) (cursor j : ℕ)
    → test cursor ≡ false
    → cursor ≤ j
    → (suc cursor ≤ j → test j ≡ false)
    → test j ≡ false
later test cursor j fails low next = elim (Bool-cases (nat_beq cursor j)) [
  | inl same ↦ subst (λ x. test x ≡ false) (let e : cursor ≡ j = ground arith in e) fails
  | inr other ↦ next (ground arith)
]

scan-Scanned :
    (test : ℕ → Bool) (size cursor : ℕ) → Scanned test size cursor (scan test size cursor)
unfolding scan
scan-Scanned test zero cursor = λ j low high. absurd (omega arith)
scan-Scanned test (suc size) cursor = elim (Bool-cases (test cursor)) [
  | inl holds ↦ rw holds (holds, omega arith, omega arith, (λ j low high. absurd (omega arith)))
  | inr fails ↦
      rw fails (shifted (scan test size (suc cursor)) (scan-Scanned test size (suc cursor)) fails)
]
  where
    shifted :
        (o : Option ℕ)
        → Scanned test size (suc cursor) o
        → test cursor ≡ false
        → Scanned test (suc size) cursor o
    shifted (some m) (holds, low, high, before) fails = (
      holds,
      omega arith,
      omega arith,
      (λ j l h. later test cursor j fails l (λ l'. before j l' h)),
    )
    shifted none nothing fails =
        λ j l h. later test cursor j fails l (λ l'. nothing j l' (omega arith))

-- The minutes after a time that the program looks at, and the first of them that matches.
abbrev pub NextMinute : Calendar → Zone → Fields → ℕ → Result ℕ → Type 0
NextMinute calendar zone fields now (ok utc) =
    (m : ℕ) × (utc ≡ zone.to_utc (m * minute_size))
    × (matches fields (calendar.civil m) ≡ true)
    × (first_minute zone now ≤ m)
    × (m < first_minute zone now + scan_size)
    × ((j : ℕ) → first_minute zone now ≤ j → j < m → matches fields (calendar.civil j) ≡ false)
NextMinute calendar zone fields now (raised e) =
    (e ≡ never_matches)
    × ((j : ℕ)
        → first_minute zone now ≤ j
        → j < first_minute zone now + scan_size
        → matches fields (calendar.civil j) ≡ false)

found-NextMinute :
    (calendar : Calendar) (zone : Zone) (fields : Fields) (now : ℕ) (o : Option ℕ)
    → Scanned (λ m. matches fields (calendar.civil m)) scan_size (first_minute zone now) o
    → NextMinute calendar zone fields now (found_or_raise zone o)
found-NextMinute calendar zone fields now (some m) (holds, low, high, before) =
    (m, refl, holds, low, high, before)
found-NextMinute calendar zone fields now none nothing = (refl, nothing)

-- For an expression of five fields that are read and a zone that is known, the next time is the
-- earliest minute of the wall clock of the zone, after the minute of the given time and no more than 366 days
-- later, that all five fields match; when there is none, the error says that the schedule never matches.
pub next_cron_utc_lem :
    (calendar : Calendar) (expr timezone : Text) (now : ℕ) (zone : Zone) (fields : Fields)
    → length (words_from false expr) ≡ 5
    → calendar.zone_of timezone ≡ some zone
    → read_fields (words_from false expr) ≡ ok fields
    → NextMinute calendar zone fields now (next_cron_utc calendar expr timezone now)
unfolding next_cron_utc
next_cron_utc_lem calendar expr timezone now zone fields five known read =
    rw (five, known, read)
      (found-NextMinute calendar zone fields now
        (scan (λ m. matches fields (calendar.civil m)) scan_size (first_minute zone now))
        (scan-Scanned (λ m. matches fields (calendar.civil m)) scan_size (first_minute zone now)))
