-- ===== src/Examples/Scheduled.antt =====
-- The schedule of a workflow, in a zone an hour ahead of UTC.
use dart_backend.Prelude.{
  list_beq, ℕ, ◌≡◌, ◌≤◌, ◌*◌, ◌+◌, refl, false, some, none, List, [], ◌∷◌, In, ◌-◌, ◌/◌, ◌%◌,
  length, list_eq, nat_eq, pair_eq, ◌↔◌,
}
use dart_backend.Prelude.Dict.{get, put}
use dart_backend.Prelude.Text.{
  is_space, lower_char, upper_char, lower, upper, lstrip, rstrip, strip, join, without, starts_with,
  drop_prefix, remove_prefix, span_digits, number_from, digits_before, number_text, Text, txt,
}
use dart_backend.Prelude.Results.{map_result, Result, ok, raised}
use dart_backend.Prelude.Sorting.{text_leb, insert_sorted, sort_by}
use dart_backend.Prelude.Int.{◌+ℤ◌, ◌-ℤ◌, min_ℤ, int_of}
use dart_backend.Schedule.{
  split_on, cut, read_part, range_from, values_of, parse_cron_field, has_none,
}
use dart_backend.Schedule.Next.{
  words_from, scan, next_cron_utc, once_utc, next_scheduled_at, Calendar, Zone, Fields, minute_size,
  read_fields,
}
use dart_backend.Schedule.Field.{Selected, parse_cron_field_lem}
use dart_backend.Schedule.Scan.{NextMinute, next_cron_utc_lem}

program : Unit {0}
unfolding list_beq get put is_space lower_char upper_char lower upper lstrip rstrip strip join
    without starts_with drop_prefix remove_prefix span_digits number_from digits_before number_text
    map_result text_leb insert_sorted sort_by ◌+ℤ◌ ◌-ℤ◌ min_ℤ int_of split_on cut read_part
    range_from values_of parse_cron_field words_from scan next_cron_utc once_utc next_scheduled_at
program = tt

abbrev quarters : Text
quarters = txt "5-50/15,59"

abbrev members_of : Result (List ℕ) → List ℕ
members_of (ok out) = out
members_of (raised e) = []

abbrev quarter_minutes : List ℕ
quarter_minutes = 5 ∷ 20 ∷ 35 ∷ 50 ∷ 59 ∷ []

quarters_read : parse_cron_field quarters 0 59 ≡ ok quarter_minutes
unfolding program
quarters_read = refl

parse_cron_field_lem_example :
    (has_none quarter_minutes ≡ false)
    × ((v : ℕ)
        → In v quarter_minutes ↔ ((0 ≤ v) × (v ≤ 59) × Selected 0 59 (split_on 44 quarters) v))
parse_cron_field_lem_example = parse_cron_field_lem quarters 0 59 quarter_minutes quarters_read

-- The 30th minute of every hour of the first of January.
abbrev expression : Text
expression = txt "30 * 1 1 *"

abbrev ahead : Zone
ahead = record { to_local = λ t. t + 60 * minute_size; to_utc = λ t. t - 60 * minute_size }

-- A calendar whose days are all the first of January, a Thursday.
abbrev calendar : Calendar
calendar = record {
  zone_of = λ name. some ahead;
  civil = λ n. record { month = 1; day = 1; hour = n / 60 % 24; minute = n % 60; weekday = 3 };
  stamp_of = λ s. none;
}

abbrev fields_of : Result Fields → Fields
fields_of (ok fields) = fields
fields_of (raised e) = record { minutes = []; hours = []; days = []; months = []; dows = [] }

abbrev fields : Fields
fields = fields_of (read_fields (words_from false expression))

five_words : length (words_from false expression) ≡ 5
unfolding program
five_words = refl

fields_read : read_fields (words_from false expression) ≡ ok fields
unfolding program
fields_read = refl

next_cron_utc_lem_example :
    NextMinute calendar ahead fields 0 (next_cron_utc calendar expression (txt "Europe/Paris") 0)
next_cron_utc_lem_example =
    next_cron_utc_lem calendar expression (txt "Europe/Paris") 0 ahead fields five_words refl
      fields_read
