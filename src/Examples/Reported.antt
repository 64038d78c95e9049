-- ===== src/Examples/Reported.antt =====
-- The report: the theorems on its groups and its summary at the sample rows.
use dart_backend.Prelude.{list_beq, ◌≡◌, refl, false, List, [], ◌∷◌, list_eq, nat_eq, pair_eq}
use dart_backend.Prelude.Dict.{get, put}
use dart_backend.Prelude.Text.{
  is_space, lower_char, upper_char, lower, upper, lstrip, rstrip, strip, join, without, starts_with,
  drop_prefix, remove_prefix, span_digits, number_from, digits_before, number_text, Text, txt,
}
use dart_backend.Prelude.Results.{map_result, Result, ok, raised}
use dart_backend.Prelude.Sorting.{text_leb, insert_sorted, sort_by}
use dart_backend.Prelude.Int.{◌+ℤ◌, ◌-ℤ◌, min_ℤ, pos}
use dart_backend.Decimal.{
  shed, half_even, half_up, fix, multiply, add_signed, rescale, add, subtract, absolute, greater,
  cents_of, quantize, finite,
}
use dart_backend.Decimal.Parse.{
  take_sign, take_fraction, only_digits, take_exponent, parse_number, is_tagged, parse_unsigned,
  decimal_of_text, parse_amount,
}
use dart_backend.Decimal.Format.{cents_text, format_decimal}
use dart_backend.Bridge.{
  is_amount_dimension, is_kickout_member, mapping_key, folded_value, data_value, truthy_flag,
  canonical_dimension_name,
}
use dart_backend.Sync.Resolve.{
  sync_source_value, zip_cons, zip_lists, combine, zip_distinct_lists, mapping_applies,
  apply_mappings, apply_sync_mappings,
}
use dart_backend.Report.{
  match_dimension_names, load_rows_for_matching, match_parts, resolve_key_and_amount, add_to_group,
  match_rows, zip_key, report_row, report_rows, rows_and_summary, compute_report, Groups, ReportRun,
  group_at,
}
use dart_backend.Examples.{bridge_index, rows}
use dart_backend.Report.Totals.{total_for, match_rows-total, match_rows-others}

program : Unit {0}
unfolding list_beq get put is_space lower_char upper_char lower upper lstrip rstrip strip join
    without starts_with drop_prefix remove_prefix span_digits number_from digits_before number_text
    map_result text_leb insert_sorted sort_by ◌+ℤ◌ ◌-ℤ◌ min_ℤ shed half_even half_up fix multiply
    add_signed rescale add subtract absolute greater cents_of quantize take_sign take_fraction
    only_digits take_exponent parse_number is_tagged parse_unsigned decimal_of_text parse_amount
    cents_text format_decimal is_amount_dimension is_kickout_member mapping_key folded_value
    data_value truthy_flag canonical_dimension_name sync_source_value zip_cons zip_lists combine
    zip_distinct_lists mapping_applies apply_mappings apply_sync_mappings match_dimension_names
    load_rows_for_matching match_parts resolve_key_and_amount add_to_group match_rows zip_key
    report_row report_rows rows_and_summary compute_report
program = tt

abbrev names : List Text
names = txt "Account" ∷ []

abbrev groups_of : Result Groups → Groups
groups_of (ok groups) = groups
groups_of (raised e) = []

abbrev matched : Groups
matched = groups_of (match_rows names bridge_index [] 1 [] rows)

abbrev cash : List Text
cash = txt "Cash" ∷ []

is_matched : match_rows names bridge_index [] 1 [] rows ≡ ok matched
unfolding program
is_matched = refl

match_rows-total_example :
    total_for names bridge_index [] cash (group_at [] cash 1).amount rows
    ≡ ok (group_at matched cash 1).amount
match_rows-total_example = match_rows-total names bridge_index [] 1 rows [] matched is_matched cash

match_rows-others_example : (group_at matched cash 2).amount ≡ (group_at [] cash 2).amount
match_rows-others_example =
    match_rows-others names bridge_index [] 1 rows [] matched is_matched cash 2 refl

abbrev empty_run : ReportRun
empty_run = record {
  rows = [];
  baseline_app = 1;
  comparison_app = 2;
  variance_threshold = finite false 0 (pos 0);
  total_rows = 0;
  variance_count = 0;
}

abbrev run_of : Result ReportRun → ReportRun
run_of (ok run) = run
run_of (raised e) = empty_run

abbrev sample_run : ReportRun
sample_run = run_of (rows_and_summary names (finite false 0 (pos 0)) 1 2 matched)
