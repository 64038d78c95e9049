-- ===== src/Examples/Aliased.antt =====
-- The aliases of a dimension whose column is the first of the latest file.
use dart_backend.Prelude.{
  list_beq, ◌≡◌, refl, true, some, none, List, [], ◌∷◌, list_eq, nat_eq, pair_eq,
}
use dart_backend.Prelude.Dict.{get, put}
use dart_backend.Prelude.Text.{
  is_space, lower_char, upper_char, lower, upper, lstrip, rstrip, strip, join, without, starts_with,
  drop_prefix, remove_prefix, span_digits, number_from, digits_before, number_text, txt,
}
use dart_backend.Prelude.Results.{map_result, Result, ok, raised}
use dart_backend.Prelude.Sorting.{text_leb, insert_sorted, sort_by}
use dart_backend.Prelude.Int.{◌+ℤ◌, ◌-ℤ◌, min_ℤ, int_of}
use dart_backend.Prelude.Csv.{
  read_from, read_csv, doubled, write_field, write_more, write_row, write_rows,
}
use dart_backend.Bridge.{
  is_amount_dimension, is_kickout_member, mapping_key, folded_value, data_value, truthy_flag,
  canonical_dimension_name, Aliases,
}
use dart_backend.Import.{
  lines_from, has_part, column_of, resolve_columns, max_column, read_rows, read_cells,
  fill_defaults, parse_rows, check_columns, validate_and_parse,
}
use dart_backend.Import.Run.{
  dimensions_of, new_rows, replace_rows, failure_message, parsed_rows, run_import, Dimension,
  ImportRun, ImportStatus,
}
use dart_backend.Bridge.Aliases.{
  name_mappings, name_dimensions, headers_of, load_headers, alias_mappings, alias_dimensions,
  load_dimension_aliases, AppHeader, Storage,
}
use dart_backend.Bridge.Aliases.Names.{Names, load_dimension_aliases-Names}

program : Unit {0}
unfolding list_beq get put is_space lower_char upper_char lower upper lstrip rstrip strip join
    without starts_with drop_prefix remove_prefix span_digits number_from digits_before number_text
    map_result text_leb insert_sorted sort_by ◌+ℤ◌ ◌-ℤ◌ min_ℤ int_of read_from read_csv doubled
    write_field write_more write_row write_rows is_amount_dimension is_kickout_member mapping_key
    folded_value data_value truthy_flag canonical_dimension_name lines_from has_part column_of
    resolve_columns max_column read_rows read_cells fill_defaults parse_rows check_columns
    validate_and_parse dimensions_of new_rows replace_rows failure_message parsed_rows run_import
    name_mappings name_dimensions headers_of load_headers alias_mappings alias_dimensions
    load_dimension_aliases
program = tt

abbrev practice : Dimension
practice = record {
  name = txt "PRACTICE";
  mappings =
      record {
        app_number = 1;
        in_file = true;
        column_location = some (txt "1");
        default_value = none;
      }
      ∷ [];
}

abbrev completed_run : ImportRun
completed_run = record {
  id = 4;
  recon_id = 7;
  app_number = 1;
  file_path = txt "uploads/4";
  status = ImportStatus.completed;
  row_count = some 1;
  error_message = none;
  started_at = some 100;
  completed_at = some 200;
}

abbrev storage : Storage
storage path = some (ok (txt "CostCentre;AMOUNT\r\nA;1\r\n"))

abbrev apps : List AppHeader
apps = record { app_number = 1; has_header = true; delimiter = txt ";" } ∷ []

abbrev aliases_of : Result Aliases → Aliases
aliases_of (ok aliases) = aliases
aliases_of (raised e) = []

abbrev loading : Result Aliases
loading = load_dimension_aliases storage (practice ∷ []) apps (completed_run ∷ [])

loaded : loading ≡ ok (aliases_of loading)
unfolding program
loaded = refl

-- The header of the file stands for the dimension.
cost_centre : get (1, txt "costcentre") (aliases_of loading) ≡ some (txt "PRACTICE")
unfolding program
cost_centre = refl

load_dimension_aliases-Names_example : Names (practice ∷ []) (txt "PRACTICE")
load_dimension_aliases-Names_example =
    load_dimension_aliases-Names storage (practice ∷ []) apps (completed_run ∷ [])
      (aliases_of loading) (1, txt "costcentre") (txt "PRACTICE") loaded cost_centre
