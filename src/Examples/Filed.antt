-- ===== src/Examples/Filed.antt =====
-- The import of a file, at a ledger with a header and a default.
use dart_backend.Prelude.{
  list_beq, ◌≡◌, refl, true, false, some, none, List, [], ◌∷◌, arith, inl, inr, length, map,
  list_eq, nat_eq, pair_eq,
}
use dart_backend.Prelude.Dict.{get, put, Dict}
use dart_backend.Prelude.Text.{
  is_space, lower_char, upper_char, lower, upper, lstrip, rstrip, strip, join, without, starts_with,
  drop_prefix, remove_prefix, span_digits, number_from, digits_before, number_text, Text, txt,
}
use dart_backend.Prelude.Results.{map_result, Result, ok, raised}
use dart_backend.Prelude.Sorting.{text_leb, insert_sorted, sort_by}
use dart_backend.Prelude.Int.{◌+ℤ◌, ◌-ℤ◌, min_ℤ, int_of}
use dart_backend.Prelude.Csv.{
  read_from, read_csv, doubled, write_field, write_more, write_row, write_rows,
}
use dart_backend.Import.{
  lines_from, has_part, column_of, resolve_columns, max_column, read_rows, read_cells,
  fill_defaults, parse_rows, check_columns, validate_and_parse, DimensionForValidation, data_rows,
}
use dart_backend.Import.Run.{
  dimensions_of, new_rows, replace_rows, failure_message, parsed_rows, run_import, ImportRun,
  ImportStatus, Source,
}
use dart_backend.Prelude.Distinct.{Distinct}
use dart_backend.Import.Complete.{validate_and_parse-Each}
use dart_backend.Import.Cells.{Each, Holds}
use dart_backend.Import.Replace.{Left, run_import_lem}
use dart_backend.Examples.{rows}

program : Unit {0}
unfolding list_beq get put is_space lower_char upper_char lower upper lstrip rstrip strip join
    without starts_with drop_prefix remove_prefix span_digits number_from digits_before number_text
    map_result text_leb insert_sorted sort_by ◌+ℤ◌ ◌-ℤ◌ min_ℤ int_of read_from read_csv doubled
    write_field write_more write_row write_rows lines_from has_part column_of resolve_columns
    max_column read_rows read_cells fill_defaults parse_rows check_columns validate_and_parse
    dimensions_of new_rows replace_rows failure_message parsed_rows run_import
program = tt

abbrev account : DimensionForValidation
account = record {
  name = txt "Account";
  in_file = true;
  column_location = some (txt "1");
  default_value = none;
}

abbrev amount : DimensionForValidation
amount = record {
  name = txt "AMOUNT";
  in_file = true;
  column_location = some (txt " 2 ");
  default_value = some (txt "0");
}

abbrev entity : DimensionForValidation
entity = record {
  name = txt "Entity";
  in_file = false;
  column_location = none;
  default_value = some (txt "Group");
}

abbrev ledger : List DimensionForValidation
ledger = account ∷ amount ∷ entity ∷ []

Distinct-names : Distinct (map {A = DimensionForValidation} (λ d. d.name) ledger)
Distinct-names = (
  (λ i. elim i [
    | inl same ↦ absurd (ground arith)
    | inr more ↦ elim more [ inl same ↦ absurd (ground arith) | inr nowhere ↦ nowhere ]
  ]),
  ((λ i. elim i [ inl same ↦ absurd (ground arith) | inr nowhere ↦ nowhere ]), ((λ i. i), tt)),
)

-- The amount of the second row is blank.
abbrev file : Text
file = txt "acc;amt\r\n1000;\"5,5\"\r\n 2000 ;\r\n"

abbrev parsing : Result (List (Dict Text Text))
parsing = validate_and_parse file (txt ";") true ledger

abbrev parsed_of : Result (List (Dict Text Text)) → List (Dict Text Text)
parsed_of (ok parsed) = parsed
parsed_of (raised e) = []

accepted : parsing ≡ ok (parsed_of parsing)
unfolding program
accepted = refl

two_rows : length (parsed_of parsing) ≡ 2
unfolding program
two_rows = refl

validate_and_parse-Each_example :
    (records : List (List Text)) × (read_rows (txt ";") file ≡ ok records)
    × Each (Holds ledger) (data_rows true records) (parsed_of parsing)
validate_and_parse-Each_example =
    validate_and_parse-Each file (txt ";") true ledger (parsed_of parsing) Distinct-names accepted

abbrev run : ImportRun
run = record {
  id = 4;
  recon_id = 7;
  app_number = 1;
  file_path = txt "uploads/4";
  status = ImportStatus.pending;
  row_count = none;
  error_message = none;
  started_at = none;
  completed_at = none;
}

abbrev source : Result Source
source = ok (record {
  delimiter = txt ";";
  has_header = true;
  dimensions =
      record {
        name = txt "Account";
        mappings =
            record {
              app_number = 1;
              in_file = true;
              column_location = some (txt "1");
              default_value = none;
            }
            ∷ [];
      }
      ∷ record {
        name = txt "AMOUNT";
        mappings =
            record {
              app_number = 1;
              in_file = true;
              column_location = some (txt "2");
              default_value = some (txt "0");
            }
            ∷ [];
      }
      ∷ [];
  text = file;
})

run_import_lem_example :
    Left run rows
      (parsed_rows run source)
      ((run_import source 50 100 200 run rows).0).0
      ((run_import source 50 100 200 run rows).0).1
run_import_lem_example = run_import_lem source 50 100 200 run rows refl
