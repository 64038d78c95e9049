-- ===== src/Import.antt =====
-- The import of a file into an app of a recon: app/services/import_validation.py, over the text that
-- the decoding of the file gives.
pub mod Run
pub mod Cells
pub mod Complete
pub mod Replace
use dart_backend.Prelude.{
  ℕ, zero, suc, ◌-◌, Bool, true, false, ◌||◌, ◌&&◌, not, Option, none, some, List, [], ◌∷◌, ◌++◌,
  if◌then◌else◌, keep, length, get_elem?, leb, ltb, nat_beq, or_else, list_eq, nat_eq, list_beq,
}
use dart_backend.Prelude.Int.{ℤ, int_of}
use dart_backend.Prelude.Csv.{read_csv}
use dart_backend.Prelude.Dict.{Dict, put}
use dart_backend.Prelude.Text.{Text, txt, strip, starts_with, is_empty, number_text}
use dart_backend.Prelude.Results.{
  Result, ok, raised, raise_if, ◌>>=◌, Exception, import_validation_error, other_error,
}

pub record DimensionForValidation : Type 0 where
  pub name : Text
  pub in_file : Bool
  pub column_location : Option Text
  pub default_value : Option Text

-- The characters that end a line for `str.splitlines`.
abbrev pub is_line_break : ℕ → Bool
is_line_break c =
    (leb 10 c && leb c 13)
    || (leb 28 c && leb c 30)
    || nat_beq c 133
    || nat_beq c 8232
    || nat_beq c 8233

abbrev pub join_head : ℕ → List Text → List Text
join_head c [] = (c ∷ []) ∷ []
join_head c (line ∷ lines) = (c ∷ line) ∷ lines

-- `text.splitlines()`; a line feed behind a carriage return ends no further line.
unfoldable pub lines_from : (after_return : Bool) → Text → List Text
lines_from after_return [] = []
lines_from after_return (c ∷ s) =
    let rest = lines_from (nat_beq c 13) s in
    if after_return && nat_beq c 10
    then rest
    else if is_line_break c
    then [] ∷ rest
    else join_head c rest

-- `part in text`
unfoldable pub has_part : Text → Text → Bool
unfolding starts_with
has_part part [] = is_empty part
has_part part (c ∷ s) = starts_with (c ∷ s) part || has_part part s

abbrev pub invalid : {A : Type 0} → Text → Result A
invalid message = raised (import_validation_error message)

abbrev pub no_dimensions : Text
no_dimensions =
    txt
      "This recon has no dimensions configured for this app — complete Dimension Linking before importing."

abbrev pub too_short : Bool → Text
too_short true = txt "The file must contain a header row and at least one data row."
too_short false = txt "The file must contain at least one data row."

abbrev pub invalid_column : Text → Text
invalid_column name = txt "Dimension \"" ++ name ++ txt "\" has an invalid file column configured."

abbrev positive : Option ℤ → Option ℕ
positive (some (ℤ.pos (suc n))) = some (suc n)
positive (some (ℤ.pos zero)) = none
positive (some (ℤ.negsuc n)) = none
positive none = none

-- The number of a dimension's column, from 1.
unfoldable pub column_of : DimensionForValidation → Option ℕ
column_of dim = positive (int_of (or_else dim.column_location []))

abbrev pub Resolved : Type 0
Resolved = List (DimensionForValidation × ℕ)

unfoldable pub resolve_columns : List DimensionForValidation → Result Resolved
resolve_columns [] = ok []
resolve_columns (dim ∷ dims) = elim (column_of dim) [
  | none ↦ invalid (invalid_column dim.name)
  | some column ↦ do rest ← resolve_columns dims; ok ((dim, column) ∷ rest)
]

unfoldable pub max_column : Resolved → ℕ
max_column [] = 0
max_column ((dim, column) ∷ rest) =
    let other = max_column rest in if ltb other column then column else other

-- `list(csv.reader(io.StringIO(text), delimiter=delimiter))`; a delimiter that is not one character
-- raises.
unfoldable pub read_rows : Text → Text → Result (List (List Text))
read_rows [] text = raised other_error
read_rows (d ∷ []) text = read_csv d text
read_rows (d ∷ e ∷ s) text = raised other_error

abbrev pub wrong_columns : ℕ → ℕ → Text
wrong_columns expected found =
    txt "Expected "
    ++ number_text expected
    ++ txt " column(s) based on the configured dimensions, found "
    ++ number_text found
    ++ txt "."

abbrev pub blank_cell : ℕ → ℕ → Text → Text
blank_cell line_no column name =
    txt "Row "
    ++ number_text line_no
    ++ txt ", column "
    ++ number_text column
    ++ txt ": \""
    ++ name
    ++ txt "\" is blank and has no default value configured."

-- The cell of a column, without white space around it; a short row has none.
abbrev pub cell_at : List Text → ℕ → Text
cell_at row column = strip (or_else (get_elem? row (column - 1)) [])

-- The inner loop over the dimensions of the file.
unfoldable pub read_cells : ℕ → List Text → Resolved → Dict Text Text → Result (Dict Text Text)
unfolding put list_beq
read_cells line_no row [] parsed = ok parsed
read_cells line_no row ((dim, column) ∷ rest) parsed = do
  cell ←
      (if is_empty (cell_at row column)
        then if is_empty (or_else dim.default_value [])
          then invalid (blank_cell line_no column dim.name)
          else ok (or_else dim.default_value [])
        else ok (cell_at row column))
  read_cells line_no row rest (put dim.name cell parsed)

unfoldable pub fill_defaults : List DimensionForValidation → Dict Text Text → Dict Text Text
unfolding put list_beq
fill_defaults [] parsed = parsed
fill_defaults (dim ∷ dims) parsed =
    fill_defaults dims (put dim.name (or_else dim.default_value []) parsed)

abbrev pub file_dims : List DimensionForValidation → List DimensionForValidation
file_dims dimensions = keep (λ d. d.in_file) dimensions

abbrev pub default_dims : List DimensionForValidation → List DimensionForValidation
default_dims dimensions = keep (λ d. not d.in_file) dimensions

-- The loop over the data rows.
unfoldable pub parse_rows :
    Resolved → List DimensionForValidation → ℕ → List (List Text) → Result (List (Dict Text Text))
parse_rows resolved defaults line_no [] = ok []
parse_rows resolved defaults line_no (row ∷ rows) = do
  parsed ← read_cells line_no row resolved []
  rest ← parse_rows resolved defaults (suc line_no) rows
  ok (fill_defaults defaults parsed ∷ rest)

-- `check_row`, and the rows behind the header.
abbrev pub first_row : Bool → List (List Text) → Result (List Text)
first_row has_header (row ∷ rows) = ok row
first_row true [] = raised other_error
first_row false [] = ok []

abbrev pub data_rows : Bool → List (List Text) → List (List Text)
data_rows true (row ∷ rows) = rows
data_rows true [] = []
data_rows false rows = rows

-- The check of the number of columns, when a dimension has one.
unfoldable pub check_columns : ℕ → Bool → List (List Text) → Result (Unit {0})
check_columns expected has_header all_rows = if nat_beq expected 0 then ok tt else do
  row ← first_row has_header all_rows
  raise_if (not (nat_beq (length row) expected))
      (import_validation_error (wrong_columns expected (length row)))

abbrev pub first_line : List Text → Text
first_line [] = []
first_line (line ∷ lines) = line

abbrev pub delimiter_missing : Text → Text
delimiter_missing delimiter =
    txt "The configured delimiter \"" ++ delimiter ++ txt "\" was not found in the header row."

abbrev pub is_nil : List DimensionForValidation → Bool
is_nil [] = true
is_nil (d ∷ ds) = false

unfoldable pub validate_and_parse :
    Text
    → (delimiter : Text) → (has_header : Bool) → List DimensionForValidation
    → Result (List (Dict Text Text))
validate_and_parse text delimiter has_header dimensions = do
  linked ← raise_if (is_nil dimensions) (import_validation_error no_dimensions)
  let lines = lines_from false text
  long_enough ←
      raise_if (ltb (length lines) (if has_header then 2 else 1))
        (import_validation_error (too_short has_header))
  delimited ←
      raise_if (has_header && not (has_part delimiter (first_line lines)))
        (import_validation_error (delimiter_missing delimiter))
  resolved ← resolve_columns (file_dims dimensions)
  all_rows ← read_rows delimiter text
  counted ← check_columns (max_column resolved) has_header all_rows
  parse_rows resolved (default_dims dimensions) (if has_header then 2 else 1)
      (data_rows has_header all_rows)
