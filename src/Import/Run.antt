-- ===== src/Import/Run.antt =====
-- `_run_import` of app/tasks/import_tasks.py: one run of an import, over its run, the table of the
-- imported rows, and the file.
use dart_backend.Prelude.{
  ℕ, suc, Bool, true, false, ◌&&◌, not, Option, none, some, List, [], ◌∷◌, ◌++◌, if◌then◌else◌,
  keep, map, length, nat_beq,
}
use dart_backend.Prelude.Dict.{Dict}
use dart_backend.Prelude.Text.{Text, txt}
use dart_backend.Prelude.Results.{Result, ok, raised, ◌>>=◌, Exception, import_validation_error}
use dart_backend.Bridge.{ImportedRow}
use dart_backend.Import.{DimensionForValidation, validate_and_parse}

-- `ImportStatus` and `ImportRun` (app/models/import_run.py); the stamps are readings of the clock.
pub data ImportStatus : Type 0 where
  pending processing completed failed : ImportStatus

pub record ImportRun : Type 0 where
  pub id : ℕ
  pub recon_id : ℕ
  pub app_number : ℕ
  pub file_path : Text
  pub status : ImportStatus
  pub row_count : Option ℕ
  pub error_message : Option Text
  pub started_at : Option ℕ
  pub completed_at : Option ℕ

-- A dimension's mapping for an app (app/models/dimension.py).
pub record DimensionMapping : Type 0 where
  pub app_number : ℕ
  pub in_file : Bool
  pub column_location : Option Text
  pub default_value : Option Text

pub record Dimension : Type 0 where
  pub name : Text
  pub mappings : List DimensionMapping

-- What the queries and the file storage give: the settings of the app, the dimensions of the recon in
-- the order of their position, and the decoded file, each of which may raise.
pub record Source : Type 0 where
  pub delimiter : Text
  pub has_header : Bool
  pub dimensions : List Dimension
  pub text : Text

abbrev pub for_validation : Text → DimensionMapping → DimensionForValidation
for_validation name m = record {
  name = name;
  in_file = m.in_file;
  column_location = m.column_location;
  default_value = m.default_value;
}

-- The comprehension over the dimensions and their mappings for the app.
unfoldable pub dimensions_of : ℕ → List Dimension → List DimensionForValidation
dimensions_of app_number [] = []
dimensions_of app_number (d ∷ dims) =
    map {A = DimensionMapping} (for_validation d.name)
      (keep (λ m. nat_beq m.app_number app_number) d.mappings)
    ++ dimensions_of app_number dims

abbrev pub new_row : ImportRun → (id row_number : ℕ) → Dict Text Text → ImportedRow
new_row run id row_number parsed = record {
  id = id;
  recon_id = run.recon_id;
  app_number = run.app_number;
  row_number = row_number;
  cells = parsed;
  kickout = false;
  deleted_flag = false;
}

-- The rows that are inserted, numbered from 1 behind those before them.
unfoldable pub new_rows :
    ImportRun → (next_id before : ℕ) → List (Dict Text Text) → List ImportedRow
new_rows run next_id before [] = []
new_rows run next_id before (parsed ∷ rest) =
    new_row run next_id (suc before) parsed ∷ new_rows run (suc next_id) (suc before) rest

abbrev pub is_of_run : ImportRun → ImportedRow → Bool
is_of_run run row = nat_beq row.recon_id run.recon_id && nat_beq row.app_number run.app_number

-- `delete(ImportedRow).where(...)` and the insert
unfoldable pub replace_rows :
    ImportRun → (next_id : ℕ) → List (Dict Text Text) → List ImportedRow → List ImportedRow
replace_rows run next_id parsed table =
    keep (λ row. not (is_of_run run row)) table ++ new_rows run next_id 0 parsed

abbrev pub unexpected_message : Text
unexpected_message = txt "An unexpected error occurred while processing this file."

-- The two `except` clauses.
unfoldable pub failure_message : Exception → Text
failure_message (import_validation_error message) = message
failure_message (Exception.app_exception kind message code) = unexpected_message
failure_message Exception.invalid_operation = unexpected_message
failure_message Exception.value_error = unexpected_message
failure_message Exception.integrity_error = unexpected_message
failure_message Exception.other_error = unexpected_message

abbrev pub is_finished : ImportStatus → Bool
is_finished ImportStatus.completed = true
is_finished ImportStatus.failed = true
is_finished ImportStatus.pending = false
is_finished ImportStatus.processing = false

abbrev pub started_run : ℕ → ImportRun → ImportRun
started_run now run = record run { status = ImportStatus.processing; started_at = some now }

-- The end of the `try`, or its `except` clauses.
abbrev pub close_run :
    (next_id ended : ℕ)
    → ImportRun
    → List ImportedRow
    → Result (List (Dict Text Text))
    → ImportRun × List ImportedRow
close_run next_id ended run table (raised e) = (
  record run {
    status = ImportStatus.failed;
    error_message = some (failure_message e);
    completed_at = some ended;
  },
  table,
)
close_run next_id ended run table (ok parsed) = (
  record run {
    status = ImportStatus.completed;
    row_count = some (length parsed);
    completed_at = some ended;
  },
  replace_rows run next_id parsed table,
)

-- The statements of the `try` up to the parsed rows.
unfoldable pub parsed_rows : ImportRun → Result Source → Result (List (Dict Text Text))
parsed_rows run source = do
  s ← source
  validate_and_parse s.text s.delimiter s.has_header (dimensions_of run.app_number s.dimensions)

-- The run and the table that are left, and the file that the `finally` deletes. The insert is taken
-- to succeed once its rows are parsed.
unfoldable pub run_import :
    Result Source
    → (next_id started ended : ℕ) → ImportRun
    → List ImportedRow
    → (ImportRun × List ImportedRow) × Option Text
run_import source next_id started ended run table =
    if is_finished run.status then ((run, table), none) else (
      close_run next_id ended (started_run started run) table (parsed_rows run source),
      some run.file_path,
    )
