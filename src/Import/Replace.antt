-- ===== src/Import/Replace.antt =====
-- The run and the rows that `_run_import` (app/tasks/import_tasks.py) leaves.
use mathlib.Core.List.{append-nil}
use dart_backend.Prelude.{
  ℕ, zero, suc, ◌≡◌, refl, ap, ◌∙◌, inl, inr, Bool, true, false, ◌&&◌, not, some, List, [], ◌∷◌,
  ◌++◌, keep, map, length, nat_beq, Bool-cases, arith,
}
use dart_backend.Prelude.Dict.{Dict}
use dart_backend.Prelude.Text.{Text}
use dart_backend.Prelude.Results.{Result, ok, raised}
use dart_backend.Bridge.{ImportedRow}
use dart_backend.Import.Run.{
  ImportRun, ImportStatus, Source, is_of_run, is_finished, new_row, new_rows, replace_rows,
  run_import, parsed_rows, failure_message, close_run, started_run,
}

module _ (p : ImportedRow → Bool) where
  keep-append : (xs ys : List ImportedRow) → keep p (xs ++ ys) ≡ keep p xs ++ keep p ys
  keep-append [] ys = refl
  keep-append (x ∷ xs) ys = elim (Bool-cases (p x)) [
    | inl holds ↦ rw holds (ap (λ zs. x ∷ zs) (keep-append xs ys))
    | inr fails ↦ rw fails (keep-append xs ys)
  ]

  keep-dropped : (xs : List ImportedRow) → keep p (keep (λ x. not (p x)) xs) ≡ []
  keep-dropped [] = refl
  keep-dropped (x ∷ xs) = elim (Bool-cases (p x)) [
    | inl holds ↦ rw holds (keep-dropped xs)
    | inr fails ↦ rw fails (rw fails (keep-dropped xs))
  ]

  keep_idem : (xs : List ImportedRow) → keep p (keep p xs) ≡ keep p xs
  keep_idem [] = refl
  keep_idem (x ∷ xs) = elim (Bool-cases (p x)) [
    | inl holds ↦ rw holds (rw holds (ap (λ zs. x ∷ zs) (keep_idem xs)))
    | inr fails ↦ rw fails (keep_idem xs)
  ]

-- `before + 1`, and so on, of a length.
abbrev pub numbers : (size before : ℕ) → List ℕ
numbers zero before = []
numbers (suc size) before = suc before ∷ numbers size (suc before)

module _ (run : ImportRun) where
  mine :
      (next_id before : ℕ) (parsed : List (Dict Text Text))
      → keep (is_of_run run) (new_rows run next_id before parsed)
        ≡ new_rows run next_id before parsed
  unfolding new_rows
  mine next_id before [] = refl
  mine next_id before (p ∷ parsed) =
      let here : nat_beq run.recon_id run.recon_id && nat_beq run.app_number run.app_number ≡ true =
        ground arith in
      rw here (
        ap (λ zs. new_row run next_id (suc before) p ∷ zs) (mine (suc next_id) (suc before) parsed))

  not_others :
      (next_id before : ℕ) (parsed : List (Dict Text Text))
      → keep (λ row. not (is_of_run run row)) (new_rows run next_id before parsed) ≡ []
  unfolding new_rows
  not_others next_id before [] = refl
  not_others next_id before (p ∷ parsed) =
      let here : nat_beq run.recon_id run.recon_id && nat_beq run.app_number run.app_number ≡ true =
        ground arith in
      rw here (not_others (suc next_id) (suc before) parsed)

  cells-new_rows :
      (next_id before : ℕ) (parsed : List (Dict Text Text))
      → map {A = ImportedRow} (λ row. row.cells) (new_rows run next_id before parsed) ≡ parsed
  unfolding new_rows
  cells-new_rows next_id before [] = refl
  cells-new_rows next_id before (p ∷ parsed) =
      ap (λ zs. p ∷ zs) (cells-new_rows (suc next_id) (suc before) parsed)

  numbers-new_rows :
      (next_id before : ℕ) (parsed : List (Dict Text Text))
      → map {A = ImportedRow} (λ row. row.row_number) (new_rows run next_id before parsed)
        ≡ numbers (length parsed) before
  unfolding new_rows
  numbers-new_rows next_id before [] = refl
  numbers-new_rows next_id before (p ∷ parsed) =
      ap (λ zs. suc before ∷ zs) (numbers-new_rows (suc next_id) (suc before) parsed)

  -- The rows of the run's app, and the others, once its rows are replaced.
  rows-replaced :
      (next_id : ℕ) (parsed : List (Dict Text Text)) (table : List ImportedRow)
      → keep (is_of_run run) (replace_rows run next_id parsed table) ≡ new_rows run next_id 0 parsed
  unfolding replace_rows
  rows-replaced next_id parsed table =
      keep-append (is_of_run run) (keep (λ row. not (is_of_run run row)) table)
        (new_rows run next_id 0 parsed)
      ∙ ap (λ xs. xs ++ keep (is_of_run run) (new_rows run next_id 0 parsed))
          (keep-dropped (is_of_run run) table)
      ∙ mine next_id 0 parsed

  others-replaced :
      (next_id : ℕ) (parsed : List (Dict Text Text)) (table : List ImportedRow)
      → keep (λ row. not (is_of_run run row)) (replace_rows run next_id parsed table)
        ≡ keep (λ row. not (is_of_run run row)) table
  unfolding replace_rows
  others-replaced next_id parsed table =
      let other : ImportedRow → Bool = λ row. not (is_of_run run row) in
      keep-append other (keep other table) (new_rows run next_id 0 parsed)
      ∙ ap (λ xs. keep other (keep other table) ++ xs) (not_others next_id 0 parsed)
      ∙ append-nil (keep other (keep other table))
      ∙ keep_idem other table

-- What is left of the run and the table when the file gave rows, or raised.
abbrev pub Left :
    ImportRun
    → List ImportedRow
    → Result (List (Dict Text Text))
    → ImportRun
    → List ImportedRow
    → Type 0
Left run table (raised e) after rows =
    (after.status ≡ ImportStatus.failed)
    × (after.error_message ≡ some (failure_message e))
    × (rows ≡ table)
Left run table (ok parsed) after rows =
    (after.status ≡ ImportStatus.completed)
    × (after.row_count ≡ some (length parsed))
    × (map {A = ImportedRow} (λ row. row.cells) (keep (is_of_run run) rows) ≡ parsed)
    × (map {A = ImportedRow} (λ row. row.row_number) (keep (is_of_run run) rows)
        ≡ numbers (length parsed) 0)
    × (keep (λ row. not (is_of_run run row)) rows ≡ keep (λ row. not (is_of_run run row)) table)

closed-Left :
    (next_id started ended : ℕ) (run : ImportRun) (table : List ImportedRow)
    (r : Result (List (Dict Text Text)))
    → let left = close_run next_id ended (started_run started run) table r in
      Left run table r left.0 left.1
closed-Left next_id started ended run table (raised e) = (refl, refl, refl)
closed-Left next_id started ended run table (ok parsed) =
    let after = started_run started run in
    (
      refl,
      refl,
      ap (map {A = ImportedRow} (λ row. row.cells)) (rows-replaced after next_id parsed table)
          ∙ cells-new_rows after next_id 0 parsed,
      ap (map {A = ImportedRow} (λ row. row.row_number)) (rows-replaced after next_id parsed table)
          ∙ numbers-new_rows after next_id 0 parsed,
      others-replaced after next_id parsed table,
    )

-- A run that is not finished fails, with a message and with the table as it was, when a query, the file
-- or its validation raises. Else it completes with the number of parsed rows: the rows of its recon and
-- app are then the parsed ones, numbered from 1 in the order of the file, and the other rows are as they were.
pub run_import_lem :
    (source : Result Source) (next_id started ended : ℕ) (run : ImportRun)
    (table : List ImportedRow)
    → is_finished run.status ≡ false
    → let left = (run_import source next_id started ended run table).0 in
      Left run table (parsed_rows run source) left.0 left.1
unfolding run_import
run_import_lem source next_id started ended run table open_run =
    rw open_run (closed-Left next_id started ended run table (parsed_rows run source))
