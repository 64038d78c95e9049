-- ===== src/Bridge/Run.antt =====
-- `_run_bridge` of app/tasks/bridge_tasks.py, over the tables that its queries read. The progress
-- messages and the audit log are left out: a failure to send a message is caught where it is sent.
pub mod Tallies
pub mod Flags
use dart_backend.Prelude.{
  ℕ, zero, suc, ◌%◌, Bool, true, false, ◌||◌, Option, none, some, List, [], ◌∷◌, ◌++◌,
  if◌then◌else◌, keep, map, length, nat_beq, nat_eq, or_else,
}
use dart_backend.Prelude.Dict.{Dict, get}
use dart_backend.Prelude.Text.{Text, txt}
use dart_backend.Prelude.Results.{Result, ok, raised}
use dart_backend.Bridge.{ImportedRow, Lookup}
use dart_backend.Bridge.Resolve.{resolve_imported_row}

-- `BridgeRunStatus` and `BridgeRun` (app/models/bridge.py)
pub data RunStatus : Type 0 where
  pending processing completed failed : RunStatus

pub record BridgeRun : Type 0 where
  pub id : ℕ
  pub recon_id : ℕ
  pub status : RunStatus
  pub total_rows : Option ℕ
  pub processed_rows : ℕ
  pub kickout_count : Option ℕ
  pub error_message : Option Text
  pub started_at : Option ℕ
  pub completed_at : Option ℕ

abbrev pub progress_interval : ℕ
progress_interval = 500

-- The local variables of the loop, with the field of the run that it writes.
pub record Tally : Type 0 where
  pub processed_rows : ℕ
  pub kickout_count : ℕ
  pub updates : Dict ℕ Bool

abbrev pub rows_of : ℕ → List ImportedRow → List ImportedRow
rows_of recon_id table = keep (λ row. nat_beq row.recon_id recon_id) table

-- `update(ImportedRow)` by primary key.
unfoldable pub update_kickouts : Dict ℕ Bool → List ImportedRow → List ImportedRow
update_kickouts updates table =
    map {A = ImportedRow} (λ row. record row { kickout = or_else (get row.id updates) row.kickout })
      table

module _ (dim_names : List Text) (lookup : Lookup) where
  -- The body of the loop, for the row at `processed`.
  abbrev pub count_row : (total processed : ℕ) → Tally → ImportedRow → Bool → Tally
  count_row total processed t row is_kickout = record {
    processed_rows =
        if nat_beq (processed % progress_interval) 0 || nat_beq processed total
        then processed
        else t.processed_rows;
    kickout_count = if is_kickout then suc t.kickout_count else t.kickout_count;
    updates = t.updates ++ (row.id, is_kickout) ∷ [];
  }

  -- The loop over the rows, from the number of those before them; false when a row raises.
  unfoldable pub tally_rows : (total before : ℕ) → List ImportedRow → Tally → Tally × Bool
  tally_rows total before [] t = (t, true)
  tally_rows total before (row ∷ rows) t =
      elim (resolve_imported_row row.app_number row.cells dim_names lookup) [
        | raised e ↦ (t, false)
        | ok resolved ↦
            tally_rows total (suc before) rows (count_row total (suc before) t row resolved.kickout)
      ]

abbrev pub failure_message : Text
failure_message = txt "An unexpected error occurred while computing this bridge run."

abbrev pub started_run : ℕ → ℕ → BridgeRun → BridgeRun
started_run now total run = record run {
  status = RunStatus.processing;
  started_at = some now;
  total_rows = some total;
}

-- What is left of the run and the table, by how the loop ended.
abbrev pub close_run :
    ℕ → BridgeRun → List ImportedRow → Tally × Bool → BridgeRun × List ImportedRow
close_run now run table (t, false) = (
  record run {
    status = RunStatus.failed;
    processed_rows = t.processed_rows;
    error_message = some failure_message;
    completed_at = some now;
  },
  table,
)
close_run now run table (t, true) = (
  record run {
    status = RunStatus.completed;
    processed_rows = t.processed_rows;
    kickout_count = some t.kickout_count;
    completed_at = some now;
  },
  update_kickouts t.updates table,
)

-- `started` and `ended` are the two readings of the clock.
unfoldable pub run_bridge :
    List Text
    → Lookup
    → (started ended : ℕ) → BridgeRun
    → List ImportedRow
    → BridgeRun × List ImportedRow
run_bridge dim_names lookup started ended run table =
    let rows = rows_of run.recon_id table in
    let total = length rows in
    close_run ended (started_run started total run) table (
      tally_rows dim_names lookup total 0 rows
        (record { processed_rows = run.processed_rows; kickout_count = 0; updates = [] }))
