-- ===== src/Workflow/Queue.antt =====
-- Queueing a run: `queue_workflow_run` of app/services/workflow_queue.py. The table is the list of
-- the runs; `seen` is what the query read, and another session may have written the table since.
-- The audit log is left out.
use dart_backend.Prelude.{
  ℕ, ◌≡◌, ◌+◌, refl, Bool, true, false, none, List, [], ◌∷◌, ◌++◌, ◌&&◌, arith, ◌⊎◌, inl, inr,
  if◌then◌else◌, nat_beq, any, keep, length, Bool-cases,
}
use dart_backend.Prelude.Text.{txt}
use dart_backend.Prelude.Results.{conflict_error, integrity_error, Result, ok, raised}
use dart_backend.Workflow.{WorkflowRun, TriggerKind, RunStatus, is_active}

abbrev pub active_for : ℕ → WorkflowRun → Bool
active_for workflow_id run = nat_beq run.workflow_id workflow_id && is_active run.status

-- `WorkflowRun(...)`, with the defaults of its columns.
abbrev pub new_run : (id workflow_id user_id : ℕ) → TriggerKind → WorkflowRun
new_run id workflow_id user_id trigger_kind = record {
  id = id;
  workflow_id = workflow_id;
  status = RunStatus.queued;
  trigger_kind = trigger_kind;
  triggered_by_id = user_id;
  current_step = none;
  error_message = none;
  started_at = none;
  completed_at = none;
  steps = [];
}

-- `db.flush()` of a new run under the index `uq_workflow_runs_active`.
unfoldable pub flush_run : List WorkflowRun → WorkflowRun → Result (List WorkflowRun)
flush_run table run =
    if is_active run.status && any (active_for run.workflow_id) table
    then raised integrity_error
    else ok (table ++ run ∷ [])

-- `except IntegrityError`
abbrev pub as_conflict : Result (List WorkflowRun) → Result (List WorkflowRun)
as_conflict (ok table) = ok table
as_conflict (raised integrity_error) =
    raised (conflict_error (txt "This workflow already has a run in progress."))
as_conflict (raised e) = raised e

unfoldable pub queue_workflow_run :
    (seen table : List WorkflowRun) (id workflow_id user_id : ℕ)
    → TriggerKind
    → Result (List WorkflowRun)
queue_workflow_run seen table id workflow_id user_id trigger_kind =
    if any (active_for workflow_id) seen
    then raised (conflict_error (txt "This workflow already has a run in progress."))
    else as_conflict (flush_run table (new_run id workflow_id user_id trigger_kind))

-- The number of the active runs of a workflow.
unfoldable pub active_count : ℕ → List WorkflowRun → ℕ
active_count workflow_id table = length (keep (active_for workflow_id) table)

abbrev pub Queued : ℕ → List WorkflowRun → List WorkflowRun → Result (List WorkflowRun) → Type 0
Queued workflow_id seen table (ok after) =
    (active_count workflow_id table ≡ 0)
    × ((w : ℕ)
        → active_count w after ≡ active_count w table + (if nat_beq workflow_id w then 1 else 0))
Queued workflow_id seen table (raised e) =
    (e ≡ conflict_error (txt "This workflow already has a run in progress."))
    × ((any (active_for workflow_id) seen ≡ true) ⊎ (any (active_for workflow_id) table ≡ true))

active_count-snoc :
    (w : ℕ) (run : WorkflowRun) (table : List WorkflowRun)
    → active_count w (table ++ run ∷ [])
      ≡ active_count w table + (if active_for w run then 1 else 0)
unfolding active_count
active_count-snoc w run [] = ground arith
active_count-snoc w run (r ∷ table) = let ih = active_count-snoc w run table in ground arith

active_count-none :
    (w : ℕ) (table : List WorkflowRun) → any (active_for w) table ≡ false → active_count w table ≡ 0
unfolding active_count
active_count-none w [] h = refl
active_count-none w (r ∷ table) h = let ih = active_count-none w table in ground arith

-- Whatever another session wrote since the query, a run is queued only when its workflow had no
-- active run in the table: it then has one, and the other workflows have as many active runs as they
-- had. Else the error is the conflict, with an active run in what was
-- seen or in the table.
pub queue_workflow_run_lem :
    (seen table : List WorkflowRun) (id workflow_id user_id : ℕ) (trigger_kind : TriggerKind)
    → Queued workflow_id seen table
        (queue_workflow_run seen table id workflow_id user_id trigger_kind)
unfolding queue_workflow_run flush_run
queue_workflow_run_lem seen table id workflow_id user_id trigger_kind =
    elim (Bool-cases (any (active_for workflow_id) seen)) [
      | inl in_seen ↦ rw in_seen (refl, inl in_seen)
      | inr not_seen ↦ rw not_seen (elim (Bool-cases (any (active_for workflow_id) table)) [
        | inl in_table ↦ rw in_table (refl, inr in_table)
        | inr not_there ↦ rw not_there (
          active_count-none workflow_id table not_there,
          λ w.
              let snoc = active_count-snoc w (new_run id workflow_id user_id trigger_kind) table in
              ground arith,
        )
      ])
    ]
