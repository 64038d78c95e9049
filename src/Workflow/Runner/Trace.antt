-- ===== src/Workflow/Runner/Trace.antt =====
-- The rows that the steps of `run_workflow` (app/services/workflow_runner.py) leave, and its end.
use dart_backend.Prelude.{◌≡◌, true, none, some, List, [], ◌∷◌, ◌++◌, ◌⊎◌, is_some}
use dart_backend.Prelude.Dict.{Dict}
use dart_backend.Prelude.Text.{Text}
use dart_backend.Workflow.{RunStatus, StepStatus, WorkflowStepDef, WorkflowRunStep, WorkflowRun}
use dart_backend.Workflow.Runner.{
  Session, Services, Ending, all_done, app_failed, unexpected, started_row, succeeded_row, at_step,
}

-- The row of the step where the loop stopped.
abbrev pub Stopped : Ending → WorkflowRunStep → Type 0
Stopped all_done row = ⊥
Stopped (app_failed message) row =
    (row.status ≡ StepStatus.step_failed) × (row.error_message ≡ some message)
Stopped unexpected row = row.status ≡ StepStatus.step_running

-- The rows of the steps in their order: every step has a row that says it succeeded, or the last
-- row is that of the step where the loop stopped.
abbrev pub Trace : Ending → List WorkflowStepDef → List WorkflowRunStep → Type 0
Trace ending [] rows = (rows ≡ []) × (ending ≡ all_done)
Trace ending (spec ∷ specs) [] = ⊥
Trace ending (spec ∷ specs) (row ∷ rows) =
    (row.step_key ≡ spec.key)
    × (row.row_type ≡ spec.step_type)
    × (((row.status ≡ StepStatus.step_succeeded) × Trace ending specs rows)
        ⊎ ((rows ≡ []) × Stopped ending row))

module _ {S : Type 0} (services : Services S) where
  -- What the loop leaves of the run: its id and workflow, and the rows behind those it had.
  Left : List WorkflowStepDef → Session S → Session S × Ending → Type 0
  Left specs s after =
      (after.0.run.id ≡ s.run.id)
      × (after.0.workflow ≡ s.workflow)
      × ((rows : List WorkflowRunStep) × (after.0.run.steps ≡ s.run.steps ++ rows)
          × Trace (after.1) specs rows)

  -- The session after a step that succeeded.
  abbrev next_session : Session S → WorkflowStepDef → Dict Text Text → Session S
  next_session s spec detail =
      let store = (services.execute_step s.store s.workflow spec s.run.triggered_by_id).0 in
      at_step services s store s.run.steps
        (succeeded_row services store (started_row services s spec) detail)

  -- The ways in which a run that was queued can end.
  abbrev pub Ended : Ending → WorkflowRun → Type 0
  Ended ending run =
      is_some run.completed_at ≡ true
      × (((run.status ≡ RunStatus.succeeded) × (run.current_step ≡ none) × (ending ≡ all_done))
          ⊎ ((run.status ≡ RunStatus.failed) × (is_some run.error_message ≡ true)))

  Closes : Ending → List WorkflowRunStep → WorkflowRun → Type 0
  Closes ending steps run = (run.steps ≡ steps) × Ended ending run

  -- The run of `after` is that of `s`, with rows for its steps and an end.
  abbrev pub Runs : Session S → Session S → Type 0
  Runs s after =
      (ending : Ending) × (rows : List WorkflowRunStep) × (after.run.steps ≡ s.run.steps ++ rows)
      × Trace ending s.workflow.steps rows
      × Ended ending after.run
