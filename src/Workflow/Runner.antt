-- ===== src/Workflow/Runner.antt =====
-- The execution of a queued run: `run_workflow` of app/services/workflow_runner.py, over any store,
-- any execution of one step and any clock reading. The progress messages are left out: a failure to
-- send one is caught where it is sent.
pub mod Trace
use dart_backend.Prelude.{
  ℕ, ◌+◌, Bool, true, false, Option, none, some, List, [], ◌∷◌, ◌++◌, not, ◌&&◌, ◌||◌,
  if◌then◌else◌, ltb, nat_beq, or_else, is_some, map, all,
}
use dart_backend.Prelude.Dict.{Dict}
use dart_backend.Prelude.Text.{Text, txt, is_empty, starts_with, remove_prefix, number_text}
use dart_backend.Prelude.Results.{
  Exception, app_exception, Result, ok, raised, ◌>>=◌, ◌>>◌, raise_if, app_error,
}
use dart_backend.Workflow.{
  RunStatus, StepStatus, WorkflowStepDef, WorkflowRunStep, WorkflowRun, Workflow,
}

-- `_step_kickouts`, from the kickout count of the latest completed bridge run.
unfoldable pub step_kickouts : Option (Option ℕ) → WorkflowStepDef → Result (Dict Text Text)
step_kickouts none step =
    raised (app_error (txt "Bridge has not been run for this recon.") (txt "bridge_missing"))
step_kickouts (some kickout_count) step = do
  let count = or_else kickout_count 0
  raise_if (not step.ignore_kickout && ltb step.kickout_tolerance count) (
      app_error (txt "Workflow stopped: " ++ number_text count ++ txt " kickout(s) remain.")
        (txt "kickouts_open"))
  ok (
      (txt "kickout_count", number_text count)
      ∷ (txt "ignored", if step.ignore_kickout then txt "true" else txt "false")
      ∷ [])

-- `_step_import_bridge`, from the number of the recon's bridge members.
unfoldable pub step_import_bridge : ℕ → Result (Dict Text Text)
step_import_bridge count = do
  raise_if (nat_beq count 0) (
      app_error (txt "No bridge members have been imported for this recon.")
        (txt "bridge_import_missing"))
  ok ((txt "member_count", number_text count) ∷ [])

-- `_step_upload_dimensions`, from the number of the recon's dimensions.
unfoldable pub step_upload_dimensions : ℕ → Result (Dict Text Text)
step_upload_dimensions count = do
  raise_if (nat_beq count 0)
      (app_error (txt "No dimensions on this recon.") (txt "dimensions_missing"))
  ok ((txt "dimension_count", number_text count) ∷ [])

-- `except AppError as exc`: the message of one.
abbrev pub app_error_message : Exception → Option Text
app_error_message (app_exception kind message code) = some message
app_error_message e = none

-- `is_once_schedule` of app/services/workflow_schedule.py
abbrev pub is_once_schedule : Option Text → Bool
is_once_schedule none = false
is_once_schedule (some expr) = starts_with expr (txt "@once ")

abbrev pub is_queued : RunStatus → Bool
is_queued RunStatus.queued = true
is_queued status = false

-- How the loop over the steps ends.
pub data Ending : Type 0 where
  all_done : Ending
  app_failed : (message : Text) → Ending
  unexpected : Ending

abbrev pub unexpected_message : Text
unexpected_message = txt "An unexpected error occurred while running this workflow."

module _ (S : Type 0) where
  pub record Session : Type 0 where
    pub store : S
    pub workflow : Workflow
    pub run : WorkflowRun

  -- What a run uses of the rest of the program: the clock, the execution of a step of the workflow,
  -- the next moment of a schedule, and the new `updated_at` of the recon.
  pub record Services : Type 0 where
    pub now : S → ℕ
    pub execute_step : S → Workflow → WorkflowStepDef → ℕ → S × Result (Dict Text Text)
    pub next_scheduled_at : Text → Text → ℕ → Result (Option ℕ)
    pub touch_recon : S → ℕ → S

module _ {S : Type 0} (services : Services S) where
  unfoldable pub advance_with : Option Text → Session S → Result (Session S)
  advance_with none s = ok (record s { workflow = record s.workflow { next_run_at = none } })
  advance_with (some cron) s =
      if is_once_schedule (some cron) || is_empty cron || s.workflow.is_paused
      then ok (record s { workflow = record s.workflow { next_run_at = none } })
      else (do
        next ← services.next_scheduled_at cron s.workflow.timezone (services.now s.store)
        ok (record s { workflow = record s.workflow { next_run_at = next } }))

  -- `_advance_schedule`
  abbrev pub advance_schedule : Session S → Result (Session S)
  advance_schedule s = advance_with s.workflow.schedule_cron s

  -- The row of a step, as it is added.
  abbrev pub started_row : Session S → WorkflowStepDef → WorkflowRunStep
  started_row s spec = record {
    step_key = spec.key;
    row_type = spec.step_type;
    status = StepStatus.step_running;
    detail = none;
    error_message = none;
    started_at = some (services.now s.store);
    completed_at = none;
  }

  -- The session when the step's row stands behind the rows `done`.
  abbrev pub at_step : Session S → S → List WorkflowRunStep → WorkflowRunStep → Session S
  at_step s store done row = record s {
    store = store;
    run = record s.run { steps = done ++ row ∷ []; current_step = some row.step_key };
  }

  abbrev pub failed_row : S → WorkflowRunStep → Text → WorkflowRunStep
  failed_row store row message = record row {
    status = StepStatus.step_failed;
    error_message = some message;
    completed_at = some (services.now store);
  }

  abbrev pub succeeded_row : S → WorkflowRunStep → Dict Text Text → WorkflowRunStep
  succeeded_row store row detail = record row {
    status = StepStatus.step_succeeded;
    detail = some detail;
    completed_at = some (services.now store);
  }

  -- The loop over the steps: the row of a step that raises stays as it is, unless what is raised is
  -- an `AppError`.
  unfoldable pub run_steps : List WorkflowStepDef → Session S → Session S × Ending
  run_steps [] s = (s, all_done)
  run_steps (spec ∷ specs) s =
      let row = started_row s spec in
      let (store, outcome) = services.execute_step s.store s.workflow spec s.run.triggered_by_id in
      elim outcome [
        | ok detail ↦ run_steps specs (at_step s store s.run.steps (succeeded_row store row detail))
        | raised e ↦ elim (app_error_message e) [
          | some message ↦
              (at_step s store s.run.steps (failed_row store row message), app_failed message)
          | none ↦ (at_step s store s.run.steps row, unexpected)
        ]
      ]

  abbrev pub touch : Session S → Session S
  touch s = record s { store = services.touch_recon s.store s.workflow.recon_id }

  -- `except Exception`
  abbrev pub fail_unexpectedly : Session S → Session S
  fail_unexpectedly s = touch (record s {
    run = record s.run {
      status = RunStatus.failed;
      error_message = some unexpected_message;
      completed_at = some (services.now s.store);
    };
  })

  -- `_advance_schedule` and `_touch_recon`, inside the outer `try`.
  abbrev pub advance_or_fail : Session S → Result (Session S) → Session S
  advance_or_fail s (ok advanced) = touch advanced
  advance_or_fail s (raised e) = fail_unexpectedly s

  abbrev pub succeeded_session : Session S → Session S
  succeeded_session s = record s {
    run = record s.run {
      status = RunStatus.succeeded;
      current_step = none;
      completed_at = some (services.now s.store);
    };
  }

  abbrev pub failed_session : Session S → Text → Session S
  failed_session s message = record s {
    run = record s.run {
      status = RunStatus.failed;
      error_message = some message;
      completed_at = some (services.now s.store);
    };
  }

  unfoldable pub finish : Session S → Ending → Session S
  finish s all_done =
      let ended = succeeded_session s in advance_or_fail ended (advance_schedule ended)
  finish s (app_failed message) =
      let ended = failed_session s message in advance_or_fail ended (advance_schedule ended)
  finish s unexpected = fail_unexpectedly s

  abbrev pub started_session : Session S → Session S
  started_session s = record s {
    run = record s.run { status = RunStatus.running; started_at = some (services.now s.store) };
  }

  unfoldable pub run_workflow : Session S → Session S
  run_workflow s =
      if is_queued s.run.status
      then (let (after, ending) = run_steps s.workflow.steps (started_session s) in
          finish after ending)
      else s
