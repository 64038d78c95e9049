-- ===== src/Workflow.antt =====
-- Workflows: the statuses and rows of app/models/workflow.py, the step of a definition
-- (app/schemas/workflow.py) and app/services/workflow_definition.py. Moments are numbers.
pub mod Queue
pub mod Runner
pub mod Definition
use dart_backend.Prelude.{ℕ, Bool, true, false, Option, none, some, List, [], ◌∷◌}
use dart_backend.Prelude.Text.{Text}
use dart_backend.Prelude.Dict.{Dict}

pub data RunStatus : Type 0 where
  queued running succeeded failed cancelled : RunStatus

pub data StepStatus : Type 0 where
  step_pending step_running step_succeeded step_failed step_skipped : StepStatus

pub data TriggerKind : Type 0 where
  manual schedule : TriggerKind

-- `WorkflowStepDef`: a stored definition is the dump of a list of these.
pub record WorkflowStepDef : Type 0 where
  pub key : Text
  pub step_type : Text
  pub ignore_kickout : Bool
  pub kickout_tolerance : ℕ
  pub app_number : Option ℕ
  pub app_name : Text

pub record WorkflowRunStep : Type 0 where
  pub step_key : Text
  pub row_type : Text
  pub status : StepStatus
  pub detail : Option (Dict Text Text)
  pub error_message : Option Text
  pub started_at : Option ℕ
  pub completed_at : Option ℕ

pub record WorkflowRun : Type 0 where
  pub id : ℕ
  pub workflow_id : ℕ
  pub status : RunStatus
  pub trigger_kind : TriggerKind
  pub triggered_by_id : ℕ
  pub current_step : Option Text
  pub error_message : Option Text
  pub started_at : Option ℕ
  pub completed_at : Option ℕ
  pub steps : List WorkflowRunStep

pub record Workflow : Type 0 where
  pub id : ℕ
  pub recon_id : ℕ
  pub steps : List WorkflowStepDef
  pub schedule_cron : Option Text
  pub timezone : Text
  pub is_paused : Bool
  pub next_run_at : Option ℕ

-- The predicate of the index `uq_workflow_runs_active`.
abbrev pub is_active : RunStatus → Bool
is_active queued = true
is_active running = true
is_active succeeded = false
is_active failed = false
is_active cancelled = false
