-- ===== src/Examples/Guarded.antt =====
-- Workflows and access: the theorems at a sample workflow and a sample user.
use dart_backend.Prelude.{
  list_beq, ℕ, ◌≡◌, ◌+◌, refl, true, false, Option, some, none, List, [], ◌∷◌, suc, or_else,
  if◌then◌else◌, list_eq, nat_eq, pair_eq, nat_beq,
}
use dart_backend.Prelude.Dict.{get, put}
use dart_backend.Prelude.Text.{
  is_space, lower_char, upper_char, lower, upper, lstrip, rstrip, strip, join, without, starts_with,
  drop_prefix, remove_prefix, span_digits, number_from, digits_before, number_text, txt,
}
use dart_backend.Prelude.Results.{map_result, ok, raised, app_error}
use dart_backend.Prelude.Sorting.{text_leb, insert_sorted, sort_by}
use dart_backend.Prelude.Int.{◌+ℤ◌, ◌-ℤ◌, min_ℤ}
use dart_backend.Workflow.Queue.{
  flush_run, queue_workflow_run, active_count, Queued, queue_workflow_run_lem, new_run,
}
use dart_backend.Workflow.Definition.{
  pipeline_for_apps, check_steps, validated_definition, Validated, validated_definition_lem,
  default_definition,
}
use dart_backend.Workflow.Runner.{
  step_kickouts, step_import_bridge, step_upload_dimensions, advance_with, run_steps, finish,
  run_workflow, Session, Services,
}
use dart_backend.Access.{
  component_by_key, chain_from, ancestors_of, components_for_api_path, own_enabled_state,
  is_component_visible, visible_component_keys, assert_owners_visible, assert_api_path_enabled,
  require_component_enabled, User, UiComponentSetting,
}
use dart_backend.Access.Catalog.{
  first_components, second_components, third_components, components, UiComponent, ComponentKind,
}
use dart_backend.Workflow.{TriggerKind}
use dart_backend.Access.Visible.{parents, ancestors_of_lem, is_component_visible-parent}
use dart_backend.Access.Guard.{Guarded, assert_api_path_enabled_lem}

program : Unit {0}
unfolding list_beq get put is_space lower_char upper_char lower upper lstrip rstrip strip join
    without starts_with drop_prefix remove_prefix span_digits number_from digits_before number_text
    map_result text_leb insert_sorted sort_by ◌+ℤ◌ ◌-ℤ◌ min_ℤ flush_run queue_workflow_run
    active_count pipeline_for_apps check_steps validated_definition step_kickouts step_import_bridge
    step_upload_dimensions advance_with run_steps finish run_workflow component_by_key chain_from
    ancestors_of components_for_api_path own_enabled_state is_component_visible
    visible_component_keys assert_owners_visible assert_api_path_enabled require_component_enabled
    first_components second_components third_components components
program = tt

queue_workflow_run_lem_example :
    Queued 4 []
      (new_run 1 5 9 TriggerKind.manual ∷ [])
      (queue_workflow_run [] (new_run 1 5 9 TriggerKind.manual ∷ []) 2 4 9 TriggerKind.schedule)
queue_workflow_run_lem_example =
    queue_workflow_run_lem [] (new_run 1 5 9 TriggerKind.manual ∷ []) 2 4 9 TriggerKind.schedule

validated_definition_lem_example :
    Validated (or_else none default_definition) (validated_definition none)
validated_definition_lem_example = validated_definition_lem none

-- The store counts the steps that were executed, and the steps fail from the third one.
abbrev counting : Services ℕ
counting = record {
  now = λ n. n;
  execute_step = λ n workflow spec user.
      if nat_beq n 2
      then (n, raised (app_error (txt "stopped") (txt "stopped")))
      else (suc n, ok []);
  next_scheduled_at = λ cron timezone after. ok (some (after + 60));
  touch_recon = λ n recon. n;
}

abbrev queued_session : Session ℕ
queued_session = record {
  store = 0;
  workflow = record {
    id = 4;
    recon_id = 7;
    steps = default_definition;
    schedule_cron = some (txt "0 * * * *");
    timezone = txt "UTC";
    is_paused = false;
    next_run_at = none;
  };
  run = new_run 1 4 9 TriggerKind.schedule;
}

abbrev viewer : User
viewer = record { is_platform_admin = false; user_types = "Recon User" ∷ [] }

ancestors_of_lem_example :
    ancestors_of "sidebar.general.manage-users"
    ≡ parents (component_by_key "sidebar.general.manage-users")
ancestors_of_lem_example = ancestors_of_lem "sidebar.general.manage-users"

abbrev component_or : UiComponent → Option UiComponent → UiComponent
component_or d none = d
component_or d (some c) = c

abbrev no_component : UiComponent
no_component = record {
  key = "";
  label = "";
  kind = ComponentKind.page_tab;
  parent = none;
  api_prefixes = [];
  api_exempt_prefixes = [];
  locked = false;
  platform_only = false;
}

abbrev manage_users : UiComponent
manage_users = component_or no_component (component_by_key "sidebar.general.manage-users")

is_component_visible-parent_example : is_component_visible [] "sidebar.general" viewer ≡ true
unfolding program
is_component_visible-parent_example =
    is_component_visible-parent [] viewer "sidebar.general.manage-users" "sidebar.general"
      manage_users refl refl refl refl

-- Manage Users is switched off for everyone.
abbrev users_off : List UiComponentSetting
users_off =
    record {
      component_key = "sidebar.general.manage-users";
      audience = "everyone";
      is_enabled = false;
    }
    ∷ []

assert_api_path_enabled_lem_example :
    Guarded users_off viewer
      (components_for_api_path (txt "/users/7"))
      (assert_api_path_enabled users_off viewer (txt "/users/7"))
assert_api_path_enabled_lem_example = assert_api_path_enabled_lem users_off viewer (txt "/users/7")
