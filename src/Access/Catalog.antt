-- ===== src/Access/Catalog.antt =====
-- The catalog of app/core/ui_components.py. The descriptions, which only the console prints, are
-- left out.
use dart_backend.Prelude.{Bool, true, false, Option, none, some, List, [], ◌∷◌, ◌++◌}
use dart_backend.Prelude.Text.{Text, txt}
use Prim.Native.String.{String}

pub data ComponentKind : Type 0 where
  sidebar_group sidebar_item page_tab pipeline_stage settings_section : ComponentKind

pub record UiComponent : Type 0 where
  pub key : String
  pub label : String
  pub kind : ComponentKind
  pub parent : Option String
  pub api_prefixes : List Text
  pub api_exempt_prefixes : List Text
  pub locked : Bool
  pub platform_only : Bool

abbrev component :
    String
    → String
    → ComponentKind
    → Option String
    → List Text
    → List Text
    → Bool
    → Bool
    → UiComponent
component key label kind parent api_prefixes api_exempt_prefixes locked platform_only = record {
  key = key;
  label = label;
  kind = kind;
  parent = parent;
  api_prefixes = api_prefixes;
  api_exempt_prefixes = api_exempt_prefixes;
  locked = locked;
  platform_only = platform_only;
}

unfoldable pub first_components : List UiComponent
first_components =
    component "sidebar.general" "General" sidebar_group none [] [] false false
    ∷ component "sidebar.general.recon-pipeline" "Recon Pipeline" sidebar_item
        (some "sidebar.general") (txt "/recons" ∷ []) [] false false
    ∷ component "sidebar.general.manage-users" "Manage Users" sidebar_item (some "sidebar.general")
        (txt "/users" ∷ [])
        (txt "/users/me"
          ∷ txt "/users/directory"
          ∷ txt "/users/accept-invite"
          ∷ txt "/users/reset-password"
          ∷ [])
        false false
    ∷ component "sidebar.general.maintenance" "Maintenance" sidebar_item (some "sidebar.general")
        (txt "/system-logs" ∷ []) [] false false
    ∷ component "sidebar.general.recon-security" "Manage Recon Security" sidebar_item
        (some "sidebar.general") (txt "/lobs" ∷ txt "/teams" ∷ txt "/groups" ∷ txt "/roles" ∷ []) []
        false false
    ∷ component "sidebar.general.audit-logs" "Audit Logs" sidebar_item (some "sidebar.general")
        (txt "/audit-logs" ∷ []) [] false false
    ∷ component "sidebar.workflow-automation" "Workflow Automation" sidebar_group none [] [] false
        false
    ∷ component "sidebar.workflow-automation.ai-auto-draft" "AI Auto Draft" sidebar_item
        (some "sidebar.workflow-automation") [] [] false false
    ∷ component "sidebar.workflow-automation.ai-auto-draft.run-overview" "Run Overview" sidebar_item
        (some "sidebar.workflow-automation.ai-auto-draft") [] [] false false
    ∷ component "sidebar.workflow-automation.ai-auto-draft.job-management" "Job Management"
        sidebar_item (some "sidebar.workflow-automation.ai-auto-draft") [] [] false false
    ∷ component "sidebar.workflow-automation.ai-auto-draft.monitoring" "Monitoring" sidebar_item
        (some "sidebar.workflow-automation.ai-auto-draft") [] [] false false
    ∷ component "sidebar.workflow-automation.scheduler" "Workflow Scheduler" sidebar_item
        (some "sidebar.workflow-automation") (txt "/workflows" ∷ txt "/workflow-runs" ∷ []) [] false
        false
    ∷ component "sidebar.workflow-automation.scheduler.builder" "Builder" sidebar_item
        (some "sidebar.workflow-automation.scheduler") [] [] false false
    ∷ component "sidebar.workflow-automation.scheduler.workflows" "Workflows" sidebar_item
        (some "sidebar.workflow-automation.scheduler") [] [] false false
    ∷ component "sidebar.workflow-automation.scheduler.monitoring" "Monitoring" sidebar_item
        (some "sidebar.workflow-automation.scheduler") [] [] false false
    ∷ component "sidebar.workflow-automation.scheduler.settings" "Settings" sidebar_item
        (some "sidebar.workflow-automation.scheduler") [] [] false false
    ∷ component "sidebar.other" "Other" sidebar_group none [] [] false false
    ∷ component "sidebar.other.ask-dart" "Ask DART" sidebar_item (some "sidebar.other") [] [] false
        false
    ∷ component "sidebar.platform" "Platform" sidebar_group none [] [] true true
    ∷ []

unfoldable pub second_components : List UiComponent
second_components =
    component "sidebar.platform.ui-components" "UI Components" sidebar_item
      (some "sidebar.platform") [] [] true true
    ∷ component "manage-users.tabs.registered" "Manage Users → Registered Users" page_tab
        (some "sidebar.general.manage-users") [] [] false false
    ∷ component "manage-users.tabs.invited" "Manage Users → Invited Users" page_tab
        (some "sidebar.general.manage-users") [] [] false false
    ∷ component "manage-users.tabs.activity" "Manage Users → User Activity" page_tab
        (some "sidebar.general.manage-users") [] [] false false
    ∷ component "audit-logs.tabs.history" "Audit Logs → Audit Logs" page_tab
        (some "sidebar.general.audit-logs") [] [] false false
    ∷ component "audit-logs.tabs.admin" "Audit Logs → Admin Audit Logs" page_tab
        (some "sidebar.general.audit-logs") [] [] false false
    ∷ component "audit-logs.tabs.recon" "Audit Logs → Recon Audit Logs" page_tab
        (some "sidebar.general.audit-logs") [] [] false false
    ∷ component "recon-security.tabs.departments" "Recon Security → Departments" page_tab
        (some "sidebar.general.recon-security") [] [] false false
    ∷ component "recon-security.tabs.teams" "Recon Security → Teams" page_tab
        (some "sidebar.general.recon-security") [] [] false false
    ∷ component "recon-security.tabs.groups" "Recon Security → Groups" page_tab
        (some "sidebar.general.recon-security") [] [] false false
    ∷ component "recon-security.tabs.sso" "Recon Security → SSO Dashboard" page_tab
        (some "sidebar.general.recon-security") [] [] false false
    ∷ component "recon-security.groups.tabs.list" "Recon Security → Groups → Group List" page_tab
        (some "recon-security.tabs.groups") [] [] false false
    ∷ component "recon-security.groups.tabs.roles" "Recon Security → Groups → Roles & Privileges"
        page_tab (some "recon-security.tabs.groups") [] [] false false
    ∷ component "recon-pipeline.stages.select" "Recon Pipeline → Select" pipeline_stage
        (some "sidebar.general.recon-pipeline") [] [] true false
    ∷ component "recon-pipeline.stages.dimension-linking" "Recon Pipeline → Dimension Linking"
        pipeline_stage (some "sidebar.general.recon-pipeline") [] [] false false
    ∷ component "recon-pipeline.stages.run-import" "Recon Pipeline → Run Import" pipeline_stage
        (some "sidebar.general.recon-pipeline") [] [] false false
    ∷ component "recon-pipeline.stages.bridge-members" "Recon Pipeline → Bridge Members"
        pipeline_stage (some "sidebar.general.recon-pipeline") [] [] false false
    ∷ component "recon-pipeline.stages.transformation" "Recon Pipeline → Transformation"
        pipeline_stage (some "sidebar.general.recon-pipeline") [] [] false false
    ∷ component "recon-pipeline.stages.run-report" "Recon Pipeline → Run Report" pipeline_stage
        (some "sidebar.general.recon-pipeline") [] [] false false
    ∷ component "settings.profile" "Settings → Profile" settings_section none [] [] false false
    ∷ component "settings.account" "Settings → Account" settings_section none [] [] false false
    ∷ component "settings.appearance" "Settings → Appearance" settings_section none [] [] false
        false
    ∷ []

unfoldable pub third_components : List UiComponent
third_components =
    component "settings.notifications" "Settings → Notifications" settings_section none [] [] false
      false
    ∷ component "settings.display" "Settings → Display" settings_section none [] [] false false
    ∷ []

-- `_COMPONENTS`
unfoldable pub components : List UiComponent
unfolding first_components second_components third_components
components = first_components ++ second_components ++ third_components
