-- ===== src/Lib.antt =====
-- A model of the reconciliation back end (app/), with proofs of what its services compute.
--
-- A recon compares the imported rows of its apps. An import (app/services/import_validation.py,
-- app/tasks/import_tasks.py) replaces the rows of one app by those of a file. The bridge
-- (app/services/bridge_resolve.py) maps the members of each row's dimensions to common members and
-- reports those that it cannot map; the transformation (app/services/sync_resolve.py, sync_run.py)
-- applies sync mappings to the bridged row; the report (app/services/report_run.py) groups the rows
-- of two apps by their mapped key and lists the variances. A workflow
-- (app/services/workflow_definition.py, workflow_queue.py, workflow_runner.py) runs these as a list
-- of steps, at the times of a schedule (app/services/workflow_schedule.py). What a user sees of all
-- this is decided by app/core/component_access.py over the catalog of app/core/ui_components.py.
--
-- Prelude: texts as lists of code points, dictionaries in insertion order, exceptions as values, and
--   the reader and writer of the csv module (Csv) in its excel dialect.
-- Decimal: the part of Python's decimal module that the services use, at the default precision of
--   28 digits; parse_amount and format_decimal (app/services/bridge_resolve.py).
-- Bridge: mapping_key, data_value and the rows; Lookup has the index of the mappings and its
--   enrichment, Resolve resolve_imported_row, Kickouts discover_kickout_members, Aliases
--   load_dimension_aliases, whose result the others take as an argument, Run _run_bridge
--   (app/tasks/bridge_tasks.py). Members is the table of mappings under
--   app/api/v1/endpoints/bridge_mappings.py: create_bridge_mapping, update_bridge_mapping,
--   delete_bridge_mapping and list_bridge_mappings in Requests, default_bridge_mappings in Seeding,
--   import_bridge_mappings in Importing and export_bridge_mappings in Export. KickoutRequests has
--   the requests of app/api/v1/endpoints/bridge_kickouts.py on the same table:
--   list_bridge_kickouts, export_bridge_kickouts, resolve_bridge_kickout and
--   default_bridge_kickouts. Steps has the tables that a sequence of these requests leads to, with
--   what copy_recon and delete_recon_app (app/services/recon_app_delete.py, of which no more is
--   modelled) do to the table; default_bridge_kickouts is a step of it where the recon has no row
--   that is marked as invalid.
-- Import: validate_and_parse, and _run_import in Run.
-- Schedule: parse_cron_field, and next_cron_utc and next_scheduled_at in Next.
-- Sync: Resolve has apply_sync_mappings and zip_distinct_lists, Run the page of transformed rows and
--   apply_all_identity_mappings.
-- Report: compute_report and its parts.
-- Workflow: Definition has validated_definition and pipeline_for_apps, Queue queue_workflow_run,
--   Runner run_workflow.
-- Access: is_component_visible and the guards; Catalog is the table of components.
-- Security: accessible_group_ids (app/core/scope_access.py), user_has_privilege
--   (app/core/permissions.py), get_accessible_recon (app/core/recon_access.py); Grants is
--   sync_user_type_grants (app/core/user_type_grants.py).
-- Copy: copy_recon (app/services/recon_copy.py).
-- Examples: the theorems at concrete rows.
--
-- The functions take what the queries of the source return: the rows of a table are lists in the
-- order of the query. Identifiers and moments are natural numbers. Loops are recursion on the list
-- that they go through; the loop of ancestors_of has a fuel for each component of the catalog, more
-- than any chain of parents in it has links; the scan of a schedule has the number of its minutes,
-- those of 366 days and one, and a cron range the number of values up to its end. Texts are
-- lower-cased and upper-cased in their ASCII letters. A workflow run is modelled over any store and
-- any execution of one step; the queue is modelled with what another session may have written in
-- between.
--
-- Not modelled: the other HTTP endpoints, authentication, logging, caching, the storage and the
-- decoding of files, the database's own behaviour apart from the unique indexes of the active
-- workflow runs and of the names of live recons and the constraints of the bridge mappings, what
-- datetime and zoneinfo compute, the audit log, progress messages and the variance percentage, which
-- is a float.
pub mod Prelude
pub mod Decimal
pub mod Import
pub mod Schedule
pub mod Bridge
pub mod Sync
pub mod Report
pub mod Workflow
pub mod Access
pub mod Security
pub mod Copy
pub mod Examples
