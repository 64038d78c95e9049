-- ===== src/Bridge/Members/Steps.antt =====
-- The table of bridge mappings under any sequence of the operations of the program that write it: the
-- requests of app/api/v1/endpoints/bridge_mappings.py and app/api/v1/endpoints/bridge_kickouts.py,
-- and what app/services/recon_copy.py and app/services/recon_app_delete.py do to this table.
use dart_backend.Prelude.{ℕ, ◌≡◌, Bool, Option, List, [], ◌++◌}
use dart_backend.Prelude.Text.{Text}
use dart_backend.Prelude.Results.{ok}
use dart_backend.Bridge.{BridgeMapping, ImportedRow}
use dart_backend.Bridge.Members.{Request, Table, commit, rows_of, delete_app}
use dart_backend.Copy.{copy_mappings}
use dart_backend.Bridge.Members.Elsewhere.{NoneOf, delete_app-IsKeyed, copies-IsKeyed}
use dart_backend.Bridge.Members.Requests.{
  BridgeMappingRead, BridgeMappingUpdate, create_bridge_mapping, update_bridge_mapping,
  delete_bridge_mapping,
}
use dart_backend.Bridge.Members.Seeding.{default_bridge_mappings}
use dart_backend.Bridge.Members.Importing.{import_bridge_mappings, wiped}
use dart_backend.Bridge.Members.KickoutRequests.{resolve_bridge_kickout, default_bridge_kickouts}
use dart_backend.Bridge.Members.KickoutKeys.{AllValid, resolve-IsKeyed, default_kickouts-IsKeyed}
use dart_backend.Bridge.Members.Keys.{IsKeyed}
use dart_backend.Bridge.Members.Rows.{create-IsKeyed, update-IsKeyed, delete-IsKeyed}
use dart_backend.Bridge.Members.Batches.{default-IsKeyed}
use dart_backend.Bridge.Members.Imports.{import_lem}
use dart_backend.Bridge.Members.Loop.{Appended}

-- A request that is answered, and the table that it leaves. A request that raises leaves the table.
-- The deletion of an app deletes its rows, and a copy of a recon, which is new and has no rows before,
-- adds those of its source.
-- The default of the kick-outs is a step where no row of its recon is marked as invalid: an invalid
-- row is not in the index that the request looks its keys up in, so that it may create a second row
-- with the same folded key.
pub data Step : Table → Table → Type 0 where
  created :
      (q : Request) (new_id : ℕ) (body : BridgeMapping) {table t : Table} (r : BridgeMappingRead)
      → create_bridge_mapping q new_id body table ≡ ok (t, r)
      → Step table t
  updated :
      (q : Request) (mapping_id : ℕ) (body : BridgeMappingUpdate) {table t : Table}
      (r : BridgeMappingRead)
      → update_bridge_mapping q mapping_id body table ≡ ok (t, r)
      → Step table t
  deleted :
      (q : Request) (mapping_id : ℕ) {table t : Table}
      → delete_bridge_mapping q mapping_id table ≡ ok t
      → Step table t
  seeded :
      (q : Request) (next_id : ℕ) (dim_names : List Text) (imported : List ImportedRow)
      (app_number : ℕ) {table t : Table} (r : List BridgeMappingRead)
      → default_bridge_mappings q next_id dim_names imported app_number table ≡ ok (t, r)
      → Step table t
  imported_file :
      (value_error : Text → Text) (q : Request) (app_number : Option ℕ) (overwrite : Bool)
      (next_id : ℕ) (raw : Text) {table t : Table} (r : List BridgeMappingRead)
      → import_bridge_mappings value_error q app_number overwrite next_id raw table ≡ ok (t, r)
      → Step table t
  resolved :
      (q : Request) (new_id : ℕ) (body : BridgeMapping) {table t : Table} (r : BridgeMappingRead)
      → resolve_bridge_kickout q new_id body table ≡ ok (t, r)
      → Step table t
  kickouts_seeded :
      (q : Request) (next_id : ℕ) (dimensions : List Text) (imported : List ImportedRow)
      (app_number : Option ℕ) {table t : Table} (r : List BridgeMappingRead)
      → AllValid q.recon_id table
      → default_bridge_kickouts q next_id dimensions imported app_number table ≡ ok (t, r)
      → Step table t
  app_deleted :
      (recon_id app_number : ℕ) {table : Table} → Step table (delete_app recon_id app_number table)
  recon_copied :
      (source clone next_id : ℕ) {table t : Table}
      → NoneOf clone table
      → commit (table ++ copy_mappings clone next_id (rows_of source table)) ≡ ok t
      → Step table t

-- The tables that steps lead to from an empty one.
pub data Reachable : Table → Type 0 where
  empty : Reachable []
  after : {table t : Table} → Reachable table → Step table t → Reachable t

Step-IsKeyed : {table t : Table} → IsKeyed table → Step table t → IsKeyed t
Step-IsKeyed h (Step.created q new_id body {table} {t} r done) =
    create-IsKeyed q new_id body table t r h done
Step-IsKeyed h (Step.updated q mapping_id body {table} {t} r done) =
    update-IsKeyed q mapping_id body table t r h done
Step-IsKeyed h (Step.deleted q mapping_id {table} {t} done) =
    delete-IsKeyed q mapping_id table t h done
Step-IsKeyed h (Step.seeded q next_id dim_names imported app_number {table} {t} r done) =
    default-IsKeyed q next_id dim_names imported app_number table t r h done
Step-IsKeyed h
      (Step.imported_file value_error q app_number overwrite next_id raw {table} {t} r done) =
    (import_lem value_error q app_number overwrite next_id raw table t r h done).0
Step-IsKeyed h (Step.resolved q new_id body {table} {t} r done) =
    resolve-IsKeyed q new_id body table t r h done
Step-IsKeyed h
      (Step.kickouts_seeded q next_id dimensions imported app_number {table} {t} r valid done) =
    default_kickouts-IsKeyed q next_id dimensions imported app_number table t r h valid done
Step-IsKeyed h (Step.app_deleted recon_id app_number {table}) =
    delete_app-IsKeyed recon_id app_number table h
Step-IsKeyed h (Step.recon_copied source clone next_id {table} {t} new done) =
    copies-IsKeyed source clone next_id table t h new done

-- In a table that operations of the program lead to from an empty one, by creating, changing,
-- deleting, seeding and importing mappings, by resolving kick-outs, by the deletion of apps and the
-- copy of recons, and by the default of the kick-outs of a recon with no row that is marked as
-- invalid, no two rows have the same identifier, and no two rows of a recon have the same app and,
-- folded and without white space around them, the same dimension and source member.
pub Reachable-IsKeyed : (table : Table) → Reachable table → IsKeyed table
Reachable-IsKeyed _ Reachable.empty = (tt, tt)
Reachable-IsKeyed _ (Reachable.after {table} {t} r step) =
    Step-IsKeyed (Reachable-IsKeyed table r) step

-- An import into a table that the operations of the program lead to, the default of kick-outs only
-- where the recon has no row that is marked as invalid, keeps each row that is there as it is, but
-- for the rows of the app that it deletes first when it overwrites, and all that it adds is rows of
-- the recon, of the app of the form if it names one.
pub import-Appended :
    (value_error : Text → Text) (q : Request) (app_number : Option ℕ) (overwrite : Bool)
    (next_id : ℕ) (raw : Text) (table t : Table) (r : List BridgeMappingRead)
    → Reachable table
    → import_bridge_mappings value_error q app_number overwrite next_id raw table ≡ ok (t, r)
    → Appended q app_number overwrite (wiped q.recon_id overwrite app_number table) t
import-Appended value_error q app_number overwrite next_id raw table t r reached done =
    (import_lem value_error q app_number overwrite next_id raw table t r
      (Reachable-IsKeyed table reached) done).1
