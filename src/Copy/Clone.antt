-- ===== src/Copy/Clone.antt =====
-- What `copy_recon` (app/services/recon_copy.py) does to the configurations of the recons.
use dart_backend.Prelude.{
  ℕ, ◌≡◌, refl, ap, ◌∙◌, inl, inr, true, false, [], ◌∷◌, ◌++◌, keep, map, nat_beq, Bool-cases,
  arith,
}
use dart_backend.Prelude.Sorting.{sort_by, IsSorted, sort_by-IsSorted}
use dart_backend.Prelude.Text.{Text}
use dart_backend.Sync.{SyncMapping}
use dart_backend.Bridge.Members.{StoredMapping}
use dart_backend.Copy.{
  Database, ReconRow, AppRow, DimensionRow, copy_app, copy_dimension, copy_mappings, copy_sync,
  apps_of, dimensions_of, mappings_of, syncs_of, by_position, name_is_live, copy_recon, new_recon,
}
use dart_backend.Copy.Rows.{
  configuration, same_configuration, Outcome, Unused, added-own, added-other, AllOf-map, view-map,
  AllOf-copy_mappings, bridge-copy_mappings, copied_mappings, sort_by-sorted, copied-IsSorted,
}

leb_total : (a b : DimensionRow) → by_position a b ≡ false → by_position b a ≡ true
leb_total a b h = ground arith

-- The tables when the rows of the clone are added.
abbrev copied : ReconRow → ℕ → ℕ → Text → ℕ → ℕ → Database → Database
copied source clone next_id name owner group db = record {
  recons = db.recons ++ new_recon source clone name owner group ∷ [];
  apps = db.apps ++ map (copy_app clone) (apps_of source.id db);
  dimensions = db.dimensions ++ map (copy_dimension clone) (dimensions_of source.id db);
  bridge_mappings = db.bridge_mappings ++ copy_mappings clone next_id (mappings_of source.id db);
  sync_mappings = db.sync_mappings ++ map (copy_sync clone) (syncs_of source.id db);
}

abbrev app_recon : AppRow → ℕ
app_recon a = a.recon_id

abbrev dimension_recon : DimensionRow → ℕ
dimension_recon d = d.recon_id

abbrev mapping_recon : StoredMapping → ℕ
mapping_recon s = s.recon_id

abbrev sync_recon : SyncMapping → ℕ
sync_recon m = m.recon_id

module _ (source : ReconRow) (clone next_id : ℕ) (name : Text) (owner group : ℕ)
    (db : Database) where
  abbrev left : Database
  left = copied source clone next_id name owner group db

  cloned_dimensions :
      keep (λ (d : DimensionRow). nat_beq d.recon_id clone) db.dimensions ≡ []
      → map {A = DimensionRow} (λ d. record d { recon_id = 0 }) (dimensions_of clone left)
        ≡ map {A = DimensionRow} (λ d. record d { recon_id = 0 }) (dimensions_of source.id db)
  cloned_dimensions none_old =
      let rows = dimensions_of source.id db in
      let sorted : IsSorted by_position rows =
        sort_by-IsSorted by_position leb_total
          (keep (λ (d : DimensionRow). nat_beq d.recon_id source.id) db.dimensions) in
      ap (λ xs. map {A = DimensionRow} (λ d. record d { recon_id = 0 }) (sort_by by_position xs))
        (added-own dimension_recon clone db.dimensions (map (copy_dimension clone) rows) none_old
          (AllOf-map dimension_recon clone (copy_dimension clone) rows (λ d. refl)))
      ∙ ap (map {A = DimensionRow} (λ d. record d { recon_id = 0 }))
          (sort_by-sorted (map (copy_dimension clone) rows) (copied-IsSorted clone rows sorted))
      ∙ view-map {A = DimensionRow} (λ d. record d { recon_id = 0 }) (copy_dimension clone)
          (λ d. ap (λ ms. record d { recon_id = 0; mappings = ms }) (copied_mappings d.mappings))
          rows

  cloned : Unused clone db → configuration clone left ≡ configuration source.id db
  cloned (no_apps, no_dimensions, no_mappings, no_syncs) =
      let apps : (configuration clone left).apps ≡ (configuration source.id db).apps =
        ap (map {A = AppRow} (λ a. record a { recon_id = 0 })) (
          added-own app_recon clone db.apps (map (copy_app clone) (apps_of source.id db)) no_apps
            (AllOf-map app_recon clone (copy_app clone) (apps_of source.id db) (λ a. refl)))
        ∙ view-map {A = AppRow} (λ a. record a { recon_id = 0 }) (copy_app clone) (λ a. refl)
            (apps_of source.id db) in
      let bridge : (configuration clone left).bridge ≡ (configuration source.id db).bridge =
        ap (map {A = StoredMapping} (λ s. s.mapping)) (
          added-own mapping_recon clone db.bridge_mappings
            (copy_mappings clone next_id (mappings_of source.id db)) no_mappings
            (AllOf-copy_mappings clone next_id (mappings_of source.id db)))
        ∙ bridge-copy_mappings clone next_id (mappings_of source.id db) in
      let syncs : (configuration clone left).syncs ≡ (configuration source.id db).syncs =
        ap (map {A = SyncMapping} (λ m. record m { recon_id = 0 })) (
          added-own sync_recon clone db.sync_mappings
            (map (copy_sync clone) (syncs_of source.id db)) no_syncs
            (AllOf-map sync_recon clone (copy_sync clone) (syncs_of source.id db) (λ m. refl)))
        ∙ view-map {A = SyncMapping} (λ m. record m { recon_id = 0 }) (copy_sync clone) (λ m. refl)
            (syncs_of source.id db) in
      same_configuration apps (cloned_dimensions no_dimensions) bridge syncs

  others : (other : ℕ) → ¬ (clone ≡ other) → configuration other left ≡ configuration other db
  others other differ =
      let apps : (configuration other left).apps ≡ (configuration other db).apps =
        ap (map {A = AppRow} (λ a. record a { recon_id = 0 })) (
          added-other app_recon clone other db.apps (map (copy_app clone) (apps_of source.id db))
            differ
            (AllOf-map app_recon clone (copy_app clone) (apps_of source.id db) (λ a. refl))) in
      let dimensions : (configuration other left).dimensions ≡ (configuration other db).dimensions =
        ap (λ xs. map {A = DimensionRow} (λ d. record d { recon_id = 0 }) (sort_by by_position xs))
          (added-other dimension_recon clone other db.dimensions
            (map (copy_dimension clone) (dimensions_of source.id db)) differ
            (AllOf-map dimension_recon clone (copy_dimension clone) (dimensions_of source.id db)
              (λ d. refl))) in
      let bridge : (configuration other left).bridge ≡ (configuration other db).bridge =
        ap (map {A = StoredMapping} (λ s. s.mapping)) (
          added-other mapping_recon clone other db.bridge_mappings
            (copy_mappings clone next_id (mappings_of source.id db)) differ
            (AllOf-copy_mappings clone next_id (mappings_of source.id db))) in
      let syncs : (configuration other left).syncs ≡ (configuration other db).syncs =
        ap (map {A = SyncMapping} (λ m. record m { recon_id = 0 })) (
          added-other sync_recon clone other db.sync_mappings
            (map (copy_sync clone) (syncs_of source.id db)) differ
            (AllOf-map sync_recon clone (copy_sync clone) (syncs_of source.id db) (λ m. refl))) in
      same_configuration apps dimensions bridge syncs

-- A copy is refused exactly when a recon that is not deleted has the name, and is else made: the clone,
-- under an identifier that no row has, has the configuration of the source, in which rows are without their
-- recon and their identifiers, and every other recon has the configuration that it had.
pub copy_recon_lem :
    (source : ReconRow) (clone next_id : ℕ) (name : Text) (owner group : ℕ) (db : Database)
    → Unused clone db
    → Outcome source clone name db (copy_recon source clone next_id name owner group db)
unfolding copy_recon
copy_recon_lem source clone next_id name owner group db unused =
    elim (Bool-cases (name_is_live name db.recons)) [
      | inl taken ↦ rw taken (taken, refl)
      | inr free ↦ rw free (
        free,
        cloned source clone next_id name owner group db unused,
        others source clone next_id name owner group db,
      )
    ]
