-- ===== src/Sync/Run.antt =====
-- app/services/sync_run.py, over the rows that its queries return.
pub mod Identity
pub mod Transform
use dart_backend.Prelude.{
  ℕ, suc, zero, ◌+◌, Bool, true, false, Option, none, some, List, [], ◌∷◌, ◌++◌, not, ◌&&◌, ◌||◌,
  map, if◌then◌else◌, ◌==◌, nat_eq, list_eq, list_beq, nat_beq, ltb, leb, any, keep, length, drop,
  take,
}
use dart_backend.Prelude.Dict.{Dict, get}
use dart_backend.Prelude.Text.{Text, txt, strip, upper, is_empty, number_text}
use dart_backend.Prelude.Results.{Result, ok, raised, ◌>>=◌, ◌>>◌, raise_if, app_error, map_result}
use dart_backend.Prelude.Sorting.{text_leb, sort_by}
use dart_backend.Bridge.{BridgeMapping, ImportedRow, Lookup, Aliases}
use dart_backend.Bridge.Lookup.{bridged_dimensions, mapping_lookup_for_recon}
use dart_backend.Bridge.Resolve.{ResolvedBridgeRow, resolve_imported_row}
use dart_backend.Sync.{SyncMapping, SyncedResolution}
use dart_backend.Sync.Resolve.{sync_source_value, zip_distinct_lists, apply_sync_mappings}

-- `SyncedRowRead` (app/schemas/sync.py)
pub record SyncedRow : Type 0 where
  pub id : ℕ
  pub app_number : ℕ
  pub app_name : Option Text
  pub app_type : Text
  pub row_number : ℕ
  pub cells : Dict Text Text
  pub resolved : Dict Text Text
  pub synced : Dict Text Text
  pub amount : Text
  pub sign_reversed_amount : Text
  pub flip_sign : Bool

-- `app_type_label` of app/services/bridge_resolve.py
unfoldable pub app_type_label : ℕ → Text
app_type_label app_number = txt "App" ++ number_text app_number

unfoldable pub to_synced_row :
    ImportedRow → Dict ℕ Text → ResolvedBridgeRow → SyncedResolution → SyncedRow
to_synced_row row app_names bridged applied = record {
  id = row.id;
  app_number = row.app_number;
  app_name = get row.app_number app_names;
  app_type = app_type_label row.app_number;
  row_number = row.row_number;
  cells = row.cells;
  resolved = bridged.resolved;
  synced = applied.synced;
  amount = applied.amount;
  sign_reversed_amount = applied.sign_reversed_amount;
  flip_sign = applied.flip_sign;
}

-- The filters on the recon and, if one is given, on the app.
abbrev pub selects : ℕ → Option ℕ → ImportedRow → Bool
selects recon_id none row = nat_beq row.recon_id recon_id
selects recon_id (some n) row = nat_beq row.recon_id recon_id && nat_beq row.app_number n

unfoldable pub count_imported_rows : List ImportedRow → ℕ → Option ℕ → ℕ
count_imported_rows table recon_id app_number = length (keep (selects recon_id app_number) table)

-- order_by(ImportedRow.app_number, ImportedRow.row_number)
unfoldable pub row_leb : ImportedRow → ImportedRow → Bool
row_leb a b =
    ltb a.app_number b.app_number
    || (nat_beq a.app_number b.app_number && leb a.row_number b.row_number)

-- What the queries of one recon return, apart from the imported rows.
pub record Settings : Type 0 where
  pub dimensions : List Text
  pub bridge_mappings : List BridgeMapping
  pub aliases : Aliases
  pub sync_mappings : List SyncMapping
  pub app_names : Dict ℕ Text

-- The body of the loop over the rows of a page.
unfoldable pub transform_row : Settings → Lookup → ImportedRow → Result SyncedRow
transform_row s lookup row = do
  bridged ← resolve_imported_row row.app_number row.cells (bridged_dimensions s.dimensions) lookup
  applied ←
      apply_sync_mappings row.app_number row.cells bridged.resolved s.sync_mappings bridged.amount
        bridged.sign_reversed_amount
  ok (to_synced_row row s.app_names bridged applied)

abbrev pub recon_lookup : Settings → List ImportedRow → ℕ → Lookup
recon_lookup s table recon_id =
    mapping_lookup_for_recon s.bridge_mappings s.aliases s.dimensions
      (keep (λ row. nat_beq row.recon_id recon_id) table)

unfoldable pub run_transformation_page :
    Settings
    → List ImportedRow
    → ℕ
    → (offset page_size : ℕ) → Option ℕ
    → Result (List SyncedRow × ℕ)
run_transformation_page s table recon_id offset page_size app_number = do
  let total = count_imported_rows table recon_id app_number
  let ordered = sort_by row_leb (keep (selects recon_id app_number) table)
  results ←
      map_result (transform_row s (recon_lookup s table recon_id))
        (take page_size (drop offset ordered))
  ok (results, total)

unfoldable pub assert_syncable_dimensions : List Text → Result (Unit {0})
unfolding list_beq
assert_syncable_dimensions names =
    raise_if (any (λ name. upper (strip name) == txt "AMOUNT") names)
      (app_error (txt "AMOUNT is a measure, not a sync-mapped dimension.") (txt "not_syncable"))

-- `sorted(found)` of a set: the distinct values in order.
unfoldable pub add_value : Text → List Text → List Text
unfolding list_beq
add_value v vs = if any (λ w. w == v) vs then vs else v ∷ vs

unfoldable pub distinct_values : List Text → List Text
distinct_values [] = []
distinct_values (v ∷ vs) =
    let rest = distinct_values vs in if is_empty v then rest else add_value v rest

-- The resolved members of each row, beside its cells.
abbrev pub resolve_cells :
    Settings → Lookup → ImportedRow → Result (Dict Text Text × Dict Text Text)
resolve_cells s lookup row = do
  bridged ← resolve_imported_row row.app_number row.cells (bridged_dimensions s.dimensions) lookup
  ok (row.cells, bridged.resolved)

unfoldable pub distinct_source_lists :
    Settings → List ImportedRow → ℕ → ℕ → List Text → Result (List (List Text))
distinct_source_lists s table recon_id app_number dimension_names = do
  resolved_rows ←
      map_result (resolve_cells s (recon_lookup s table recon_id))
        (keep (selects recon_id (some app_number)) table)
  ok (
      map
        (λ d.
          sort_by text_leb
            (distinct_values (map (λ r. sync_source_value d (r.0) (r.1)) resolved_rows)))
        dimension_names)

abbrev pub same_target : ℕ → ℕ → List Text → SyncMapping → Bool
same_target recon_id app_number dimension_names m =
    nat_beq m.recon_id recon_id
    && (nat_beq m.app_number app_number && m.dimension_names == dimension_names)

unfoldable pub existing_source_keys : List SyncMapping → ℕ → ℕ → List Text → List Text
unfolding list_beq
existing_source_keys table recon_id app_number dimension_names =
    map (λ m. m.source_sync) (keep (same_target recon_id app_number dimension_names) table)

abbrev pub identity_mapping : ℕ → ℕ → List Text → Text → Text → SyncMapping
identity_mapping recon_id app_number dimension_names concat_delimiter source = record {
  recon_id = recon_id;
  app_number = app_number;
  dimension_names = dimension_names;
  concat_delimiter = concat_delimiter;
  source_sync = source;
  target_sync = source;
  flip_sign = false;
}

-- The table, the known sources and the two counters of the loop.
pub record Generated : Type 0 where
  pub table : List SyncMapping
  pub existing : List Text
  pub created : ℕ
  pub skipped : ℕ

module _ (recon_id app_number : ℕ) (dimension_names : List Text) (delimiter : Text) where
  -- The body of the loop of `apply_all_identity_mappings`.
  unfoldable pub generate_one : Generated → Text → Generated
  unfolding list_beq
  generate_one g source =
      if any (λ s. s == source) g.existing then record g { skipped = g.skipped + 1 } else record {
        table =
            g.table ++ identity_mapping recon_id app_number dimension_names delimiter source ∷ [];
        existing = source ∷ g.existing;
        created = g.created + 1;
        skipped = g.skipped;
      }

  unfoldable pub generate_all : Generated → List Text → Generated
  generate_all g [] = g
  generate_all g (source ∷ sources) = generate_all (generate_one g source) sources

-- The new table and (created, skipped).
unfoldable pub apply_all_identity_mappings :
    Settings
    → List ImportedRow
    → List SyncMapping
    → (recon_id app_number : ℕ) → List Text
    → Text
    → Result (List SyncMapping × (ℕ × ℕ))
apply_all_identity_mappings s rows table recon_id app_number dimension_names delimiter = do
  assert_syncable_dimensions dimension_names
  let existing = existing_source_keys table recon_id app_number dimension_names
  value_lists ← distinct_source_lists s rows recon_id app_number dimension_names
  let start : Generated = record { table = table; existing = existing; created = 0; skipped = 0 }
  let g =
      generate_all recon_id app_number dimension_names delimiter start
        (zip_distinct_lists value_lists delimiter)
  ok (g.table, (g.created, g.skipped))
