-- ===== src/Examples/Mapped.antt =====
-- The table of bridge mappings and the bridge run, at a recon with one import.
use dart_backend.Prelude.{
  list_beq, ◌≡◌, refl, subst, true, false, some, none, List, [], ◌∷◌, arith, inl, inr, length, map,
  list_eq, nat_eq, pair_eq,
}
use dart_backend.Prelude.Dict.{get, put}
use dart_backend.Prelude.Text.{
  is_space, lower_char, upper_char, lower, upper, lstrip, rstrip, strip, join, without, starts_with,
  drop_prefix, remove_prefix, span_digits, number_from, digits_before, number_text, Text, txt,
  is_empty,
}
use dart_backend.Prelude.Results.{map_result, Result, ok, raised}
use dart_backend.Prelude.Sorting.{text_leb, insert_sorted, sort_by}
use dart_backend.Prelude.Int.{◌+ℤ◌, ◌-ℤ◌, min_ℤ, int_of}
use dart_backend.Decimal.{
  shed, half_even, half_up, fix, multiply, add_signed, rescale, add, subtract, absolute, greater,
  cents_of, quantize,
}
use dart_backend.Decimal.Parse.{
  take_sign, take_fraction, only_digits, take_exponent, parse_number, is_tagged, parse_unsigned,
  decimal_of_text, parse_amount,
}
use dart_backend.Decimal.Format.{cents_text, format_decimal}
use dart_backend.Bridge.{
  ImportedRow, is_amount_dimension, is_kickout_member, mapping_key, folded_value, data_value,
  truthy_flag, canonical_dimension_name,
}
use dart_backend.Bridge.Lookup.{
  index_mapping, index_mappings, build_mapping_lookup, match_dimensions, match_rows, enrich_mapping,
  enrich_lookup_with_imported_values, bridged_dimensions, mapping_lookup_for_recon,
}
use dart_backend.Bridge.Resolve.{
  find_mapping, kick_out, use_mapping, record_dimension, resolve_dimensions, resolve_imported_row,
}
use dart_backend.Bridge.Kickouts.{
  add_kickout, discover_dimension, discover_dimensions, discover_rows, discover_mapping,
  discover_mappings, member_leb, discover_kickout_members,
}
use dart_backend.Bridge.Run.{update_kickouts, tally_rows, run_bridge, BridgeRun, RunStatus}
use dart_backend.Prelude.Csv.{
  read_from, read_csv, doubled, write_field, write_more, write_row, write_rows,
}
use dart_backend.Security.{
  accessible_group_ids, user_has_privilege, can_manage_recon, can_link_recon_group,
  get_accessible_recon, Tables,
}
use dart_backend.Bridge.Members.{
  assert_app_not_signed_off, is_unique, commit, delete_app, get_mapping, find_existing, Request,
  Table, StoredMapping, stored_key,
}
use dart_backend.Bridge.Members.Requests.{
  to_read, is_taken, create_bridge_mapping, apply_updates, check_source, update_bridge_mapping,
  delete_bridge_mapping, selected, list_bridge_mappings, BridgeMappingRead,
}
use dart_backend.Bridge.Members.Seeding.{
  seed_value, seed_row, seed_rows, seeds_of, default_bridge_mappings,
}
use dart_backend.Bridge.Members.Importing.{
  normalize_csv_headers, dict_of, row_of, cell_of, read_file, index_keys, row_app_of,
  mapping_of_row, place_row, wiped, import_mapping, import_checked, import_row, import_rows,
  import_bridge_mappings,
}
use dart_backend.Bridge.Members.KickoutRequests.{
  lookup_of, kickouts_for_recon, resolve_bridge_kickout, default_at, default_kickouts,
  assert_apps_open, default_bridge_kickouts,
}
use dart_backend.Bridge.Members.Export.{export_header, export_record, export_bridge_mappings}
use dart_backend.Bridge.Members.Keys.{IsKeyed}
use dart_backend.Bridge.Members.KickoutKeys.{AllValid}
use dart_backend.Bridge.Members.Resolving.{IsResolved, Others, resolve_bridge_kickout_lem}
use dart_backend.Bridge.Members.Loop.{Appended}
use dart_backend.Bridge.Members.Steps.{Step, Reachable, Reachable-IsKeyed, import-Appended}
use dart_backend.Bridge.Members.Defaults.{Identity, default-Identity}
use dart_backend.Bridge.Run.Flags.{DistinctIds, Outcome, run_bridge_lem}
use dart_backend.Examples.{flip_mapping, mapped_row, rows, dimensions, bridge_index}

program : Unit {0}
unfolding list_beq get put is_space lower_char upper_char lower upper lstrip rstrip strip join
    without starts_with drop_prefix remove_prefix span_digits number_from digits_before number_text
    map_result text_leb insert_sorted sort_by ◌+ℤ◌ ◌-ℤ◌ min_ℤ int_of shed half_even half_up fix
    multiply add_signed rescale add subtract absolute greater cents_of quantize take_sign
    take_fraction only_digits take_exponent parse_number is_tagged parse_unsigned decimal_of_text
    parse_amount cents_text format_decimal is_amount_dimension is_kickout_member mapping_key
    folded_value data_value truthy_flag canonical_dimension_name index_mapping index_mappings
    build_mapping_lookup match_dimensions match_rows enrich_mapping
    enrich_lookup_with_imported_values bridged_dimensions mapping_lookup_for_recon find_mapping
    kick_out use_mapping record_dimension resolve_dimensions resolve_imported_row add_kickout
    discover_dimension discover_dimensions discover_rows discover_mapping discover_mappings
    member_leb discover_kickout_members update_kickouts tally_rows run_bridge read_from read_csv
    doubled write_field write_more write_row write_rows accessible_group_ids user_has_privilege
    can_manage_recon can_link_recon_group get_accessible_recon assert_app_not_signed_off is_unique
    commit delete_app get_mapping find_existing to_read is_taken create_bridge_mapping apply_updates
    check_source update_bridge_mapping delete_bridge_mapping selected list_bridge_mappings
    seed_value seed_row seed_rows seeds_of default_bridge_mappings normalize_csv_headers dict_of
    row_of cell_of read_file index_keys row_app_of mapping_of_row place_row wiped import_mapping
    import_checked import_row import_rows import_bridge_mappings export_header export_record
    export_bridge_mappings lookup_of kickouts_for_recon resolve_bridge_kickout default_at
    default_kickouts assert_apps_open default_bridge_kickouts
program = tt

abbrev tables : Tables
tables = record {
  memberships = [];
  group_lobs = [];
  group_teams = [];
  group_roles = [];
  role_privileges = [];
  recon_groups = [];
  recons = record { id = 7; owner_id = 3; deleted_at = none } ∷ [];
}

abbrev request : Request
request = record {
  tables = tables;
  user = record { id = 3; is_superuser = false; user_types = [] };
  recon_id = 7;
  signoffs = [];
  aliases = [];
  app_names = (1, txt "Ledger") ∷ [];
}

abbrev table_of : {A : Type 0} → Result (Table × A) → Table
table_of (ok (table, a)) = table
table_of (raised e) = []

abbrev read_of : Result (Table × BridgeMappingRead) → BridgeMappingRead
read_of (ok (table, a)) = a
read_of (raised e) = record {
  id = 0;
  recon_id = 0;
  app_name = none;
  app_type = [];
  mapping = flip_mapping;
  is_kickout = false;
}

abbrev reads_of : Result (Table × List BridgeMappingRead) → List BridgeMappingRead
reads_of (ok (table, a)) = a
reads_of (raised e) = []

abbrev creation : Result (Table × BridgeMappingRead)
creation = create_bridge_mapping request 11 flip_mapping []

created_table : Reachable (table_of creation)
unfolding program
created_table =
    Reachable.after Reachable.empty (Step.created request 11 flip_mapping (read_of creation) refl)

created_valid : AllValid 7 (table_of creation)
unfolding program
created_valid s there mine = elim there [
  | inl same ↦ subst (λ x. x.mapping.is_invalid ≡ false) same refl
  | inr nowhere ↦ absurd nowhere
]

-- The default of the kick-outs, at a row whose value has no mapping.
abbrev defaulting : Result (Table × List BridgeMappingRead)
defaulting = default_bridge_kickouts request 12 dimensions rows none (table_of creation)

defaulted_count : length (table_of defaulting) ≡ 2
unfolding program
defaulted_count = refl

abbrev resolution : Result (Table × BridgeMappingRead)
resolution =
    resolve_bridge_kickout request 13 (record flip_mapping { source_member = txt " 2000" })
      (table_of defaulting)

defaulted_table : Reachable (table_of defaulting)
unfolding program
defaulted_table =
    Reachable.after created_table (
      Step.kickouts_seeded request 12 dimensions rows none (reads_of defaulting) created_valid refl)

resolved : resolution ≡ ok (table_of resolution, read_of resolution)
unfolding program
resolved = refl

resolve_bridge_kickout_lem_example :
    ((s : StoredMapping) × IsResolved request
        (record flip_mapping { source_member = txt " 2000" })
        (table_of resolution)
        s
      × (read_of resolution ≡ to_read request.app_names s))
    × Others request
        (record flip_mapping { source_member = txt " 2000" })
        (table_of defaulting)
        (table_of resolution)
resolve_bridge_kickout_lem_example =
    resolve_bridge_kickout_lem request 13 (record flip_mapping { source_member = txt " 2000" })
      (table_of defaulting) (table_of resolution) (read_of resolution)
      (Reachable-IsKeyed (table_of defaulting) defaulted_table) resolved

resolved_table : Reachable (table_of resolution)
resolved_table = Reachable.after defaulted_table (
    Step.resolved request 13 (record flip_mapping { source_member = txt " 2000" })
      (read_of resolution) resolved)

Reachable-IsKeyed_example : IsKeyed (table_of resolution)
Reachable-IsKeyed_example = Reachable-IsKeyed (table_of resolution) resolved_table

-- A mapping marked as invalid, and a row with its value in other letters: the default of the
-- kick-outs creates a second row with the same folded key.
abbrev invalid_table : Table
invalid_table =
    record {
      id = 12;
      recon_id = 7;
      mapping = record flip_mapping {
        dimension_name = txt "Account";
        source_member = txt "cash";
        is_invalid = true;
      };
    }
    ∷ []

abbrev cash_row : ImportedRow
cash_row = record mapped_row { cells = (txt "Account", txt "Cash") ∷ [] }

abbrev second_row : Result (Table × List BridgeMappingRead)
second_row =
    default_bridge_kickouts request 13 (txt "Account" ∷ []) (cash_row ∷ []) none invalid_table

same_keys :
    map {A = StoredMapping} (λ s. (stored_key s).1) (table_of second_row)
    ≡ (1, (txt "account", txt "cash")) ∷ (1, (txt "account", txt "cash")) ∷ []
unfolding program
same_keys = refl

-- A file with the key of the stored mapping, in other letters, and a new one.
abbrev file : Text
file =
    txt "dimension,source member,bridge member\r\nACCOUNT,1000 ,Other\r\nAccount,\"2,000\",Cash\r\n"

abbrev no_message : Text → Text
no_message text = text

abbrev importing : Result (Table × List BridgeMappingRead)
importing = import_bridge_mappings no_message request (some 1) false 20 file (table_of creation)

imported : importing ≡ ok (table_of importing, reads_of importing)
unfolding program
imported = refl

-- The file adds one mapping.
imported_count : length (table_of importing) ≡ 2
unfolding program
imported_count = refl

import-Appended_example :
    Appended request
      (some 1)
      false
      (wiped 7 false (some 1) (table_of creation))
      (table_of importing)
import-Appended_example =
    import-Appended no_message request (some 1) false 20 file (table_of creation)
      (table_of importing) (reads_of importing) created_table imported

abbrev exporting : Result (Text × Text)
exporting = export_bridge_mappings text_leb request (some 1) (table_of importing)

abbrev part_of : Result (Text × Text) → Text × Text
part_of (ok p) = p
part_of (raised e) = ([], [])

abbrev seeding : Result (Table × List BridgeMappingRead)
seeding = default_bridge_mappings request 30 (txt "Account" ∷ []) rows 1 (table_of creation)

seeded : seeding ≡ ok (table_of seeding, reads_of seeding)
unfolding program
seeded = refl

full_cell : is_empty (data_value mapped_row.cells (txt "Account")) ≡ false
unfolding program
full_cell = refl

default-Identity_example :
    Identity 7
      (mapping_key 1 (txt "Account") (data_value mapped_row.cells (txt "Account")))
      (table_of seeding)
default-Identity_example =
    default-Identity request 30 (txt "Account" ∷ []) rows 1 (table_of creation) (table_of seeding)
      (reads_of seeding) mapped_row (txt "Account") seeded (inl refl) refl refl (inl refl) full_cell

abbrev bridge_run : BridgeRun
bridge_run = record {
  id = 1;
  recon_id = 7;
  status = RunStatus.pending;
  total_rows = none;
  processed_rows = 0;
  kickout_count = none;
  error_message = none;
  started_at = none;
  completed_at = none;
}

distinct_rows : DistinctIds rows
distinct_rows =
    ((λ i. elim i [ inl same ↦ absurd (omega arith) | inr nowhere ↦ nowhere ]), ((λ i. i), tt))

run_bridge_lem_example :
    Outcome dimensions bridge_index 7 rows
      (run_bridge dimensions bridge_index 100 200 bridge_run rows)
run_bridge_lem_example =
    run_bridge_lem dimensions bridge_index 100 200 bridge_run rows distinct_rows
