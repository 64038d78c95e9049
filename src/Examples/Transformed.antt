-- ===== src/Examples/Transformed.antt =====
-- Transformation: the theorems on one row and on identity mappings at the sample rows.
use dart_backend.Prelude.{
  list_beq, ℕ, ◌≡◌, ◌<◌, ◌+◌, refl, true, false, List, [], ◌∷◌, arith, list_eq, nat_eq, pair_eq,
}
use dart_backend.Prelude.Dict.{get, put}
use dart_backend.Prelude.Text.{
  is_space, lower_char, upper_char, lower, upper, lstrip, rstrip, strip, join, without, starts_with,
  drop_prefix, remove_prefix, span_digits, number_from, digits_before, number_text, txt,
}
use dart_backend.Prelude.Results.{map_result, Result, ok}
use dart_backend.Prelude.Sorting.{text_leb, insert_sorted, sort_by}
use dart_backend.Prelude.Int.{◌+ℤ◌, ◌-ℤ◌, min_ℤ, negsuc}
use dart_backend.Decimal.{
  shed, half_even, half_up, fix, multiply, add_signed, rescale, add, subtract, absolute, greater,
  cents_of, quantize, precision_limit, xor,
}
use dart_backend.Decimal.Parse.{
  take_sign, take_fraction, only_digits, take_exponent, parse_number, is_tagged, parse_unsigned,
  decimal_of_text, parse_amount,
}
use dart_backend.Decimal.Format.{cents_text, format_decimal}
use dart_backend.Bridge.{
  is_amount_dimension, is_kickout_member, mapping_key, folded_value, data_value, truthy_flag,
  canonical_dimension_name,
}
use dart_backend.Bridge.Lookup.{
  index_mapping, index_mappings, build_mapping_lookup, match_dimensions, match_rows, enrich_mapping,
  enrich_lookup_with_imported_values, bridged_dimensions, mapping_lookup_for_recon,
}
use dart_backend.Bridge.Resolve.{
  find_mapping, kick_out, use_mapping, record_dimension, resolve_dimensions, resolve_imported_row,
}
use dart_backend.Bridge.Kickouts.{
  add_kickout, discover_dimension, discover_dimensions, discover_rows, discover_mapping,
  discover_mappings, member_leb, discover_kickout_members,
}
use dart_backend.Sync.Resolve.{
  sync_source_value, zip_cons, zip_lists, combine, zip_distinct_lists, mapping_applies,
  apply_mappings, apply_sync_mappings,
}
use dart_backend.Sync.Run.{
  app_type_label, to_synced_row, count_imported_rows, row_leb, transform_row,
  run_transformation_page, assert_syncable_dimensions, add_value, distinct_values,
  distinct_source_lists, existing_source_keys, generate_one, generate_all,
  apply_all_identity_mappings, SyncedRow, identity_mapping,
}
use dart_backend.Examples.{flip_sync, settings, bridge_index, mapped_row, rows}
use dart_backend.Sync.{SyncedResolution, SyncMapping}
use dart_backend.Sync.Resolve.Signs.{IsSynced, apply_sync_mappings_lem, sign_after, applying}
use dart_backend.Sync.Run.Transform.{transform_row_amount, bridge_flip}
use dart_backend.Sync.Run.Identity.{apply_all_again}

program : Unit {0}
unfolding list_beq get put is_space lower_char upper_char lower upper lstrip rstrip strip join
    without starts_with drop_prefix remove_prefix span_digits number_from digits_before number_text
    map_result text_leb insert_sorted sort_by ◌+ℤ◌ ◌-ℤ◌ min_ℤ shed half_even half_up fix multiply
    add_signed rescale add subtract absolute greater cents_of quantize take_sign take_fraction
    only_digits take_exponent parse_number is_tagged parse_unsigned decimal_of_text parse_amount
    cents_text format_decimal is_amount_dimension is_kickout_member mapping_key folded_value
    data_value truthy_flag canonical_dimension_name index_mapping index_mappings
    build_mapping_lookup match_dimensions match_rows enrich_mapping
    enrich_lookup_with_imported_values bridged_dimensions mapping_lookup_for_recon find_mapping
    kick_out use_mapping record_dimension resolve_dimensions resolve_imported_row add_kickout
    discover_dimension discover_dimensions discover_rows discover_mapping discover_mappings
    member_leb discover_kickout_members sync_source_value zip_cons zip_lists combine
    zip_distinct_lists mapping_applies apply_mappings apply_sync_mappings app_type_label
    to_synced_row count_imported_rows row_leb transform_row run_transformation_page
    assert_syncable_dimensions add_value distinct_values distinct_source_lists existing_source_keys
    generate_one generate_all apply_all_identity_mappings
program = tt

small_cents : cents_of 12345 (negsuc 2) < precision_limit
unfolding program
small_cents = omega arith

transform_row_amount_example :
    (r : SyncedRow) × (transform_row settings bridge_index mapped_row ≡ ok r)
    × (r.cells ≡ mapped_row.cells)
    × (r.amount ≡ cents_text true (cents_of 12345 (negsuc 2)))
    × (r.sign_reversed_amount
        ≡ cents_text
            (xor
              (xor true (bridge_flip settings bridge_index mapped_row))
              (sign_after false (applying 1 mapped_row.cells r.resolved settings.sync_mappings)))
            (cents_of 12345 (negsuc 2)))
unfolding program
transform_row_amount_example =
    transform_row_amount settings bridge_index mapped_row true 12345 (negsuc 2) refl (omega arith)
      small_cents

apply_sync_mappings_lem_example :
    (r : SyncedResolution) × (apply_sync_mappings 1 mapped_row.cells
        ((txt "Account", txt "Cash") ∷ [])
        (flip_sync ∷ [])
        (cents_text true 1235)
        (cents_text false 1235)
      ≡ ok r)
    × IsSynced 1 mapped_row.cells
        ((txt "Account", txt "Cash") ∷ [])
        (flip_sync ∷ [])
        true
        false
        1235
        r
apply_sync_mappings_lem_example =
    apply_sync_mappings_lem 1 mapped_row.cells ((txt "Account", txt "Cash") ∷ []) (flip_sync ∷ [])
      true false 1235 (omega arith)

abbrev identities : List SyncMapping
identities =
    identity_mapping 7 1 (txt "Account" ∷ []) (txt "|") (txt "2000")
    ∷ identity_mapping 7 1 (txt "Account" ∷ []) (txt "|") (txt "Cash")
    ∷ []

apply_all_again_example :
    ◌≡◌ {A = Result (List SyncMapping × (ℕ × ℕ))}
      (apply_all_identity_mappings settings rows identities 7 1 (txt "Account" ∷ []) (txt "|"))
      (ok (identities, (0, 2 + 0)))
unfolding program
apply_all_again_example =
    apply_all_again 7 1 (txt "Account" ∷ []) (txt "|") settings rows [] identities 2 0 refl
