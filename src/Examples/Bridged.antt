-- ===== src/Examples/Bridged.antt =====
-- The bridge: the theorems on the index, the rows and the kickouts at the sample rows.
use dart_backend.Prelude.{
  list_beq, ◌≡◌, ◌<◌, refl, true, some, none, [], ◌∷◌, arith, inl, inr, In, ◌⊎◌, list_eq, nat_eq,
  pair_eq,
}
use dart_backend.Prelude.Dict.{get, put, has}
use dart_backend.Prelude.Text.{
  is_space, lower_char, upper_char, lower, upper, lstrip, rstrip, strip, join, without, starts_with,
  drop_prefix, remove_prefix, span_digits, number_from, digits_before, number_text, txt,
}
use dart_backend.Prelude.Results.{map_result, ok, raised, invalid_operation}
use dart_backend.Prelude.Sorting.{text_leb, insert_sorted, sort_by}
use dart_backend.Prelude.Int.{◌+ℤ◌, ◌-ℤ◌, min_ℤ, negsuc}
use dart_backend.Decimal.{
  shed, half_even, half_up, fix, multiply, add_signed, rescale, add, subtract, absolute, greater,
  cents_of, quantize, precision_limit,
}
use dart_backend.Decimal.Parse.{
  take_sign, take_fraction, only_digits, take_exponent, parse_number, is_tagged, parse_unsigned,
  decimal_of_text, parse_amount,
}
use dart_backend.Decimal.Format.{cents_text, format_decimal}
use dart_backend.Bridge.{
  is_amount_dimension, is_kickout_member, mapping_key, folded_value, data_value, truthy_flag,
  canonical_dimension_name, BridgeMapping,
}
use dart_backend.Bridge.Lookup.{
  index_mapping, index_mappings, build_mapping_lookup, match_dimensions, match_rows, enrich_mapping,
  enrich_lookup_with_imported_values, bridged_dimensions, mapping_lookup_for_recon,
}
use dart_backend.Bridge.Resolve.{
  find_mapping, kick_out, use_mapping, record_dimension, resolve_dimensions, resolve_imported_row,
  ResolvedBridgeRow,
}
use dart_backend.Bridge.Kickouts.{
  add_kickout, discover_dimension, discover_dimensions, discover_rows, discover_mapping,
  discover_mappings, member_leb, discover_kickout_members, KickoutMember,
}
use dart_backend.Bridge.Resolve.Amounts.{
  IsResolution, resolve_imported_row_lem, resolve_imported_row_raises,
}
use dart_backend.Bridge.Kickouts.Sound.{IsKickout, discover_sound}
use dart_backend.Bridge.Kickouts.Complete.{discover_once, cell_key}
use dart_backend.Bridge.Lookup.Sound.{
  Belongs, get-build_mapping_lookup, has-build_mapping_lookup, common_key, stored_key,
}
use dart_backend.Bridge.Lookup.Enrich.{IsEnriched, get-enrich_keeps, get-enrich_sound}
use dart_backend.Bridge.Kickouts.Adding.{occurrences}
use dart_backend.Examples.{
  flip_mapping, bridge_index, mapped_row, unmapped_row, infinite_row, rows, dimensions,
}

program : Unit {0}
unfolding list_beq get put is_space lower_char upper_char lower upper lstrip rstrip strip join
    without starts_with drop_prefix remove_prefix span_digits number_from digits_before number_text
    map_result text_leb insert_sorted sort_by ◌+ℤ◌ ◌-ℤ◌ min_ℤ shed half_even half_up fix multiply
    add_signed rescale add subtract absolute greater cents_of quantize take_sign take_fraction
    only_digits take_exponent parse_number is_tagged parse_unsigned decimal_of_text parse_amount
    cents_text format_decimal is_amount_dimension is_kickout_member mapping_key folded_value
    data_value truthy_flag canonical_dimension_name index_mapping index_mappings
    build_mapping_lookup match_dimensions match_rows enrich_mapping
    enrich_lookup_with_imported_values bridged_dimensions mapping_lookup_for_recon find_mapping
    kick_out use_mapping record_dimension resolve_dimensions resolve_imported_row add_kickout
    discover_dimension discover_dimensions discover_rows discover_mapping discover_mappings
    member_leb discover_kickout_members
program = tt

cents_fit : cents_of 12345 (negsuc 2) < precision_limit
unfolding program
cents_fit = omega arith

resolve_imported_row_lem_example :
    (r : ResolvedBridgeRow) × (resolve_imported_row 1 mapped_row.cells dimensions bridge_index
      ≡ ok r)
    × IsResolution 1 mapped_row.cells dimensions bridge_index true (cents_of 12345 (negsuc 2)) r
unfolding program
resolve_imported_row_lem_example =
    resolve_imported_row_lem 1 mapped_row.cells dimensions bridge_index true 12345 (negsuc 2) refl
      (omega arith) cents_fit

resolve_imported_row_raises_example :
    resolve_imported_row 1 infinite_row.cells dimensions bridge_index ≡ raised invalid_operation
unfolding program
resolve_imported_row_raises_example =
    resolve_imported_row_raises 1 infinite_row.cells dimensions bridge_index tt

abbrev unmapped_kickout : KickoutMember
unmapped_kickout = record {
  app_number = 1;
  app_name = none;
  dimension_name = txt "ACCOUNT";
  source_member = txt "2000";
  bridge_member = [];
}

discover_sound_example :
    IsKickout rows dimensions bridge_index (flip_mapping ∷ []) [] none [] unmapped_kickout
unfolding program
discover_sound_example =
    discover_sound rows dimensions bridge_index (flip_mapping ∷ []) [] none [] unmapped_kickout
      (inl refl)

discover_once_example :
    occurrences
      (cell_key [] none bridge_index unmapped_row (txt "Account"))
      (discover_kickout_members rows dimensions bridge_index (flip_mapping ∷ []) [] none [])
    ≡ 1
unfolding program
discover_once_example =
    discover_once rows dimensions bridge_index (flip_mapping ∷ []) [] none [] unmapped_row
      (txt "Account") (inr (inl refl)) refl (inl refl)
      (record { not_amount = refl; named = refl; passes = refl; unresolved = refl })

get-build_mapping_lookup_example :
    In flip_mapping (flip_mapping ∷ []) × Belongs [] (1, (txt "account", txt "1000")) flip_mapping
unfolding program
get-build_mapping_lookup_example =
    get-build_mapping_lookup [] (1, (txt "account", txt "1000")) (flip_mapping ∷ []) flip_mapping
      refl

has-build_mapping_lookup_example :
    (has (common_key [] flip_mapping) (build_mapping_lookup (flip_mapping ∷ []) []) ≡ true)
    × (has (stored_key flip_mapping) (build_mapping_lookup (flip_mapping ∷ []) []) ≡ true)
has-build_mapping_lookup_example =
    has-build_mapping_lookup [] (flip_mapping ∷ []) flip_mapping (inl refl) refl

-- A mapping that is stored under another dimension than the one whose cells hold its source.
abbrev stray_mapping : BridgeMapping
stray_mapping = record flip_mapping { dimension_name = txt "Stray"; source_member = txt "2000" }

get-enrich_keeps_example :
    get
      (1, (txt "account", txt "1000"))
      (enrich_lookup_with_imported_values bridge_index (stray_mapping ∷ []) rows dimensions)
    ≡ some flip_mapping
unfolding program
get-enrich_keeps_example =
    get-enrich_keeps rows dimensions (stray_mapping ∷ []) bridge_index
      (1, (txt "account", txt "1000")) flip_mapping refl

get-enrich_sound_example :
    (get (1, (txt "account", txt "2000")) bridge_index ≡ some stray_mapping)
    ⊎ (In stray_mapping (stray_mapping ∷ [])
        × IsEnriched rows dimensions (1, (txt "account", txt "2000")) stray_mapping)
unfolding program
get-enrich_sound_example =
    get-enrich_sound rows dimensions (stray_mapping ∷ []) bridge_index
      (1, (txt "account", txt "2000")) stray_mapping refl
