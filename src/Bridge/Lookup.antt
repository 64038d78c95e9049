-- ===== src/Bridge/Lookup.antt =====
-- The index of bridge mappings: `build_mapping_lookup`, `enrich_lookup_with_imported_values` and
-- `mapping_lookup_for_recon`.
pub mod Sound
pub mod Enrich
use dart_backend.Prelude.{
  ℕ, Bool, true, false, Option, none, some, List, [], ◌∷◌, ◌++◌, not, map, ◌&&◌, ◌||◌,
  if◌then◌else◌, ◌==◌, nat_eq, list_eq, pair_eq, list_beq, any, keep,
}
use dart_backend.Prelude.Dict.{Dict, get, put, has}
use dart_backend.Prelude.Text.{Text, strip, lower, is_empty}
use dart_backend.Bridge.{
  BridgeMapping, ImportedRow, Lookup, Aliases, mapping_key, data_value, canonical_dimension_name,
  is_amount_dimension,
}

-- The body of the loop of `build_mapping_lookup`.
unfoldable pub index_mapping : Aliases → Lookup → BridgeMapping → Lookup
unfolding list_beq
index_mapping aliases lookup m =
    let common = canonical_dimension_name m.dimension_name m.app_number aliases in
    let indexed = put (mapping_key m.app_number common m.source_member) m lookup in
    let twice = put (mapping_key m.app_number m.dimension_name m.source_member) m indexed in
    if m.is_invalid
    then lookup
    else if lower (strip m.dimension_name) == lower (strip common)
    then indexed
    else twice

unfoldable pub index_mappings : Aliases → Lookup → List BridgeMapping → Lookup
index_mappings aliases lookup [] = lookup
index_mappings aliases lookup (m ∷ ms) = index_mappings aliases (index_mapping aliases lookup m) ms

unfoldable pub build_mapping_lookup : List BridgeMapping → Aliases → Lookup
build_mapping_lookup mappings aliases = index_mappings aliases [] mappings

-- A name joins the set of matches once.
abbrev add_name : Text → List Text → List Text
add_name name names = if any (λ n. n == name) names then names else names ++ name ∷ []

-- The inner loop: the dimensions of one row whose cell is the source member.
unfoldable pub match_dimensions : ImportedRow → Text → List Text → List Text → List Text
unfolding list_beq
match_dimensions row source found [] = found
match_dimensions row source found (d ∷ ds) =
    match_dimensions row source
      (if lower (strip (data_value row.cells d)) == source then add_name d found else found) ds

-- The loop over the rows of the mapping's app.
unfoldable pub match_rows : ℕ → Text → List Text → List Text → List ImportedRow → List Text
match_rows app_number source dim_names found [] = found
match_rows app_number source dim_names found (row ∷ rows) =
    match_rows app_number source dim_names
      (if row.app_number == app_number then match_dimensions row source found dim_names else found)
      rows

-- A single match is indexed; none or several leave the index as it is.
abbrev index_match : BridgeMapping → Lookup → List Text → Lookup
index_match m lookup [] = lookup
index_match m lookup (d ∷ []) = put (mapping_key m.app_number d m.source_member) m lookup
index_match m lookup (d ∷ d' ∷ ds) = lookup

-- The body of the loop of `enrich_lookup_with_imported_values`.
unfoldable pub enrich_mapping : List ImportedRow → List Text → Lookup → BridgeMapping → Lookup
unfolding list_beq
enrich_mapping rows dim_names lookup m =
    let known = map (λ name. lower (strip name)) dim_names in
    let source = lower (strip m.source_member) in
    let matches = match_rows m.app_number source dim_names [] rows in
    if m.is_invalid
    then lookup
    else if any (λ name. name == lower (strip m.dimension_name)) known
    then lookup
    else if any (λ d. has (mapping_key m.app_number d m.source_member) lookup) dim_names
    then lookup
    else if is_empty source
    then lookup
    else index_match m lookup matches

unfoldable pub enrich_lookup_with_imported_values :
    Lookup → List BridgeMapping → List ImportedRow → List Text → Lookup
enrich_lookup_with_imported_values lookup [] rows dim_names = lookup
enrich_lookup_with_imported_values lookup (m ∷ ms) rows dim_names =
    enrich_lookup_with_imported_values (enrich_mapping rows dim_names lookup m) ms rows dim_names

-- The names of `load_bridged_dimensions`, from the recon's dimensions in order of position.
unfoldable pub bridged_dimensions : List Text → List Text
bridged_dimensions names = keep (λ name. not (is_amount_dimension name)) names

-- `mapping_lookup_for_recon`, from what its queries return.
unfoldable pub mapping_lookup_for_recon :
    List BridgeMapping → Aliases → List Text → List ImportedRow → Lookup
mapping_lookup_for_recon mappings aliases dimensions rows =
    enrich_lookup_with_imported_values (build_mapping_lookup mappings aliases) mappings rows
      (bridged_dimensions dimensions)
