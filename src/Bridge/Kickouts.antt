-- ===== src/Bridge/Kickouts.antt =====
-- `discover_kickout_members`: the distinct source members that need attention.
pub mod Adding
pub mod Complete
pub mod Sound
use dart_backend.Prelude.{
  ℕ, Bool, true, false, Option, none, some, List, [], ◌∷◌, ◌++◌, not, ◌&&◌, ◌||◌, if◌then◌else◌,
  ◌==◌, nat_eq, list_eq, pair_eq, nat_beq, any, map, ltb,
}
use dart_backend.Prelude.Dict.{Dict, get}
use dart_backend.Prelude.Text.{Text, strip, upper, is_empty}
use dart_backend.Prelude.Sorting.{text_leb, sort_by}
use dart_backend.Bridge.{
  BridgeMapping, ImportedRow, Lookup, Aliases, MappingKey, is_amount_dimension, is_kickout_member,
  data_value, canonical_dimension_name,
}
use dart_backend.Bridge.Resolve.{find_mapping}

pub record KickoutMember : Type 0 where
  pub app_number : ℕ
  pub app_name : Option Text
  pub dimension_name : Text
  pub source_member : Text
  pub bridge_member : Text

-- The two local collections.
pub record Found : Type 0 where
  pub seen : List MappingKey
  pub out : List KickoutMember

abbrev pub kickout_key : ℕ → Text → Text → MappingKey
kickout_key app dimension source = (app, (upper (strip dimension), source))

-- `app_number is not None and app != app_number`
abbrev pub filtered_out : Option ℕ → ℕ → Bool
filtered_out none app = false
filtered_out (some n) app = not (nat_beq app n)

abbrev pub member : Dict ℕ Text → ℕ → Text → Text → Text → KickoutMember
member app_names app dimension source bridge = record {
  app_number = app;
  app_name = get app app_names;
  dimension_name = upper (strip dimension);
  source_member = source;
  bridge_member = if is_kickout_member bridge then [] else bridge;
}

-- The inner function `add`.
unfoldable pub add_kickout : Dict ℕ Text → Option ℕ → Found → ℕ → Text → Text → Text → Found
add_kickout app_names only f app dimension source bridge =
    let key = kickout_key app dimension source in
    if is_empty source
    then f
    else if filtered_out only app
    then f
    else if any (λ k. k == key) f.seen
    then f
    else record {
      seen = key ∷ f.seen;
      out = f.out ++ member app_names app dimension source bridge ∷ [];
    }

abbrev pub bridge_or_empty : Option BridgeMapping → Text
bridge_or_empty none = []
bridge_or_empty (some m) = m.bridge_member

abbrev pub needs_attention : Option BridgeMapping → Bool
needs_attention none = true
needs_attention (some m) = is_kickout_member m.bridge_member

module _ (app_names : Dict ℕ Text) (only : Option ℕ) (lookup : Lookup) where
  -- The body of the inner loop over the dimensions of one row.
  unfoldable pub discover_dimension : ImportedRow → Found → Text → Found
  discover_dimension row f d =
      let source = data_value row.cells d in
      let mapping = find_mapping lookup row.app_number d source in
      if is_amount_dimension d
      then f
      else if needs_attention mapping
      then add_kickout app_names only f row.app_number d source (bridge_or_empty mapping)
      else f

  unfoldable pub discover_dimensions : ImportedRow → Found → List Text → Found
  discover_dimensions row f [] = f
  discover_dimensions row f (d ∷ ds) = discover_dimensions row (discover_dimension row f d) ds

  -- The loop over the rows: apps with no mapping yet are skipped.
  unfoldable pub discover_rows : List ℕ → List Text → Found → List ImportedRow → Found
  discover_rows mapped names f [] = f
  discover_rows mapped names f (row ∷ rows) =
      discover_rows mapped names
        (if any (λ n. n == row.app_number) mapped then discover_dimensions row f names else f) rows

-- The body of the loop over the mappings.
unfoldable pub discover_mapping : Dict ℕ Text → Option ℕ → Aliases → Found → BridgeMapping → Found
discover_mapping app_names only aliases f m =
    if filtered_out only m.app_number
    then f
    else if is_kickout_member m.bridge_member
    then add_kickout app_names only f m.app_number
        (canonical_dimension_name m.dimension_name m.app_number aliases) m.source_member
        m.bridge_member
    else f

unfoldable pub discover_mappings :
    Dict ℕ Text → Option ℕ → Aliases → Found → List BridgeMapping → Found
discover_mappings app_names only aliases f [] = f
discover_mappings app_names only aliases f (m ∷ ms) =
    discover_mappings app_names only aliases (discover_mapping app_names only aliases f m) ms

-- (app_number, dimension_name, source_member), as tuples compare.
unfoldable pub member_leb : KickoutMember → KickoutMember → Bool
unfolding text_leb
member_leb a b =
    ltb a.app_number b.app_number
    || (nat_beq a.app_number b.app_number
        && ((not (a.dimension_name == b.dimension_name)
              && text_leb a.dimension_name b.dimension_name)
            || (a.dimension_name == b.dimension_name && text_leb a.source_member b.source_member)))

unfoldable pub discover_kickout_members :
    List ImportedRow
    → List Text
    → Lookup
    → List BridgeMapping
    → Dict ℕ Text
    → Option ℕ
    → Aliases
    → List KickoutMember
discover_kickout_members rows names lookup mappings app_names only aliases =
    let start : Found = record { seen = []; out = [] } in
    let mapped = map (λ m. m.app_number) mappings in
    let from_rows = discover_rows app_names only lookup mapped names start rows in
    sort_by member_leb (discover_mappings app_names only aliases from_rows mappings).out
