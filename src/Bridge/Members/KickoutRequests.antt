-- ===== src/Bridge/Members/KickoutRequests.antt =====
-- The endpoints of app/api/v1/endpoints/bridge_kickouts.py: the list, the export, and the two that
-- write the table of bridge mappings.
use dart_backend.Prelude.{
  ℕ, suc, Bool, nat_eq, list_eq, pair_eq, false, Option, none, some, List, [], ◌∷◌, ◌++◌, not,
  if◌then◌else◌, keep, map, length, take, drop, nat_beq,
}
use dart_backend.Prelude.Csv.{write_rows}
use dart_backend.Prelude.Dict.{get, put}
use dart_backend.Prelude.Text.{Text, txt, number_text}
use dart_backend.Prelude.Results.{Result, ok, raise_if, ◌>>=◌}
use dart_backend.Security.{get_accessible_recon}
use dart_backend.Bridge.{
  BridgeMapping, ImportedRow, Lookup, MappingKey, mapping_key, is_amount_dimension,
}
use dart_backend.Bridge.Lookup.{mapping_lookup_for_recon, bridged_dimensions}
use dart_backend.Bridge.Kickouts.{KickoutMember, discover_kickout_members, filtered_out}
use dart_backend.Bridge.Members.{
  Request, Table, StoredMapping, assert_app_not_signed_off, commit, rows_of, find_existing,
  not_bridgeable, same_columns,
}
use dart_backend.Bridge.Members.Requests.{BridgeMappingRead, to_read}
use dart_backend.Bridge.Members.Seeding.{identity_mapping}

-- `load_mappings`
abbrev pub recon_mappings : Request → Table → List BridgeMapping
recon_mappings q table = map {A = StoredMapping} (λ s. s.mapping) (rows_of q.recon_id table)

abbrev pub recon_rows : Request → List ImportedRow → List ImportedRow
recon_rows q imported = keep (λ r. nat_beq r.recon_id q.recon_id) imported

-- `dimensions` are the names of the recon's dimensions in order of position.
unfoldable pub lookup_of : Request → List Text → List ImportedRow → Table → Lookup
lookup_of q dimensions imported table =
    mapping_lookup_for_recon (recon_mappings q table) q.aliases dimensions (recon_rows q imported)

unfoldable pub kickouts_for_recon :
    Request → List Text → List ImportedRow → Option ℕ → Table → List KickoutMember
kickouts_for_recon q dimensions imported app_number table =
    discover_kickout_members
      (keep (λ r. not (filtered_out app_number r.app_number)) (recon_rows q imported))
      (bridged_dimensions dimensions) (lookup_of q dimensions imported table)
      (recon_mappings q table) q.app_names app_number q.aliases

-- `BridgeKickoutRead` repeats three of its fields under other names.
pub record BridgeKickoutRead : Type 0 where
  pub member : KickoutMember
  pub app_type : Text

abbrev to_kickout_read : KickoutMember → BridgeKickoutRead
to_kickout_read k = record { member = k; app_type = txt "App" ++ number_text k.app_number }

unfoldable pub list_bridge_kickouts :
    Request
    → List Text
    → List ImportedRow
    → (offset page_size : ℕ) → Option ℕ
    → Table
    → Result (ℕ × List BridgeKickoutRead)
list_bridge_kickouts q dimensions imported offset page_size app_number table = do
  recon ← get_accessible_recon q.tables q.user q.recon_id
  let items = kickouts_for_recon q dimensions imported app_number table
  ok (length items, map to_kickout_read (take page_size (drop offset items)))

abbrev kickout_header : List Text
kickout_header =
    txt "app_name" ∷ txt "Common_dimension_name" ∷ txt "Source_member" ∷ txt "Bridge_member" ∷ []

-- `item.app_name or f"App{item.app_number}"`
abbrev app_label : Option Text → ℕ → Text
app_label none app = txt "App" ++ number_text app
app_label (some []) app = txt "App" ++ number_text app
app_label (some (c ∷ s)) app = c ∷ s

abbrev kickout_record : KickoutMember → List Text
kickout_record k =
    app_label k.app_name k.app_number ∷ k.dimension_name ∷ k.source_member ∷ k.bridge_member ∷ []

unfoldable pub export_bridge_kickouts :
    Request → List Text → List ImportedRow → Option ℕ → Table → Result Text
export_bridge_kickouts q dimensions imported app_number table = do
  recon ← get_accessible_recon q.tables q.user q.recon_id
  ok (
      write_rows (
        kickout_header
        ∷ map kickout_record (kickouts_for_recon q dimensions imported app_number table)))

-- What the body writes over an existing row; its app, dimension and source member stay.
abbrev pub resolved_mapping : BridgeMapping → BridgeMapping → BridgeMapping
resolved_mapping body m = record body {
  app_number = m.app_number;
  dimension_name = m.dimension_name;
  source_member = m.source_member;
  is_invalid = false;
}

abbrev pub resolve_row : ℕ → BridgeMapping → StoredMapping → StoredMapping
resolve_row id body s =
    if nat_beq s.id id then record s { mapping = resolved_mapping body s.mapping } else s

-- The row that the request answers with.
abbrev pub resolved_row : Request → ℕ → BridgeMapping → Option StoredMapping → StoredMapping
resolved_row q new_id body (some s) = record s { mapping = resolved_mapping body s.mapping }
resolved_row q new_id body none = record {
  id = new_id;
  recon_id = q.recon_id;
  mapping = record body { is_invalid = false };
}

abbrev pub resolved_rows : Request → ℕ → BridgeMapping → Option StoredMapping → Table → Table
resolved_rows q new_id body (some s) table = map {A = StoredMapping} (resolve_row s.id body) table
resolved_rows q new_id body none table = table ++ resolved_row q new_id body none ∷ []

-- The body has the fields of a mapping but `is_invalid`, which is not read.
unfoldable pub resolve_bridge_kickout :
    Request → (new_id : ℕ) → BridgeMapping → Table → Result (Table × BridgeMappingRead)
resolve_bridge_kickout q new_id body table = do
  recon ← get_accessible_recon q.tables q.user q.recon_id
  allowed ← assert_app_not_signed_off q.signoffs q.recon_id body.app_number
  measured ← raise_if (is_amount_dimension body.dimension_name) not_bridgeable
  let existing =
      find_existing table q.recon_id body.app_number body.dimension_name body.source_member
  saved ← commit (resolved_rows q new_id body existing table)
  ok (saved, to_read q.app_names (resolved_row q new_id body existing))

-- The local variables of the loop. A mapping of the index and of `touched` stands for the object of
-- the session, which the columns of the unique constraint tell from the others of the recon.
pub record Defaulting : Type 0 where
  pub rows : Table
  pub lookup : Lookup
  pub touched : List BridgeMapping
  pub next_id : ℕ

abbrev pub is_object : ℕ → BridgeMapping → StoredMapping → Bool
is_object recon_id m s = same_columns (record { id = s.id; recon_id = recon_id; mapping = m }) s

abbrev pub default_row : ℕ → BridgeMapping → Text → StoredMapping → StoredMapping
default_row recon_id m source s =
    if is_object recon_id m s
    then record s {
      mapping = record s.mapping { bridge_member = source; flip_sign = false; is_invalid = false };
    }
    else s

-- The two branches of the body of the loop.
unfoldable pub default_at :
    ℕ → KickoutMember → MappingKey → Option BridgeMapping → Defaulting → Defaulting
default_at recon_id k key (some m) st = record st {
  rows = map {A = StoredMapping} (default_row recon_id m k.source_member) st.rows;
  touched = st.touched ++ m ∷ [];
}
default_at recon_id k key none st =
    let created = identity_mapping k.app_number k.dimension_name k.source_member in
    record {
      rows = st.rows ++ record { id = st.next_id; recon_id = recon_id; mapping = created } ∷ [];
      lookup = put key created st.lookup;
      touched = st.touched ++ created ∷ [];
      next_id = suc st.next_id;
    }

unfoldable pub default_kickouts : ℕ → List KickoutMember → Defaulting → Defaulting
default_kickouts recon_id [] st = st
default_kickouts recon_id (k ∷ ks) st =
    let key = mapping_key k.app_number k.dimension_name k.source_member in
    default_kickouts recon_id ks (default_at recon_id k key (get key st.lookup) st)

-- The items are in the order of their apps, and so is the set of small numbers.
unfoldable pub assert_apps_open : Request → List KickoutMember → Result (Unit {0})
assert_apps_open q [] = ok tt
assert_apps_open q (k ∷ ks) = do
  allowed ← assert_app_not_signed_off q.signoffs q.recon_id k.app_number
  assert_apps_open q ks

abbrev touched_objects : ℕ → List BridgeMapping → Table → Table
touched_objects recon_id [] saved = []
touched_objects recon_id (m ∷ ms) saved =
    keep (is_object recon_id m) saved ++ touched_objects recon_id ms saved

unfoldable pub default_bridge_kickouts :
    Request
    → (next_id : ℕ) → List Text
    → List ImportedRow
    → Option ℕ
    → Table
    → Result (Table × List BridgeMappingRead)
default_bridge_kickouts q next_id dimensions imported app_number table = do
  recon ← get_accessible_recon q.tables q.user q.recon_id
  let items = kickouts_for_recon q dimensions imported app_number table
  allowed ← assert_apps_open q items
  let start : Defaulting = record {
    rows = table;
    lookup = lookup_of q dimensions imported table;
    touched = [];
    next_id = next_id;
  }
  let done = default_kickouts q.recon_id items start
  saved ← commit done.rows
  ok (
    saved,
    map {A = StoredMapping} (to_read q.app_names) (touched_objects q.recon_id done.touched saved),
  )
