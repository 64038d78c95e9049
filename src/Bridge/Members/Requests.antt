-- ===== src/Bridge/Members/Requests.antt =====
-- The endpoints of app/api/v1/endpoints/bridge_mappings.py that read and write one mapping, and the list.
use dart_backend.Prelude.{
  ℕ, Bool, ◌||◌, ◌&&◌, not, Option, none, some, List, [], ◌∷◌, ◌++◌, if◌then◌else◌, keep, map,
  length, take, drop, ltb, nat_beq, nat_eq, list_eq, pair_eq, list_beq, or_else, ◌==◌, is_some,
}
use dart_backend.Prelude.Dict.{Dict, get}
use dart_backend.Prelude.Sorting.{sort_by}
use dart_backend.Prelude.Text.{Text, txt, lower, strip, number_text}
use dart_backend.Prelude.Results.{
  Result, ok, raised, raise_if, ◌>>=◌, conflict_error, integrity_error, other_error,
}
use dart_backend.Security.{get_accessible_recon}
use dart_backend.Bridge.{
  BridgeMapping, kickout_sentinel, is_amount_dimension, canonical_dimension_name,
}
use dart_backend.Bridge.Members.{
  StoredMapping, Table, Request, assert_app_not_signed_off, commit, is_of, get_mapping,
  find_existing, mapping_exists, not_bridgeable, commit_or_conflict,
}

-- `BridgeMappingRead` and `_to_read`
pub record BridgeMappingRead : Type 0 where
  pub id : ℕ
  pub recon_id : ℕ
  pub app_name : Option Text
  pub app_type : Text
  pub mapping : BridgeMapping
  pub is_kickout : Bool

unfoldable pub to_read : Dict ℕ Text → StoredMapping → BridgeMappingRead
unfolding get lower strip list_beq
to_read app_names s = record {
  id = s.id;
  recon_id = s.recon_id;
  app_name = get s.mapping.app_number app_names;
  app_type = txt "App" ++ number_text s.mapping.app_number;
  mapping = s.mapping;
  is_kickout = lower (strip s.mapping.bridge_member) == kickout_sentinel;
}

-- The test for a mapping of the key, under the common name and under the name of the body.
unfoldable pub is_taken : Request → BridgeMapping → Text → Table → Bool
unfolding list_beq
is_taken q body dimension_name table =
    is_some (find_existing table q.recon_id body.app_number dimension_name body.source_member)
    || (not (dimension_name == body.dimension_name)
        && is_some
            (find_existing table q.recon_id body.app_number body.dimension_name body.source_member))

abbrev pub new_row : Request → ℕ → BridgeMapping → Text → StoredMapping
new_row q new_id body dimension_name = record {
  id = new_id;
  recon_id = q.recon_id;
  mapping = record body { dimension_name = dimension_name };
}

-- The body of the request has the fields of a mapping.
unfoldable pub create_bridge_mapping :
    Request → (new_id : ℕ) → BridgeMapping → Table → Result (Table × BridgeMappingRead)
create_bridge_mapping q new_id body table = do
  recon ← get_accessible_recon q.tables q.user q.recon_id
  allowed ← assert_app_not_signed_off q.signoffs q.recon_id body.app_number
  let dimension_name = canonical_dimension_name body.dimension_name body.app_number q.aliases
  measured ← raise_if (is_amount_dimension dimension_name) not_bridgeable
  taken ← raise_if (is_taken q body dimension_name table) (conflict_error mapping_exists)
  let s = new_row q new_id body dimension_name
  saved ← commit_or_conflict (commit (table ++ s ∷ []))
  ok (saved, to_read q.app_names s)

-- The fields that the body sets; a field that is set to null holds none.
pub record BridgeMappingUpdate : Type 0 where
  pub source_member : Option (Option Text)
  pub bridge_member : Option (Option Text)
  pub flip_sign : Option (Option Bool)
  pub dim_comment : Option (Option Text)
  pub bridge_comment : Option (Option Text)
  pub je_comment : Option (Option Text)
  pub is_invalid : Option (Option Bool)

-- A column that cannot be null: the commit rejects it.
abbrev pub set_required : {A : Type 0} → Option (Option A) → A → Result A
set_required none old = ok old
set_required (some none) old = raised integrity_error
set_required (some (some a)) old = ok a

unfoldable pub apply_updates : BridgeMappingUpdate → BridgeMapping → Result BridgeMapping
apply_updates u m = do
  source_member ← set_required u.source_member m.source_member
  bridge_member ← set_required u.bridge_member m.bridge_member
  flip_sign ← set_required u.flip_sign m.flip_sign
  is_invalid ← set_required u.is_invalid m.is_invalid
  ok (record {
    app_number = m.app_number;
    dimension_name = m.dimension_name;
    source_member = source_member;
    bridge_member = bridge_member;
    flip_sign = flip_sign;
    dim_comment = or_else u.dim_comment m.dim_comment;
    bridge_comment = or_else u.bridge_comment m.bridge_comment;
    je_comment = or_else u.je_comment m.je_comment;
    is_invalid = is_invalid;
  })

-- A source member that is set is looked for first; `None.strip()` raises.
unfoldable pub check_source :
    Request → Table → StoredMapping → Option (Option Text) → Result (Unit {0})
check_source q table s none = ok tt
check_source q table s (some none) = raised other_error
check_source q table s (some (some source)) =
    elim (find_existing table q.recon_id s.mapping.app_number s.mapping.dimension_name source) [
      | none ↦ ok tt
      | some existing ↦ raise_if (not (nat_beq existing.id s.id)) (conflict_error mapping_exists)
    ]

-- The row of a primary key takes another mapping.
abbrev pub write_mapping : ℕ → BridgeMapping → StoredMapping → StoredMapping
write_mapping id m s = if nat_beq s.id id then record s { mapping = m } else s

unfoldable pub update_bridge_mapping :
    Request → ℕ → BridgeMappingUpdate → Table → Result (Table × BridgeMappingRead)
update_bridge_mapping q mapping_id body table = do
  recon ← get_accessible_recon q.tables q.user q.recon_id
  s ← get_mapping table q.recon_id mapping_id
  allowed ← assert_app_not_signed_off q.signoffs q.recon_id s.mapping.app_number
  free ← check_source q table s body.source_member
  m ← apply_updates body s.mapping
  saved ← commit (map {A = StoredMapping} (write_mapping s.id m) table)
  ok (saved, to_read q.app_names (record s { mapping = m }))

unfoldable pub delete_bridge_mapping : Request → ℕ → Table → Result Table
delete_bridge_mapping q mapping_id table = do
  recon ← get_accessible_recon q.tables q.user q.recon_id
  s ← get_mapping table q.recon_id mapping_id
  allowed ← assert_app_not_signed_off q.signoffs q.recon_id s.mapping.app_number
  commit (keep (λ t. not (nat_beq t.id s.id)) table)

-- `.order_by(app_number, dimension_name, source_member)`, where the collation of the database
-- compares texts.
abbrev pub in_order : (Text → Text → Bool) → StoredMapping → StoredMapping → Bool
in_order collate s t =
    ltb s.mapping.app_number t.mapping.app_number
    || (nat_beq s.mapping.app_number t.mapping.app_number
        && (not (collate t.mapping.dimension_name s.mapping.dimension_name)
            || (collate s.mapping.dimension_name t.mapping.dimension_name
                && collate s.mapping.source_member t.mapping.source_member)))

-- `if app_number is not None: filters.append(...)`
abbrev pub is_selected : ℕ → Option ℕ → StoredMapping → Bool
is_selected recon_id none s = nat_beq s.recon_id recon_id
is_selected recon_id (some app_number) s = is_of recon_id app_number s

unfoldable pub selected : (Text → Text → Bool) → ℕ → Option ℕ → Table → Table
selected collate recon_id app_number table =
    sort_by (in_order collate) (keep (is_selected recon_id app_number) table)

-- The total count of the header, and the page.
unfoldable pub list_bridge_mappings :
    (Text → Text → Bool)
    → Request
    → (offset page_size : ℕ) → Option ℕ
    → Table
    → Result (ℕ × List BridgeMappingRead)
list_bridge_mappings collate q offset page_size app_number table = do
  recon ← get_accessible_recon q.tables q.user q.recon_id
  let rows = selected collate q.recon_id app_number table
  ok (
    length (keep (is_selected q.recon_id app_number) table),
    map {A = StoredMapping} (to_read q.app_names) (take page_size (drop offset rows)),
  )
