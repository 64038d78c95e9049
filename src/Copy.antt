-- ===== src/Copy.antt =====
-- Save As: `copy_recon` of app/services/recon_copy.py, over the tables of recons and of their
-- configuration. Their identifiers are given by the caller.
pub mod Rows
pub mod Clone
use dart_backend.Prelude.{
  ℕ, suc, Bool, true, false, ◌&&◌, not, Option, none, some, List, [], ◌∷◌, ◌++◌, if◌then◌else◌,
  keep, map, any, leb, nat_beq, nat_eq, list_eq, list_beq, ◌==◌, is_some,
}
use dart_backend.Prelude.Sorting.{sort_by}
use dart_backend.Prelude.Text.{Text, txt}
use dart_backend.Prelude.Results.{Result, ok, raised, raise_if, ◌>>=◌, integrity_error}
use dart_backend.Import.Run.{DimensionMapping}
use dart_backend.Sync.{SyncMapping}
use dart_backend.Bridge.Members.{StoredMapping}

-- A recon, with the groups that it is linked to (app/models/recon.py).
pub record ReconRow : Type 0 where
  pub id : ℕ
  pub name : Text
  pub description : Option Text
  pub owner_id : ℕ
  pub status : Text
  pub archived : Bool
  pub deleted_at : Option ℕ
  pub groups : List ℕ

-- An app of a recon, and a dimension with its mappings (app/models/dimension.py).
pub record AppRow : Type 0 where
  pub recon_id : ℕ
  pub app_number : ℕ
  pub name : Text
  pub description : Option Text
  pub delimiter : Text
  pub currency_delimiter : Option Text
  pub currency_symbol : Option Text
  pub thousands_separator : Text
  pub has_header : Bool
  pub global_variable_id : Option ℕ

pub record MappingRow : Type 0 where
  pub mapping : DimensionMapping
  pub is_active : Bool

pub record DimensionRow : Type 0 where
  pub recon_id : ℕ
  pub name : Text
  pub position : ℕ
  pub mappings : List MappingRow

pub record Database : Type 0 where
  pub recons : List ReconRow
  pub apps : List AppRow
  pub dimensions : List DimensionRow
  pub bridge_mappings : List StoredMapping
  pub sync_mappings : List SyncMapping

-- The new rows: each takes the recon of the clone, and the columns of the row that it copies.
abbrev pub copy_app : ℕ → AppRow → AppRow
copy_app clone app = record {
  recon_id = clone;
  app_number = app.app_number;
  name = app.name;
  description = app.description;
  delimiter = app.delimiter;
  currency_delimiter = app.currency_delimiter;
  currency_symbol = app.currency_symbol;
  thousands_separator = app.thousands_separator;
  has_header = app.has_header;
  global_variable_id = app.global_variable_id;
}

abbrev pub copy_dimension_mapping : MappingRow → MappingRow
copy_dimension_mapping m = record {
  mapping = record {
    app_number = m.mapping.app_number;
    in_file = m.mapping.in_file;
    column_location = m.mapping.column_location;
    default_value = m.mapping.default_value;
  };
  is_active = m.is_active;
}

abbrev pub copy_dimension : ℕ → DimensionRow → DimensionRow
copy_dimension clone dimension = record {
  recon_id = clone;
  name = dimension.name;
  position = dimension.position;
  mappings = map copy_dimension_mapping dimension.mappings;
}

abbrev pub copy_mapping : ℕ → ℕ → StoredMapping → StoredMapping
copy_mapping clone new_id s = record {
  id = new_id;
  recon_id = clone;
  mapping = record {
    app_number = s.mapping.app_number;
    dimension_name = s.mapping.dimension_name;
    source_member = s.mapping.source_member;
    bridge_member = s.mapping.bridge_member;
    flip_sign = s.mapping.flip_sign;
    dim_comment = s.mapping.dim_comment;
    bridge_comment = s.mapping.bridge_comment;
    je_comment = s.mapping.je_comment;
    is_invalid = s.mapping.is_invalid;
  };
}

unfoldable pub copy_mappings : ℕ → (next_id : ℕ) → List StoredMapping → List StoredMapping
copy_mappings clone next_id [] = []
copy_mappings clone next_id (s ∷ table) =
    copy_mapping clone next_id s ∷ copy_mappings clone (suc next_id) table

abbrev pub copy_sync : ℕ → SyncMapping → SyncMapping
copy_sync clone m = record {
  recon_id = clone;
  app_number = m.app_number;
  dimension_names = m.dimension_names;
  concat_delimiter = m.concat_delimiter;
  source_sync = m.source_sync;
  target_sync = m.target_sync;
  flip_sign = m.flip_sign;
}

-- The rows of the queries on a recon.
abbrev pub apps_of : ℕ → Database → List AppRow
apps_of recon db = keep (λ a. nat_beq a.recon_id recon) db.apps

abbrev pub by_position : DimensionRow → DimensionRow → Bool
by_position a b = leb a.position b.position

abbrev pub dimensions_of : ℕ → Database → List DimensionRow
dimensions_of recon db = sort_by by_position (keep (λ d. nat_beq d.recon_id recon) db.dimensions)

abbrev pub mappings_of : ℕ → Database → List StoredMapping
mappings_of recon db = keep (λ s. nat_beq s.recon_id recon) db.bridge_mappings

abbrev pub syncs_of : ℕ → Database → List SyncMapping
syncs_of recon db = keep (λ m. nat_beq m.recon_id recon) db.sync_mappings

-- The partial unique index on the names of the recons that are not deleted.
unfoldable pub name_is_live : Text → List ReconRow → Bool
unfolding list_beq
name_is_live name recons = any (λ r. r.name == name && not (is_some r.deleted_at)) recons

abbrev pub new_recon : ReconRow → (clone : ℕ) → Text → (owner group : ℕ) → ReconRow
new_recon source clone name owner group = record {
  id = clone;
  name = name;
  description = source.description;
  owner_id = owner;
  status = txt "Created";
  archived = false;
  deleted_at = none;
  groups = group ∷ [];
}

-- `clone` is the identifier of the new recon and `next_id` that of its first bridge mapping.
unfoldable pub copy_recon :
    (source : ReconRow) (clone next_id : ℕ) (name : Text) (owner group : ℕ)
    → Database
    → Result Database
copy_recon source clone next_id name owner group db = do
  unused ← raise_if (name_is_live name db.recons) integrity_error
  ok (record {
    recons = db.recons ++ new_recon source clone name owner group ∷ [];
    apps = db.apps ++ map (copy_app clone) (apps_of source.id db);
    dimensions = db.dimensions ++ map (copy_dimension clone) (dimensions_of source.id db);
    bridge_mappings = db.bridge_mappings ++ copy_mappings clone next_id (mappings_of source.id db);
    sync_mappings = db.sync_mappings ++ map (copy_sync clone) (syncs_of source.id db);
  })
