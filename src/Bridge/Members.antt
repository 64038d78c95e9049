-- ===== src/Bridge/Members.antt =====
-- The table of bridge mappings: the endpoints of app/api/v1/endpoints/bridge_mappings.py that read
-- and write one mapping, and the query and the check that they share.
pub mod Requests
pub mod Seeding
pub mod Importing
pub mod Export
pub mod Reimport
pub mod Keys
pub mod Rows
pub mod Index
pub mod Loop
pub mod Batches
pub mod Imports
pub mod KickoutRequests
pub mod KickoutKeys
pub mod Resolving
pub mod Elsewhere
pub mod Steps
pub mod Defaults
use dart_backend.Prelude.{
  ℕ, Bool, true, false, ◌||◌, ◌&&◌, not, Option, none, some, List, [], ◌∷◌, ◌++◌, if◌then◌else◌,
  keep, map, length, any, all, find, take, drop, leb, ltb, nat_beq, nat_eq, list_eq, pair_eq,
  list_beq, or_else, ◌==◌, is_some,
}
use dart_backend.Prelude.Dict.{Dict, get}
use dart_backend.Prelude.Sorting.{sort_by}
use dart_backend.Prelude.Text.{Text, txt, lower, strip, number_text}
use dart_backend.Prelude.Results.{
  Exception, Result, ok, raised, raise_if, ◌>>=◌, ◌>>◌, app_error, conflict_error, not_found_error,
  integrity_error, other_error,
}
use dart_backend.Security.{Tables, Account, get_accessible_recon}
use dart_backend.Bridge.{
  BridgeMapping, MappingKey, Aliases, kickout_sentinel, mapping_key, is_amount_dimension,
  canonical_dimension_name,
}

-- A row of `bridge_mappings`; the two stamps are left out.
pub record StoredMapping : Type 0 where
  pub id : ℕ
  pub recon_id : ℕ
  pub mapping : BridgeMapping

abbrev pub Table : Type 0
Table = List StoredMapping

-- `ReportSignoff` (app/models/report.py); its table holds one row of an app at most.
pub record ReportSignoff : Type 0 where
  pub recon_id : ℕ
  pub app_number : ℕ
  pub signed_off : Bool

-- What a request reads besides the mappings: the tables of the access check, the caller, the recon
-- of the path, the sign-offs, and what `load_dimension_aliases` and `load_app_names` return.
pub record Request : Type 0 where
  pub tables : Tables
  pub user : Account
  pub recon_id : ℕ
  pub signoffs : List ReportSignoff
  pub aliases : Aliases
  pub app_names : Dict ℕ Text

unfoldable pub assert_app_not_signed_off : List ReportSignoff → ℕ → ℕ → Result (Unit {0})
assert_app_not_signed_off signoffs recon_id app_number =
    raise_if
      (any (λ s. nat_beq s.recon_id recon_id && nat_beq s.app_number app_number && s.signed_off)
        signoffs)
      (app_error
        (txt "App " ++ number_text app_number ++ txt " is signed-off. Changes cannot be made.")
        (txt "recon_signed_off"))

-- The columns of the unique constraint, and those of the key that the code compares.
abbrev pub same_columns : StoredMapping → StoredMapping → Bool
same_columns s t =
    nat_beq s.recon_id t.recon_id
    && nat_beq s.mapping.app_number t.mapping.app_number
    && s.mapping.dimension_name == t.mapping.dimension_name
    && s.mapping.source_member == t.mapping.source_member

abbrev pub stored_key : StoredMapping → ℕ × MappingKey
stored_key s =
    (s.recon_id, mapping_key s.mapping.app_number s.mapping.dimension_name s.mapping.source_member)

-- The primary key and the unique constraint.
unfoldable pub is_unique : Table → Bool
is_unique [] = true
is_unique (s ∷ table) =
    not (any (λ t. nat_beq t.id s.id || same_columns t s) table) && is_unique table

abbrev pub in_range : StoredMapping → Bool
in_range s = leb 1 s.mapping.app_number && leb s.mapping.app_number 5

abbrev pub fits : ℕ → Text → Bool
fits size text = leb (length text) size

abbrev pub row_fits : BridgeMapping → Bool
row_fits m =
    fits 200 m.dimension_name
    && fits 500 m.source_member
    && fits 500 m.bridge_member
    && fits 1000 (or_else m.dim_comment [])
    && fits 1000 (or_else m.bridge_comment [])
    && fits 1000 (or_else m.je_comment [])

-- `db.commit()`: a text that is longer than its column, or a broken constraint, raises.
unfoldable pub commit : Table → Result Table
commit table =
    if not (all (λ s. row_fits s.mapping) table)
    then raised other_error
    else if all in_range table && is_unique table
    then ok table
    else raised integrity_error

-- The rows of an app of a recon, and the others.
abbrev pub is_of : ℕ → ℕ → StoredMapping → Bool
is_of recon_id app_number s = nat_beq s.recon_id recon_id && nat_beq s.mapping.app_number app_number

abbrev pub rows_of : ℕ → Table → Table
rows_of recon_id table = keep (λ s. nat_beq s.recon_id recon_id) table

-- `delete(BridgeMapping).where(...)`
unfoldable pub delete_app : ℕ → ℕ → Table → Table
delete_app recon_id app_number table = keep (λ s. not (is_of recon_id app_number s)) table

abbrev pub is_mapping : ℕ → ℕ → StoredMapping → Bool
is_mapping recon_id mapping_id s = nat_beq s.recon_id recon_id && nat_beq s.id mapping_id

unfoldable pub get_mapping : Table → ℕ → ℕ → Result StoredMapping
get_mapping table recon_id mapping_id = elim (find (is_mapping recon_id mapping_id) table) [
  | none ↦ raised (not_found_error (txt "Bridge mapping not found"))
  | some s ↦ ok s
]

unfoldable pub find_existing : Table → ℕ → ℕ → Text → Text → Option StoredMapping
unfolding mapping_key list_beq
find_existing table recon_id app_number dimension_name source_member =
    find
      (λ s.
        mapping_key s.mapping.app_number s.mapping.dimension_name s.mapping.source_member
        == mapping_key app_number dimension_name source_member)
      (keep (is_of recon_id app_number) table)

abbrev pub mapping_exists : Text
mapping_exists = txt "A mapping for this app/dimension/source value already exists."

abbrev pub not_bridgeable : Exception
not_bridgeable =
    app_error (txt "AMOUNT is a measure, not a bridge-mapped dimension.") (txt "not_bridgeable")

-- `except IntegrityError`
abbrev pub commit_or_conflict : Result Table → Result Table
commit_or_conflict (ok table) = ok table
commit_or_conflict (raised integrity_error) = raised (conflict_error mapping_exists)
commit_or_conflict (raised e) = raised e
