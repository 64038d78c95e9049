-- ===== src/Bridge/Members/Seeding.antt =====
-- `default_bridge_mappings` of app/api/v1/endpoints/bridge_mappings.py: the identity mappings of the
-- imported values of an app.
use dart_backend.Prelude.{
  ℕ, suc, false, ◌||◌, ◌&&◌, none, List, [], ◌∷◌, ◌++◌, if◌then◌else◌, keep, map, any, ◌==◌,
  nat_beq, nat_eq, list_eq, pair_eq, list_beq,
}
use dart_backend.Prelude.Dict.{Dict}
use dart_backend.Prelude.Text.{Text, is_empty}
use dart_backend.Prelude.Results.{Result, ok, ◌>>=◌}
use dart_backend.Security.{get_accessible_recon}
use dart_backend.Bridge.{BridgeMapping, ImportedRow, MappingKey, data_value, mapping_key}
use dart_backend.Bridge.Members.{
  Request, Table, StoredMapping, assert_app_not_signed_off, delete_app, commit,
}
use dart_backend.Bridge.Members.Requests.{BridgeMappingRead, to_read}

-- The local variables of the loops: the keys seen, and the rows created with their identifiers.
pub record Seeds : Type 0 where
  pub seen : List MappingKey
  pub created : Table
  pub next_id : ℕ

abbrev pub identity_mapping : ℕ → Text → Text → BridgeMapping
identity_mapping app_number dim_name value = record {
  app_number = app_number;
  dimension_name = dim_name;
  source_member = value;
  bridge_member = value;
  flip_sign = false;
  dim_comment = none;
  bridge_comment = none;
  je_comment = none;
  is_invalid = false;
}

module _ (recon_id app_number : ℕ) where
  -- The body of the inner loop.
  unfoldable pub seed_value : Text → Text → Seeds → Seeds
  unfolding mapping_key list_beq
  seed_value dim_name value seeds =
      let key = mapping_key app_number dim_name value in
      if is_empty value || any (λ k. k == key) seeds.seen then seeds else record {
        seen = seeds.seen ++ key ∷ [];
        created =
            seeds.created
            ++ record {
              id = seeds.next_id;
              recon_id = recon_id;
              mapping = identity_mapping app_number dim_name value;
            }
              ∷ [];
        next_id = suc seeds.next_id;
      }

  unfoldable pub seed_row : Dict Text Text → List Text → Seeds → Seeds
  seed_row cells [] seeds = seeds
  seed_row cells (d ∷ ds) seeds = seed_row cells ds (seed_value d (data_value cells d) seeds)

  unfoldable pub seed_rows : List Text → List ImportedRow → Seeds → Seeds
  seed_rows dim_names [] seeds = seeds
  seed_rows dim_names (row ∷ rows) seeds =
      seed_rows dim_names rows (seed_row row.cells dim_names seeds)

-- The mappings that are created, from the rows of the recon and the app.
unfoldable pub seeds_of : Request → (next_id : ℕ) → List Text → List ImportedRow → ℕ → Table
seeds_of q next_id dim_names imported app_number =
    let rows =
      keep (λ r. nat_beq r.recon_id q.recon_id && nat_beq r.app_number app_number) imported in
    (seed_rows q.recon_id app_number dim_names rows
      (record { seen = []; created = []; next_id = next_id })).created

-- `dim_names` are those of `load_bridged_dimensions`.
unfoldable pub default_bridge_mappings :
    Request
    → (next_id : ℕ) → List Text
    → List ImportedRow
    → ℕ
    → Table
    → Result (Table × List BridgeMappingRead)
default_bridge_mappings q next_id dim_names imported app_number table = do
  recon ← get_accessible_recon q.tables q.user q.recon_id
  allowed ← assert_app_not_signed_off q.signoffs q.recon_id app_number
  let created = seeds_of q next_id dim_names imported app_number
  saved ← commit (delete_app q.recon_id app_number table ++ created)
  ok (saved, map {A = StoredMapping} (to_read q.app_names) created)
