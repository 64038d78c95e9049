-- ===== src/Bridge/Lookup/Sound.antt =====
-- The entries of `build_mapping_lookup` (app/services/bridge_resolve.py).
use dart_backend.Prelude.{
  ℕ, ◌≡◌, subst, sym, inl, inr, ◌⊎◌, true, false, some, List, [], ◌∷◌, arith, list_eq, nat_eq,
  pair_eq, ◌==◌, ==_iff, ==_refl, eq_of_==, Bool-cases, In,
}
use dart_backend.Prelude.Dict.{get, put, has, get-put, get-nil}
use dart_backend.Prelude.Text.{Text, strip, lower}
use dart_backend.Bridge.{
  BridgeMapping, Lookup, Aliases, MappingKey, mapping_key, canonical_dimension_name,
}
use dart_backend.Bridge.Lookup.{index_mapping, index_mappings, build_mapping_lookup}

-- The key under the common name, and the key under the name as it is stored.
abbrev pub common_key : Aliases → BridgeMapping → MappingKey
common_key aliases m =
    mapping_key m.app_number (canonical_dimension_name m.dimension_name m.app_number aliases)
      m.source_member

abbrev pub stored_key : BridgeMapping → MappingKey
stored_key m = mapping_key m.app_number m.dimension_name m.source_member

-- `m` may stand at `k`: it is valid, and `k` is one of its keys.
abbrev pub Belongs : Aliases → MappingKey → BridgeMapping → Type 0
Belongs aliases k m = (m.is_invalid ≡ false) × ((common_key aliases m ≡ k) ⊎ (stored_key m ≡ k))

module _ (aliases : Aliases) (k : MappingKey) where
  get-index_mapping :
      (lookup : Lookup) (m found : BridgeMapping)
      → get k (index_mapping aliases lookup m) ≡ some found
      → Belongs aliases k m × (m ≡ found) ⊎ (get k lookup ≡ some found)
  unfolding index_mapping
  get-index_mapping lookup m found h = ground (
    arith,
    get-put (common_key aliases m) k m lookup,
    get-put (stored_key m) k m (put (common_key aliases m) m lookup),
    ==_iff (common_key aliases m) k,
    ==_iff (stored_key m) k,
  )

  get-index_mappings :
      (ms : List BridgeMapping) (lookup : Lookup) (found : BridgeMapping)
      → get k (index_mappings aliases lookup ms) ≡ some found
      → In found ms × Belongs aliases k found ⊎ (get k lookup ≡ some found)
  unfolding index_mappings
  get-index_mappings [] lookup found h = inr h
  get-index_mappings (m ∷ ms) lookup found h =
      elim (get-index_mappings ms (index_mapping aliases lookup m) found h) [
        | inl (there, belongs) ↦ inl (inr there, belongs)
        | inr before ↦ elim (get-index_mapping lookup m found before) [
          | inl (belongs, same) ↦ inl (inl same, subst (Belongs aliases k) same belongs)
          | inr old ↦ inr old
        ]
      ]

  -- Whatever the index holds at a key is one of the mappings, is not marked invalid, and has that
  -- key under its common or its stored dimension name.
  pub get-build_mapping_lookup :
      (mappings : List BridgeMapping) (found : BridgeMapping)
      → get k (build_mapping_lookup mappings aliases) ≡ some found
      → In found mappings × Belongs aliases k found
  unfolding build_mapping_lookup
  get-build_mapping_lookup mappings found h = elim (get-index_mappings mappings [] found h) [
    | inl found_in ↦ found_in
    | inr old ↦ absurd (ground (arith, get-nil {V = BridgeMapping} k))
  ]

  has-index_mapping :
      (lookup : Lookup) (m : BridgeMapping)
      → has k lookup ≡ true
      → has k (index_mapping aliases lookup m) ≡ true
  unfolding index_mapping
  has-index_mapping lookup m h = ground (
    arith,
    get-put (common_key aliases m) k m lookup,
    get-put (stored_key m) k m (put (common_key aliases m) m lookup),
  )

  has-index_mappings :
      (ms : List BridgeMapping) (lookup : Lookup)
      → has k lookup ≡ true
      → has k (index_mappings aliases lookup ms) ≡ true
  unfolding index_mappings
  has-index_mappings [] lookup h = h
  has-index_mappings (m ∷ ms) lookup h =
      has-index_mappings ms (index_mapping aliases lookup m) (has-index_mapping lookup m h)

has-common_key :
    (aliases : Aliases) (lookup : Lookup) (m : BridgeMapping)
    → m.is_invalid ≡ false
    → has (common_key aliases m) (index_mapping aliases lookup m) ≡ true
unfolding index_mapping
has-common_key aliases lookup m valid = ground (
  arith,
  get-put (common_key aliases m) (common_key aliases m) m lookup,
  get-put (stored_key m) (common_key aliases m) m (put (common_key aliases m) m lookup),
  ==_refl (common_key aliases m),
)

mapping_key-lower :
    (n : ℕ) (a b s : Text)
    → lower (strip a) ≡ lower (strip b)
    → mapping_key n a s ≡ mapping_key n b s
unfolding mapping_key
mapping_key-lower n a b s e = rw e

has-stored_key_distinct :
    (aliases : Aliases) (lookup : Lookup) (m : BridgeMapping)
    → m.is_invalid ≡ false
    → (lower (strip m.dimension_name)
        == lower (strip (canonical_dimension_name m.dimension_name m.app_number aliases)))
      ≡ false
    → has (stored_key m) (index_mapping aliases lookup m) ≡ true
unfolding index_mapping
has-stored_key_distinct aliases lookup m valid other = ground (
  arith,
  get-put (stored_key m) (stored_key m) m (put (common_key aliases m) m lookup),
  ==_refl (stored_key m),
)

has-stored_key :
    (aliases : Aliases) (lookup : Lookup) (m : BridgeMapping)
    → m.is_invalid ≡ false
    → has (stored_key m) (index_mapping aliases lookup m) ≡ true
has-stored_key aliases lookup m valid =
    let common = canonical_dimension_name m.dimension_name m.app_number aliases in
    elim (Bool-cases (lower (strip m.dimension_name) == lower (strip common))) [
      | inl same ↦
          subst (λ k. has k (index_mapping aliases lookup m) ≡ true)
            (sym (mapping_key-lower m.app_number _ _ m.source_member (eq_of_== _ _ same)))
            (has-common_key aliases lookup m valid)
      | inr other ↦ has-stored_key_distinct aliases lookup m valid other
    ]

has_both_at_head :
    (aliases : Aliases) (m : BridgeMapping) (ms : List BridgeMapping) (lookup : Lookup)
    → m.is_invalid ≡ false
    → (has (common_key aliases m) (index_mappings aliases (index_mapping aliases lookup m) ms)
        ≡ true)
      × (has (stored_key m) (index_mappings aliases (index_mapping aliases lookup m) ms) ≡ true)
has_both_at_head aliases m ms lookup valid = (
  has-index_mappings aliases (common_key aliases m) ms (index_mapping aliases lookup m)
      (has-common_key aliases lookup m valid),
  has-index_mappings aliases (stored_key m) ms (index_mapping aliases lookup m)
      (has-stored_key aliases lookup m valid),
)

has-index_mappings_both :
    (aliases : Aliases) (m : BridgeMapping) (mappings : List BridgeMapping) (lookup : Lookup)
    → In m mappings
    → m.is_invalid ≡ false
    → (has (common_key aliases m) (index_mappings aliases lookup mappings) ≡ true)
      × (has (stored_key m) (index_mappings aliases lookup mappings) ≡ true)
unfolding index_mappings
has-index_mappings_both aliases m [] lookup there valid = absurd there
has-index_mappings_both aliases m (n ∷ ms) lookup (inl e) valid =
    subst
      (λ n.
        (has (common_key aliases m) (index_mappings aliases (index_mapping aliases lookup n) ms)
          ≡ true)
        × (has (stored_key m) (index_mappings aliases (index_mapping aliases lookup n) ms) ≡ true))
      (sym e) (has_both_at_head aliases m ms lookup valid)
has-index_mappings_both aliases m (n ∷ ms) lookup (inr there) valid =
    has-index_mappings_both aliases m ms (index_mapping aliases lookup n) there valid

-- Every mapping that is not marked invalid has both of its keys in the index.
pub has-build_mapping_lookup :
    (aliases : Aliases) (mappings : List BridgeMapping) (m : BridgeMapping)
    → In m mappings
    → m.is_invalid ≡ false
    → (has (common_key aliases m) (build_mapping_lookup mappings aliases) ≡ true)
      × (has (stored_key m) (build_mapping_lookup mappings aliases) ≡ true)
unfolding build_mapping_lookup
has-build_mapping_lookup aliases mappings m there valid =
    has-index_mappings_both aliases m mappings [] there valid
