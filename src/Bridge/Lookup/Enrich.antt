-- ===== src/Bridge/Lookup/Enrich.antt =====
-- What `enrich_lookup_with_imported_values` (app/services/bridge_resolve.py) does to an index.
use dart_backend.Prelude.{
  ℕ, ◌≡◌, refl, ◌∙◌, sym, inl, inr, ◌⊎◌, false, some, List, [], ◌∷◌, ◌++◌, list_eq, nat_eq, pair_eq,
  ◌==◌, subst, In-snoc, any-false_at, if_ladder4, eq_of_==, Bool-cases, In, any, is_some,
}
use dart_backend.Prelude.Dict.{get, has, get-put}
use dart_backend.Prelude.Text.{Text, strip, lower}
use dart_backend.Bridge.{BridgeMapping, ImportedRow, Lookup, MappingKey, mapping_key, data_value}
use dart_backend.Bridge.Lookup.{
  match_dimensions, match_rows, index_match, enrich_mapping, enrich_lookup_with_imported_values,
}

module _ {P : Text → Type 0} (row : ImportedRow) (source : Text) where
  match_dimensions-all :
      (ds found : List Text)
      → ((d : Text) → In d found → P d)
      → ((d : Text) → In d ds → lower (strip (data_value row.cells d)) ≡ source → P d)
      → (d : Text) → In d (match_dimensions row source found ds)
      → P d
  unfolding match_dimensions
  match_dimensions-all [] found before each = before
  match_dimensions-all (x ∷ ds) found before each =
      elim (Bool-cases (lower (strip (data_value row.cells x)) == source)) [
        | inl matches ↦ elim (Bool-cases (any (λ n. n == x) found)) [
          | inl old ↦
              rw (matches, old) (match_dimensions-all ds found before (λ d i. each d (inr i)))
          | inr new ↦
              rw (matches, new)
                (match_dimensions-all ds (found ++ x ∷ [])
                  (λ d i. elim (In-snoc d x found i) [
                    | inl there ↦ before d there
                    | inr e ↦ subst P e (each x (inl refl) (eq_of_== _ _ matches))
                  ])
                  (λ d i. each d (inr i)))
        ]
        | inr other ↦ rw other (match_dimensions-all ds found before (λ d i. each d (inr i)))
      ]

-- A row of the app whose cell at `d` is the source member, and `d` is one of the dimensions.
pub record IsMatch (app_number : ℕ) (source : Text) (names : List Text) (rows : List ImportedRow)
    (d : Text) : Type 0 where
  pub named : In d names
  pub row : ImportedRow
  pub there : In row rows
  pub of_app : row.app_number ≡ app_number
  pub equal : lower (strip (data_value row.cells d)) ≡ source

module _ (app_number : ℕ) (source : Text) (names : List Text) (all_rows : List ImportedRow) where
  abbrev Match : Text → Type 0
  Match = IsMatch app_number source names all_rows

  match_rows-all :
      (rows : List ImportedRow) (found : List Text)
      → ((row : ImportedRow) → In row rows → In row all_rows)
      → ((d : Text) → In d found → Match d)
      → (d : Text) → In d (match_rows app_number source names found rows)
      → Match d
  unfolding match_rows
  match_rows-all [] found sub before = before
  match_rows-all (r ∷ rows) found sub before = elim (Bool-cases (r.app_number == app_number)) [
    | inl mine ↦ rw mine (
        match_rows-all rows (match_dimensions r source found names) (λ row i. sub row (inr i))
          (match_dimensions-all r source names found before (λ d i e. record {
            named = i;
            row = r;
            there = sub r (inl refl);
            of_app = eq_of_== _ _ mine;
            equal = e;
          })))
    | inr other ↦ rw other (match_rows-all rows found (λ row i. sub row (inr i)) before)
  ]

module _ (rows : List ImportedRow) (names : List Text) where
  abbrev folded_source : BridgeMapping → Text
  folded_source m = lower (strip m.source_member)

  -- `m` was added at `k`, where the index had nothing, for the one dimension that matches.
  pub record IsAdded (lookup : Lookup) (k : MappingKey) (m : BridgeMapping) : Type 0 where
    pub valid : m.is_invalid ≡ false
    pub absent : has k lookup ≡ false
    pub dimension : Text
    pub matched : IsMatch m.app_number (folded_source m) names rows dimension
    pub key : k ≡ mapping_key m.app_number dimension m.source_member

  abbrev Kept : Lookup → MappingKey → BridgeMapping → Lookup → Type 0
  Kept lookup k m after =
      (get k after ≡ get k lookup) ⊎ (IsAdded lookup k m × (get k after ≡ some m))

  index_match_cases :
      (lookup : Lookup) (k : MappingKey) (m : BridgeMapping) (found : List Text)
      → m.is_invalid ≡ false
      → any (λ d. has (mapping_key m.app_number d m.source_member) lookup) names ≡ false
      → ((d : Text) → In d found → IsMatch m.app_number (folded_source m) names rows d)
      → Kept lookup k m (index_match m lookup found)
  index_match_cases lookup k m [] valid absent all = inl refl
  index_match_cases lookup k m (d ∷ []) valid absent all =
      let key = mapping_key m.app_number d m.source_member in
      let matched = all d (inl refl) in
      elim (Bool-cases (key == k)) [
        | inl same ↦ inr (
          record {
            valid = valid;
            absent = rw (← eq_of_== key k same) (
                any-false_at (λ d. has (mapping_key m.app_number d m.source_member) lookup) names d
                  absent matched.named);
            dimension = d;
            matched = matched;
            key = sym (eq_of_== key k same);
          },
          get-put key k m lookup ∙ rw same,
        )
        | inr other ↦ inl (get-put key k m lookup ∙ rw other)
      ]
  index_match_cases lookup k m (d ∷ d' ∷ ds) valid absent all = inl refl

  enrich_mapping_cases :
      (lookup : Lookup) (k : MappingKey) (m : BridgeMapping)
      → Kept lookup k m (enrich_mapping rows names lookup m)
  unfolding enrich_mapping
  enrich_mapping_cases lookup k m =
      if_ladder4 (Kept lookup k m) _ _ _ _ lookup _ (inl refl) λ valid unknown absent named.
        index_match_cases lookup k m _ valid absent (
          match_rows-all m.app_number (folded_source m) names rows rows [] (λ row i. i)
            (λ d i. absurd i))

  -- No entry of the index is lost or replaced.
  pub get-enrich_keeps :
      (ms : List BridgeMapping) (lookup : Lookup) (k : MappingKey) (v : BridgeMapping)
      → get k lookup ≡ some v
      → get k (enrich_lookup_with_imported_values lookup ms rows names) ≡ some v
  unfolding enrich_lookup_with_imported_values
  get-enrich_keeps [] lookup k v h = h
  get-enrich_keeps (m ∷ ms) lookup k v h =
      get-enrich_keeps ms (enrich_mapping rows names lookup m) k v
        (elim (enrich_mapping_cases lookup k m) [
          | inl same ↦ same ∙ h
          | inr (added, e) ↦
              let gone : has k lookup ≡ false = added.absent in
              let bad : is_some (some v) ≡ false = rw h at gone in cc
        ])

  -- A valid mapping at the key of a dimension in which a row of its app has its source member.
  pub record IsEnriched (k : MappingKey) (v : BridgeMapping) : Type 0 where
    pub valid : v.is_invalid ≡ false
    pub dimension : Text
    pub matched : IsMatch v.app_number (folded_source v) names rows dimension
    pub key : k ≡ mapping_key v.app_number dimension v.source_member

  -- An entry of the enriched index is one of the index, or one of the mappings, valid and at the
  -- key of a dimension in which a row of the mapping's app has the mapping's source member.
  pub get-enrich_sound :
      (ms : List BridgeMapping) (lookup : Lookup) (k : MappingKey) (v : BridgeMapping)
      → get k (enrich_lookup_with_imported_values lookup ms rows names) ≡ some v
      → (get k lookup ≡ some v) ⊎ (In v ms × IsEnriched k v)
  unfolding enrich_lookup_with_imported_values
  get-enrich_sound [] lookup k v h = inl h
  get-enrich_sound (m ∷ ms) lookup k v h =
      elim (get-enrich_sound ms (enrich_mapping rows names lookup m) k v h) [
        | inr (there, enriched) ↦ inr (inr there, enriched)
        | inl before ↦ elim (enrich_mapping_cases lookup k m) [
          | inl same ↦ inl (sym same ∙ before)
          | inr (added, e) ↦ inr (
              let same : m ≡ v = cc in
              subst (λ x. In x (m ∷ ms) × IsEnriched k x) same
                (
                  inl refl,
                  record {
                    valid = added.valid;
                    dimension = added.dimension;
                    matched = added.matched;
                    key = added.key;
                  },
                ))
        ]
      ]
