-- ===== src/Bridge/Kickouts/Sound.antt =====
-- `discover_kickout_members` (app/services/bridge_resolve.py): where the reported members come from,
-- and their order.
use dart_backend.Prelude.{
  ℕ, ◌≡◌, refl, subst, inl, inr, ◌⊎◌, true, false, Option, List, [], ◌∷◌, map, list_eq, nat_eq,
  pair_eq, ◌==◌, Bool-cases, In, any,
}
use dart_backend.Prelude.Dict.{Dict}
use dart_backend.Prelude.Text.{Text, is_empty}
use dart_backend.Prelude.Sorting.{In-sort_by}
use dart_backend.Bridge.{
  BridgeMapping, ImportedRow, Lookup, Aliases, is_amount_dimension, is_kickout_member, data_value,
  canonical_dimension_name,
}
use dart_backend.Bridge.Resolve.{find_mapping}
use dart_backend.Bridge.Kickouts.{
  KickoutMember, Found, filtered_out, member, add_kickout, needs_attention, bridge_or_empty,
  discover_dimension, discover_dimensions, discover_rows, discover_mapping, discover_mappings,
  member_leb, discover_kickout_members,
}
use dart_backend.Bridge.Kickouts.Adding.{add_kickout-In}

module _ (all_rows : List ImportedRow) (names : List Text) (lookup : Lookup)
    (all_mappings : List BridgeMapping) (app_names : Dict ℕ Text) (only : Option ℕ)
    (aliases : Aliases) where
  -- A cell of an imported row whose app has mappings, and that no usable mapping covers.
  pub record FromRow (k : KickoutMember) : Type 0 where
    pub row : ImportedRow
    pub there : In row all_rows
    pub has_mappings : any (λ n. n == row.app_number) (map (λ m. m.app_number) all_mappings) ≡ true
    pub dimension : Text
    pub named : In dimension names
    pub not_amount : is_amount_dimension dimension ≡ false
    pub unresolved :
        needs_attention
          (find_mapping lookup row.app_number dimension (data_value row.cells dimension))
        ≡ true
    pub is_member :
        k
        ≡ member app_names row.app_number dimension (data_value row.cells dimension) (
            bridge_or_empty
              (find_mapping lookup row.app_number dimension (data_value row.cells dimension)))

  -- A mapping that is stored with the sentinel as its bridge member.
  pub record FromMapping (k : KickoutMember) : Type 0 where
    pub mapping : BridgeMapping
    pub there : In mapping all_mappings
    pub sentinel : is_kickout_member mapping.bridge_member ≡ true
    pub is_member :
        k
        ≡ member app_names mapping.app_number
            (canonical_dimension_name mapping.dimension_name mapping.app_number aliases)
            mapping.source_member
            mapping.bridge_member

  pub record IsKickout (k : KickoutMember) : Type 0 where
    pub named : is_empty k.source_member ≡ false
    pub passes : filtered_out only k.app_number ≡ false
    pub origin : FromRow k ⊎ FromMapping k

  abbrev AllKickouts : Found → Type 0
  AllKickouts f = (k : KickoutMember) → In k f.out → IsKickout k

  add_sound :
      (f : Found) (app : ℕ) (dimension source bridge : Text)
      → AllKickouts f
      → FromRow (member app_names app dimension source bridge)
        ⊎ FromMapping (member app_names app dimension source bridge)
      → AllKickouts (add_kickout app_names only f app dimension source bridge)
  add_sound f app dimension source bridge before origin k i =
      elim (add_kickout-In app_names only f app dimension source bridge k i) [
        | inl old ↦ before k old
        | inr (named, passes, e) ↦
            subst IsKickout e (record { named = named; passes = passes; origin = origin })
      ]

  dimension_sound :
      (row : ImportedRow) (f : Found) (d : Text)
      → In row all_rows
      → any (λ n. n == row.app_number) (map (λ m. m.app_number) all_mappings) ≡ true
      → In d names
      → AllKickouts f
      → AllKickouts (discover_dimension app_names only lookup row f d)
  unfolding discover_dimension
  dimension_sound row f d there has_mappings named h = elim (Bool-cases (is_amount_dimension d)) [
    | inl amount ↦ rw amount h
    | inr other ↦
        rw other
          (elim (Bool-cases
            (needs_attention (find_mapping lookup row.app_number d (data_value row.cells d)))) [
              | inl needs ↦ rw needs (
                  add_sound f row.app_number d (data_value row.cells d) _ h (
                    inl (record {
                      row = row;
                      there = there;
                      has_mappings = has_mappings;
                      dimension = d;
                      named = named;
                      not_amount = other;
                      unresolved = needs;
                      is_member = refl;
                    })))
              | inr mapped ↦ rw mapped h
            ])
  ]

  dimensions_sound :
      (row : ImportedRow) (ds : List Text) (f : Found)
      → In row all_rows
      → any (λ n. n == row.app_number) (map (λ m. m.app_number) all_mappings) ≡ true
      → ((d : Text) → In d ds → In d names)
      → AllKickouts f
      → AllKickouts (discover_dimensions app_names only lookup row f ds)
  unfolding discover_dimensions
  dimensions_sound row [] f there has_mappings sub h = h
  dimensions_sound row (d ∷ ds) f there has_mappings sub h =
      dimensions_sound row ds (discover_dimension app_names only lookup row f d) there has_mappings
        (λ x i. sub x (inr i)) (dimension_sound row f d there has_mappings (sub d (inl refl)) h)

  rows_sound :
      (rows : List ImportedRow) (f : Found)
      → ((row : ImportedRow) → In row rows → In row all_rows)
      → AllKickouts f
      → AllKickouts
          (discover_rows app_names only lookup (map (λ m. m.app_number) all_mappings) names f rows)
  unfolding discover_rows
  rows_sound [] f sub h = h
  rows_sound (row ∷ rows) f sub h =
      elim (Bool-cases (any (λ n. n == row.app_number) (map (λ m. m.app_number) all_mappings))) [
        | inl mine ↦
            rw (mine, discover_rows)
              (rows_sound rows (discover_dimensions app_names only lookup row f names)
                (λ x i. sub x (inr i))
                (dimensions_sound row names f (sub row (inl refl)) mine (λ d i. i) h))
        | inr other ↦ rw (other, discover_rows) (rows_sound rows f (λ x i. sub x (inr i)) h)
      ]

  mapping_sound :
      (f : Found) (m : BridgeMapping)
      → In m all_mappings
      → AllKickouts f
      → AllKickouts (discover_mapping app_names only aliases f m)
  unfolding discover_mapping
  mapping_sound f m there h = elim (Bool-cases (filtered_out only m.app_number)) [
    | inl out ↦ rw out h
    | inr passes ↦ rw passes (elim (Bool-cases (is_kickout_member m.bridge_member)) [
      | inl sentinel ↦ rw sentinel (
          add_sound f m.app_number _ m.source_member m.bridge_member h
            (inr (record { mapping = m; there = there; sentinel = sentinel; is_member = refl })))
      | inr fine ↦ rw fine h
    ])
  ]

  mappings_sound :
      (ms : List BridgeMapping) (f : Found)
      → ((m : BridgeMapping) → In m ms → In m all_mappings)
      → AllKickouts f
      → AllKickouts (discover_mappings app_names only aliases f ms)
  unfolding discover_mappings
  mappings_sound [] f sub h = h
  mappings_sound (m ∷ ms) f sub h =
      mappings_sound ms (discover_mapping app_names only aliases f m) (λ x i. sub x (inr i))
        (mapping_sound f m (sub m (inl refl)) h)

  abbrev reported : List KickoutMember
  reported = discover_kickout_members all_rows names lookup all_mappings app_names only aliases

  -- A reported member has a source, passes the filter on the app, and is either a cell of a row
  -- whose app has mappings and that none of them resolves, or a mapping stored as the sentinel.
  pub discover_sound : (k : KickoutMember) → In k reported → IsKickout k
  unfolding discover_kickout_members
  discover_sound k i =
      mappings_sound all_mappings _ (λ m h. h) (rows_sound all_rows _ (λ r h. h) (λ k i. absurd i))
        k (In-sort_by member_leb k _ i)
