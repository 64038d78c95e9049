-- ===== src/Bridge/Kickouts/Complete.antt =====
-- `discover_kickout_members` (app/services/bridge_resolve.py): how often a cell is reported.
use dart_backend.Prelude.{
  ℕ, ◌≤◌, ◌≡◌, refl, subst, sym, inl, inr, true, false, Option, List, [], ◌∷◌, arith, map, list_eq,
  nat_eq, pair_eq, ◌==◌, Bool-cases, In, any,
}
use dart_backend.Prelude.Dict.{Dict}
use dart_backend.Prelude.Text.{Text, is_empty}
use dart_backend.Bridge.{
  BridgeMapping, ImportedRow, Lookup, Aliases, MappingKey, is_amount_dimension, is_kickout_member,
  data_value,
}
use dart_backend.Bridge.Resolve.{find_mapping}
use dart_backend.Bridge.Kickouts.{
  Found, kickout_key, filtered_out, add_kickout, needs_attention, discover_dimension,
  discover_dimensions, discover_rows, discover_mapping, discover_mappings, discover_kickout_members,
}
use dart_backend.Bridge.Kickouts.Adding.{
  occurrences, occurrences-sort_by, is_seen, Counted, add_kickout-Counted, add_kickout-seen,
  add_kickout-adds,
}

module _ (app_names : Dict ℕ Text) (only : Option ℕ) where
  -- What every call of `add` keeps, the loops keep.
  module _ (P : Found → Type 0)
      (step : (f : Found) (app : ℕ) (dimension source bridge : Text)
        → P f
        → P (add_kickout app_names only f app dimension source bridge)) where
    module _ (lookup : Lookup) where
      dimension-keeps :
          (row : ImportedRow) (f : Found) (d : Text)
          → P f
          → P (discover_dimension app_names only lookup row f d)
      unfolding discover_dimension
      dimension-keeps row f d h = elim (Bool-cases (is_amount_dimension d)) [
        | inl amount ↦ rw amount h
        | inr other ↦
            rw other
              (elim (Bool-cases
                (needs_attention (find_mapping lookup row.app_number d (data_value row.cells d)))) [
                  | inl needs ↦ rw needs (step f row.app_number d (data_value row.cells d) _ h)
                  | inr mapped ↦ rw mapped h
                ])
      ]

      dimensions-keep :
          (row : ImportedRow) (ds : List Text) (f : Found)
          → P f
          → P (discover_dimensions app_names only lookup row f ds)
      unfolding discover_dimensions
      dimensions-keep row [] f h = h
      dimensions-keep row (d ∷ ds) f h =
          dimensions-keep row ds (discover_dimension app_names only lookup row f d)
            (dimension-keeps row f d h)

      rows-keep :
          (mapped : List ℕ) (names : List Text) (rows : List ImportedRow) (f : Found)
          → P f
          → P (discover_rows app_names only lookup mapped names f rows)
      unfolding discover_rows
      rows-keep mapped names [] f h = h
      rows-keep mapped names (row ∷ rows) f h =
          elim (Bool-cases (any (λ n. n == row.app_number) mapped)) [
            | inl mine ↦ rw mine (
                rows-keep mapped names rows (discover_dimensions app_names only lookup row f names)
                  (dimensions-keep row names f h))
            | inr other ↦ rw other (rows-keep mapped names rows f h)
          ]

    mapping-keeps :
        (aliases : Aliases) (f : Found) (m : BridgeMapping)
        → P f
        → P (discover_mapping app_names only aliases f m)
    unfolding discover_mapping
    mapping-keeps aliases f m h = elim (Bool-cases (filtered_out only m.app_number)) [
      | inl out ↦ rw out h
      | inr passes ↦ rw passes (elim (Bool-cases (is_kickout_member m.bridge_member)) [
        | inl sentinel ↦ rw sentinel (step f m.app_number _ m.source_member m.bridge_member h)
        | inr fine ↦ rw fine h
      ])
    ]

    mappings-keep :
        (aliases : Aliases) (ms : List BridgeMapping) (f : Found)
        → P f
        → P (discover_mappings app_names only aliases f ms)
    unfolding discover_mappings
    mappings-keep aliases [] f h = h
    mappings-keep aliases (m ∷ ms) f h =
        mappings-keep aliases ms (discover_mapping app_names only aliases f m)
          (mapping-keeps aliases f m h)

module _ (app_names : Dict ℕ Text) (only : Option ℕ) (lookup : Lookup) where
  -- The cell of a row in a dimension is a kickout that the filter lets through.
  pub record IsKickoutCell (row : ImportedRow) (d : Text) : Type 0 where
    pub not_amount : is_amount_dimension d ≡ false
    pub named : is_empty (data_value row.cells d) ≡ false
    pub passes : filtered_out only row.app_number ≡ false
    pub unresolved :
        needs_attention (find_mapping lookup row.app_number d (data_value row.cells d)) ≡ true

  abbrev pub cell_key : ImportedRow → Text → MappingKey
  cell_key row d = kickout_key row.app_number d (data_value row.cells d)

  dimension-seen :
      (row : ImportedRow) (f : Found) (d : Text)
      → IsKickoutCell row d
      → is_seen (cell_key row d) (discover_dimension app_names only lookup row f d) ≡ true
  unfolding discover_dimension
  dimension-seen row f d cell = rw (cell.not_amount) (
      rw (cell.unresolved) (
        add_kickout-adds app_names only f row.app_number d (data_value row.cells d) _ cell.named
          cell.passes))

  dimensions-seen :
      (row : ImportedRow) (d : Text) (ds : List Text) (f : Found)
      → In d ds
      → IsKickoutCell row d
      → is_seen (cell_key row d) (discover_dimensions app_names only lookup row f ds) ≡ true
  unfolding discover_dimensions
  dimensions-seen row d [] f there cell = absurd there
  dimensions-seen row d (x ∷ ds) f (inl e) cell =
      dimensions-keep app_names only (λ g. is_seen (cell_key row d) g ≡ true)
        (λ g a x s b. add_kickout-seen app_names only g a x s b (cell_key row d)) lookup row ds
        (discover_dimension app_names only lookup row f x)
        (subst
          (λ x. is_seen (cell_key row d) (discover_dimension app_names only lookup row f x) ≡ true)
          (sym e) (dimension-seen row f d cell))
  dimensions-seen row d (x ∷ ds) f (inr there) cell =
      dimensions-seen row d ds (discover_dimension app_names only lookup row f x) there cell

  first_row-seen :
      (mapped : List ℕ) (names : List Text) (row : ImportedRow) (d : Text) (rows : List ImportedRow)
      (f : Found)
      → any (λ n. n == row.app_number) mapped ≡ true
      → In d names
      → IsKickoutCell row d
      → is_seen (cell_key row d) (discover_rows app_names only lookup mapped names f (row ∷ rows))
        ≡ true
  unfolding discover_rows
  first_row-seen mapped names row d rows f has_mappings named cell =
      rw (has_mappings, discover_rows)
        (rows-keep app_names only (λ g. is_seen (cell_key row d) g ≡ true)
          (λ g a x s b. add_kickout-seen app_names only g a x s b (cell_key row d)) lookup mapped
          names rows (discover_dimensions app_names only lookup row f names)
          (dimensions-seen row d names f named cell))

  rows-seen :
      (mapped : List ℕ) (names : List Text) (row : ImportedRow) (d : Text) (rows : List ImportedRow)
      (f : Found)
      → In row rows
      → any (λ n. n == row.app_number) mapped ≡ true
      → In d names
      → IsKickoutCell row d
      → is_seen (cell_key row d) (discover_rows app_names only lookup mapped names f rows) ≡ true
  unfolding discover_rows
  rows-seen mapped names row d [] f there has_mappings named cell = absurd there
  rows-seen mapped names row d (r ∷ rows) f (inl e) has_mappings named cell =
      subst
        (λ r.
          is_seen (cell_key row d) (discover_rows app_names only lookup mapped names f (r ∷ rows))
          ≡ true)
        (sym e) (first_row-seen mapped names row d rows f has_mappings named cell)
  rows-seen mapped names row d (r ∷ rows) f (inr there) has_mappings named cell =
      rows-seen mapped names row d rows _ there has_mappings named cell

module _ (rows : List ImportedRow) (names : List Text) (lookup : Lookup)
    (mappings : List BridgeMapping) (app_names : Dict ℕ Text) (only : Option ℕ)
    (aliases : Aliases) where
  abbrev nothing : Found
  nothing = record { seen = []; out = [] }

  abbrev after_rows : Found
  after_rows =
      discover_rows app_names only lookup (map (λ m. m.app_number) mappings) names nothing rows

  after_all-Counted : Counted (discover_mappings app_names only aliases after_rows mappings)
  after_all-Counted =
      mappings-keep app_names only Counted (add_kickout-Counted app_names only) aliases mappings
        after_rows
        (rows-keep app_names only Counted (add_kickout-Counted app_names only) lookup _ names rows
          nothing (λ key. refl))

  -- No key is reported twice.
  pub discover_distinct :
      (key : MappingKey)
      → occurrences key (discover_kickout_members rows names lookup mappings app_names only aliases)
        ≤ 1
  unfolding discover_kickout_members
  discover_distinct key = rw (occurrences-sort_by key _) (ground (arith, after_all-Counted key))

  -- A cell of an app that has mappings is reported, and once only, if its dimension is not AMOUNT,
  -- it is not blank, its app passes the filter, and it has no mapping or one to the sentinel.
  pub discover_once :
      (row : ImportedRow) (d : Text)
      → In row rows
      → any (λ n. n == row.app_number) (map (λ m. m.app_number) mappings) ≡ true
      → In d names
      → IsKickoutCell app_names only lookup row d
      → occurrences
          (cell_key app_names only lookup row d)
          (discover_kickout_members rows names lookup mappings app_names only aliases)
        ≡ 1
  unfolding discover_kickout_members
  discover_once row d there has_mappings named cell =
      let key = cell_key app_names only lookup row d in
      let seen : is_seen key (discover_mappings app_names only aliases after_rows mappings) ≡ true =
        mappings-keep app_names only (λ g. is_seen key g ≡ true)
          (λ g a x s b. add_kickout-seen app_names only g a x s b key) aliases mappings after_rows
          (rows-seen app_names only lookup _ names row d rows nothing there has_mappings named
            cell) in
      rw (occurrences-sort_by key _) (rw (after_all-Counted key) (rw seen))
