-- ===== src/Copy/Rows.antt =====
-- The configuration of a recon, and the rows of its tables behind those that are added.
use mathlib.Core.List.{append-nil}
use dart_backend.Prelude.{
  ℕ, suc, ◌≡◌, refl, ap, ◌∙◌, inl, inr, Bool, true, false, List, [], ◌∷◌, ◌++◌, keep, map, nat_beq,
  Bool-cases, arith,
}
use dart_backend.Prelude.Sorting.{sort_by, insert_sorted, IsSorted}
use dart_backend.Prelude.Text.{Text}
use dart_backend.Prelude.Results.{Result, ok, raised, integrity_error}
use dart_backend.Sync.{SyncMapping}
use dart_backend.Bridge.{BridgeMapping}
use dart_backend.Bridge.Members.{StoredMapping}
use dart_backend.Copy.{
  Database, ReconRow, AppRow, DimensionRow, MappingRow, copy_dimension, copy_mappings, apps_of,
  dimensions_of, mappings_of, syncs_of, by_position, name_is_live, copy_dimension_mapping,
}

-- The configuration without the recon and the identifiers: the columns of its rows, in their order.
pub record Configuration : Type 0 where
  pub apps : List AppRow
  pub dimensions : List DimensionRow
  pub bridge : List BridgeMapping
  pub syncs : List SyncMapping

abbrev pub configuration : ℕ → Database → Configuration
configuration recon db = record {
  apps = map {A = AppRow} (λ a. record a { recon_id = 0 }) (apps_of recon db);
  dimensions = map {A = DimensionRow} (λ d. record d { recon_id = 0 }) (dimensions_of recon db);
  bridge = map {A = StoredMapping} (λ s. s.mapping) (mappings_of recon db);
  syncs = map {A = SyncMapping} (λ m. record m { recon_id = 0 }) (syncs_of recon db);
}

pub same_configuration :
    {c d : Configuration}
    → c.apps ≡ d.apps
    → c.dimensions ≡ d.dimensions
    → c.bridge ≡ d.bridge
    → c.syncs ≡ d.syncs
    → c ≡ d
same_configuration apps dimensions bridge syncs = cc (apps, dimensions, bridge, syncs)

-- What is left when a recon is copied, or why it is not.
abbrev pub Outcome : ReconRow → ℕ → Text → Database → Result Database → Type 0
Outcome source clone name db (raised e) =
    (name_is_live name db.recons ≡ true) × (e ≡ integrity_error)
Outcome source clone name db (ok left) =
    (name_is_live name db.recons ≡ false)
    × (configuration clone left ≡ configuration source.id db)
    × ((other : ℕ) → ¬ (clone ≡ other) → configuration other left ≡ configuration other db)

-- No row is of the recon.
abbrev pub Unused : ℕ → Database → Type 0
Unused clone db =
    (apps_of clone db ≡ [])
    × (keep (λ (d : DimensionRow). nat_beq d.recon_id clone) db.dimensions ≡ [])
    × (mappings_of clone db ≡ [])
    × (syncs_of clone db ≡ [])

module _ {A : Type 0} (recon : A → ℕ) where
  keep-append : (p : A → Bool) (xs ys : List A) → keep p (xs ++ ys) ≡ keep p xs ++ keep p ys
  keep-append p [] ys = refl
  keep-append p (x ∷ xs) ys = elim (Bool-cases (p x)) [
    | inl holds ↦ rw holds (ap (λ zs. x ∷ zs) (keep-append p xs ys))
    | inr fails ↦ rw fails (keep-append p xs ys)
  ]

  -- All rows of a list are of a recon.
  abbrev pub AllOf : ℕ → List A → Type 0
  AllOf clone [] = Unit
  AllOf clone (x ∷ xs) = (recon x ≡ clone) × AllOf clone xs

  keep-own :
      (clone : ℕ) (xs : List A) → AllOf clone xs → keep (λ x. nat_beq (recon x) clone) xs ≡ xs
  keep-own clone [] h = refl
  keep-own clone (x ∷ xs) (mine, h) =
      let test : nat_beq (recon x) clone ≡ true = ground arith in
      rw test (ap (λ zs. x ∷ zs) (keep-own clone xs h))

  keep-other :
      (clone other : ℕ) (xs : List A)
      → ¬ (clone ≡ other)
      → AllOf clone xs
      → keep (λ x. nat_beq (recon x) other) xs ≡ []
  keep-other clone other [] differ h = refl
  keep-other clone other (x ∷ xs) differ (mine, h) =
      let test : nat_beq (recon x) other ≡ false = elim (Bool-cases (nat_beq (recon x) other)) [
        | inl same ↦ absurd (differ (ground arith))
        | inr apart ↦ apart
      ] in
      rw test (keep-other clone other xs differ h)

  -- The rows of the clone, and of the other recons, when rows of the clone are added.
  pub added-own :
      (clone : ℕ) (old new : List A)
      → keep (λ x. nat_beq (recon x) clone) old ≡ []
      → AllOf clone new
      → keep (λ x. nat_beq (recon x) clone) (old ++ new) ≡ new
  added-own clone old new none_old h =
      keep-append (λ x. nat_beq (recon x) clone) old new
      ∙ ap (λ xs. xs ++ keep (λ x. nat_beq (recon x) clone) new) none_old
      ∙ keep-own clone new h

  pub added-other :
      (clone other : ℕ) (old new : List A)
      → ¬ (clone ≡ other)
      → AllOf clone new
      → keep (λ x. nat_beq (recon x) other) (old ++ new) ≡ keep (λ x. nat_beq (recon x) other) old
  added-other clone other old new differ h =
      keep-append (λ x. nat_beq (recon x) other) old new
      ∙ ap (λ xs. keep (λ x. nat_beq (recon x) other) old ++ xs)
          (keep-other clone other new differ h)
      ∙ append-nil (keep (λ x. nat_beq (recon x) other) old)

  pub AllOf-map :
      (clone : ℕ) (f : A → A) (xs : List A)
      → ((x : A) → recon (f x) ≡ clone)
      → AllOf clone (map f xs)
  AllOf-map clone f [] law = tt
  AllOf-map clone f (x ∷ xs) law = (law x, AllOf-map clone f xs law)

module _ {A B : Type 0} (view : A → B) (f : A → A) (law : (x : A) → view (f x) ≡ view x) where
  pub view-map : (xs : List A) → map view (map f xs) ≡ map view xs
  view-map [] = refl
  view-map (x ∷ xs) = cc (law x, view-map xs)

pub AllOf-copy_mappings :
    (clone next_id : ℕ) (table : List StoredMapping)
    → AllOf (λ s. s.recon_id) clone (copy_mappings clone next_id table)
unfolding copy_mappings
AllOf-copy_mappings clone next_id [] = tt
AllOf-copy_mappings clone next_id (s ∷ table) =
    (refl, AllOf-copy_mappings clone (suc next_id) table)

pub bridge-copy_mappings :
    (clone next_id : ℕ) (table : List StoredMapping)
    → map {A = StoredMapping} (λ s. s.mapping) (copy_mappings clone next_id table)
      ≡ map {A = StoredMapping} (λ s. s.mapping) table
unfolding copy_mappings
bridge-copy_mappings clone next_id [] = refl
bridge-copy_mappings clone next_id (s ∷ table) =
    ap (λ zs. s.mapping ∷ zs) (bridge-copy_mappings clone (suc next_id) table)

pub copied_mappings : (ms : List MappingRow) → map copy_dimension_mapping ms ≡ ms
copied_mappings [] = refl
copied_mappings (m ∷ ms) = ap (λ zs. m ∷ zs) (copied_mappings ms)

-- A list in the order of positions is left by the sort.
pub sort_by-sorted :
    (xs : List DimensionRow) → IsSorted by_position xs → sort_by by_position xs ≡ xs
unfolding sort_by insert_sorted
sort_by-sorted [] h = refl
sort_by-sorted (x ∷ []) h = refl
sort_by-sorted (x ∷ y ∷ ys) (le, h) =
    ap (insert_sorted by_position x) (sort_by-sorted (y ∷ ys) h) ∙ (rw (insert_sorted, le) refl)

pub copied-IsSorted :
    (clone : ℕ) (xs : List DimensionRow)
    → IsSorted by_position xs
    → IsSorted by_position (map (copy_dimension clone) xs)
copied-IsSorted clone [] h = tt
copied-IsSorted clone (x ∷ []) h = tt
copied-IsSorted clone (x ∷ y ∷ ys) (le, h) = (le, copied-IsSorted clone (y ∷ ys) h)
