-- ===== src/Bridge/Members/Defaults.antt =====
-- The mappings that `default_bridge_mappings` (app/api/v1/endpoints/bridge_mappings.py) creates for
-- the imported values.
use dart_backend.Prelude.{
  ℕ, ◌≡◌, refl, ap, subst, ◌∙◌, ◌⊎◌, inl, inr, Bool, true, false, ◌&&◌, ◌||◌, List, [], ◌∷◌, ◌++◌,
  keep, any, nat_beq, nat_eq, list_eq, pair_eq, ◌==◌, Bool-cases, In, In-keep_of, In-append_left,
  In-append_right, any-append, any-true_at, arith, ==_refl, eq_of_==,
}
use dart_backend.Prelude.Dict.{Dict}
use dart_backend.Prelude.Text.{Text, is_empty}
use dart_backend.Prelude.Results.{ok, >>=-eq-ok, ok_inj}
use dart_backend.Security.{get_accessible_recon}
use dart_backend.Bridge.{ImportedRow, MappingKey, mapping_key, data_value}
use dart_backend.Bridge.Members.{
  Request, Table, StoredMapping, stored_key, commit, delete_app, assert_app_not_signed_off,
}
use dart_backend.Bridge.Members.Requests.{BridgeMappingRead}
use dart_backend.Bridge.Members.Keys.{commit_ok}
use dart_backend.Bridge.Members.Seeding.{
  Seeds, seed_value, seed_row, seed_rows, seeds_of, default_bridge_mappings, identity_mapping,
}

any_snoc :
    (k j : MappingKey) (seen : List MappingKey)
    → any (λ x. x == j) (seen ++ k ∷ []) ≡ true
    → (any (λ x. x == j) seen ≡ true) ⊎ (k ≡ j)
any_snoc k j [] h = inr (eq_of_== k j (ground arith))
any_snoc k j (x ∷ seen) h = elim (Bool-cases (x == j)) [
  | inl here ↦ inl (rw here refl)
  | inr other ↦ elim (any_snoc k j seen (ground arith)) [
    | inl there ↦ inl (rw other there)
    | inr same ↦ inr same
  ]
]

-- A mapping of a key that maps its source member to itself.
abbrev pub Identity : ℕ → MappingKey → Table → Type 0
Identity recon_id k table =
    (s : StoredMapping) × In s table
    × (stored_key s ≡ (recon_id, k))
    × (s.mapping.bridge_member ≡ s.mapping.source_member)

module _ (recon_id app_number : ℕ) where
  abbrev Seen : MappingKey → Seeds → Type 0
  Seen k seeds = any (λ j. j == k) seeds.seen ≡ true

  -- Every key that was seen has its mapping.
  abbrev Covers : Seeds → Type 0
  Covers seeds = (k : MappingKey) → Seen k seeds → Identity recon_id k seeds.created

  seed_value-Covers :
      (d value : Text) (seeds : Seeds)
      → Covers seeds
      → Covers (seed_value recon_id app_number d value seeds)
  unfolding seed_value
  seed_value-Covers d value seeds covers =
      let k = mapping_key app_number d value in
      elim (Bool-cases (is_empty value || any (λ j. j == k) seeds.seen)) [
        | inl skipped ↦ rw skipped covers
        | inr new ↦ rw new (λ j seen. elim (any_snoc k j seeds.seen seen) [
          | inl old ↦
              let (s, there, key, same) = covers j old in
              (s, In-append_left s seeds.created _ there, key, same)
          | inr same ↦
              let s : StoredMapping = record {
                id = seeds.next_id;
                recon_id = recon_id;
                mapping = identity_mapping app_number d value;
              } in
              (
                s,
                In-append_right s seeds.created (s ∷ []) (inl refl),
                ap (λ x. (recon_id, x)) same,
                refl,
              )
        ])
      ]

  seed_value-Seen :
      (d value : Text) (seeds : Seeds) (k : MappingKey)
      → Seen k seeds
      → Seen k (seed_value recon_id app_number d value seeds)
  unfolding seed_value
  seed_value-Seen d value seeds k h =
      elim (Bool-cases
        (is_empty value || any (λ j. j == mapping_key app_number d value) seeds.seen)) [
          | inl skipped ↦ rw skipped h
          | inr new ↦ rw new (any-append (λ j. j == k) seeds.seen _ h)
        ]

  seed_value-own :
      (d value : Text) (seeds : Seeds)
      → is_empty value ≡ false
      → Seen (mapping_key app_number d value) (seed_value recon_id app_number d value seeds)
  unfolding seed_value
  seed_value-own d value seeds full =
      let k = mapping_key app_number d value in
      elim (Bool-cases (any (λ j. j == k) seeds.seen)) [
        | inl seen ↦ rw (full, seen) seen
        | inr new ↦
            rw (full, new)
              (any-true_at (λ j. j == k) (seeds.seen ++ k ∷ []) k
                (In-append_right k seeds.seen (k ∷ []) (inl refl)) (==_refl k))
      ]

  seed_row-Seen :
      (cells : Dict Text Text) (ds : List Text) (seeds : Seeds) (k : MappingKey)
      → Seen k seeds
      → Seen k (seed_row recon_id app_number cells ds seeds)
  unfolding seed_row
  seed_row-Seen cells [] seeds k h = h
  seed_row-Seen cells (d ∷ ds) seeds k h =
      seed_row-Seen cells ds _ k (seed_value-Seen d (data_value cells d) seeds k h)

  seed_row-own :
      (cells : Dict Text Text) (ds : List Text) (seeds : Seeds) (d : Text)
      → In d ds
      → is_empty (data_value cells d) ≡ false
      → Seen
          (mapping_key app_number d (data_value cells d))
          (seed_row recon_id app_number cells ds seeds)
  unfolding seed_row
  seed_row-own cells [] seeds d there full = absurd there
  seed_row-own cells (e ∷ ds) seeds d (inr there) full = seed_row-own cells ds _ d there full
  seed_row-own cells (e ∷ ds) seeds d (inl same) full =
      subst
        (λ x.
          Seen (mapping_key app_number x (data_value cells x))
            (seed_row recon_id app_number cells (e ∷ ds) seeds))
        same
        (seed_row-Seen cells ds _ (mapping_key app_number e (data_value cells e))
          (seed_value-own e (data_value cells e) seeds (rw same full)))

  seed_row-Covers :
      (cells : Dict Text Text) (ds : List Text) (seeds : Seeds)
      → Covers seeds
      → Covers (seed_row recon_id app_number cells ds seeds)
  unfolding seed_row
  seed_row-Covers cells [] seeds h = h
  seed_row-Covers cells (d ∷ ds) seeds h =
      seed_row-Covers cells ds _ (seed_value-Covers d (data_value cells d) seeds h)

  seed_rows-Covers :
      (ds : List Text) (rows : List ImportedRow) (seeds : Seeds)
      → Covers seeds
      → Covers (seed_rows recon_id app_number ds rows seeds)
  unfolding seed_rows
  seed_rows-Covers ds [] seeds h = h
  seed_rows-Covers ds (row ∷ rows) seeds h =
      seed_rows-Covers ds rows _ (seed_row-Covers row.cells ds seeds h)

  seed_rows-Seen :
      (ds : List Text) (rows : List ImportedRow) (seeds : Seeds) (k : MappingKey)
      → Seen k seeds
      → Seen k (seed_rows recon_id app_number ds rows seeds)
  unfolding seed_rows
  seed_rows-Seen ds [] seeds k h = h
  seed_rows-Seen ds (row ∷ rows) seeds k h =
      seed_rows-Seen ds rows _ k (seed_row-Seen row.cells ds seeds k h)

  seed_rows-own :
      (ds : List Text) (rows : List ImportedRow) (seeds : Seeds) (row : ImportedRow) (d : Text)
      → In row rows
      → In d ds
      → is_empty (data_value row.cells d) ≡ false
      → Seen
          (mapping_key app_number d (data_value row.cells d))
          (seed_rows recon_id app_number ds rows seeds)
  unfolding seed_rows
  seed_rows-own ds [] seeds row d row_there d_there full = absurd row_there
  seed_rows-own ds (r ∷ rows) seeds row d (inr row_there) d_there full =
      seed_rows-own ds rows _ row d row_there d_there full
  seed_rows-own ds (r ∷ rows) seeds row d (inl same) d_there full =
      seed_rows-Seen ds rows _ (mapping_key app_number d (data_value row.cells d)) (
        subst
          (λ x.
            Seen (mapping_key app_number d (data_value x.cells d))
              (seed_row recon_id app_number r.cells ds seeds))
          same (seed_row-own r.cells ds seeds d d_there (rw same full)))

-- Once the default mappings of an app are made, each value of an imported row of the recon and the app
-- in a bridged dimension that is not blank has a mapping of its folded key, and that mapping
-- maps its source member to itself.
pub default-Identity :
    (q : Request) (next_id : ℕ) (dim_names : List Text) (imported : List ImportedRow)
    (app_number : ℕ) (table t : Table) (r : List BridgeMappingRead) (row : ImportedRow) (d : Text)
    → default_bridge_mappings q next_id dim_names imported app_number table ≡ ok (t, r)
    → In row imported
    → row.recon_id ≡ q.recon_id
    → row.app_number ≡ app_number
    → In d dim_names
    → is_empty (data_value row.cells d) ≡ false
    → Identity q.recon_id (mapping_key app_number d (data_value row.cells d)) t
unfolding default_bridge_mappings seeds_of
default-Identity q next_id dim_names imported app_number table t r row d h there recon app d_there
      full =
    let created = seeds_of q next_id dim_names imported app_number in
    let kept = delete_app q.recon_id app_number table in
    let (access, got, h1) = >>=-eq-ok (get_accessible_recon q.tables q.user q.recon_id) _ h in
    let (allowed, open_app, h2) =
      >>=-eq-ok (assert_app_not_signed_off q.signoffs q.recon_id app_number) _ h1 in
    let (saved, committed, h3) = >>=-eq-ok (commit (kept ++ created)) _ h2 in
    let same : saved ≡ t = ap (λ x. x.0) (ok_inj _ _ h3) in
    let mine : ImportedRow → Bool =
      λ x. nat_beq x.recon_id q.recon_id && nat_beq x.app_number app_number in
    let start : Seeds = record { seen = []; created = []; next_id = next_id } in
    let seen =
      seed_rows-own q.recon_id app_number dim_names (keep mine imported) start row d
        (In-keep_of mine imported row there (rw (recon, app) (ground arith))) d_there full in
    let (s, s_there, key, identity) =
      seed_rows-Covers q.recon_id app_number dim_names (keep mine imported) start
        (λ k old. absurd (ground arith)) (mapping_key app_number d (data_value row.cells d)) seen in
    (
      s,
      subst (In s) ((commit_ok (kept ++ created) saved committed).0 ∙ same)
          (In-append_right s kept created s_there),
      key,
      identity,
    )
