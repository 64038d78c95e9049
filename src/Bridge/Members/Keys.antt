-- ===== src/Bridge/Members/Keys.antt =====
-- The keys and the identifiers of the rows of `bridge_mappings`, and the queries for one of them.
use dart_backend.Prelude.{
  ℕ, ◌≡◌, refl, sym, ap, subst, ◌∙◌, ◌⊎◌, inl, inr, Bool, true, false, ◌&&◌, ◌||◌, none, some, List,
  [], ◌∷◌, keep, map, all, find, nat_beq, nat_eq, list_eq, pair_eq, ◌==◌, find-none, find-some,
  Bool-cases, Option-cases, In, In-keep, In-keep_of, any-false_at, arith, eq_of_==, ==_refl,
}
use dart_backend.Prelude.Distinct.{Distinct, In-map_witness}
use dart_backend.Prelude.Text.{Text, txt}
use dart_backend.Prelude.Results.{
  Result, ok, raised, ok_inj, integrity_error, other_error, not_found_error,
}
use dart_backend.Bridge.{MappingKey, mapping_key}
use dart_backend.Bridge.Members.{
  Table, StoredMapping, stored_key, is_of, is_unique, commit, find_existing, get_mapping,
  is_mapping, same_columns, row_fits, in_range,
}

abbrev pub ids : Table → List ℕ
ids table = map {A = StoredMapping} (λ s. s.id) table

abbrev pub keys : Table → List (ℕ × MappingKey)
keys table = map stored_key table

-- The identifiers differ, and so do the folded keys.
abbrev pub IsKeyed : Table → Type 0
IsKeyed table = Distinct (ids table) × Distinct (keys table)

is_unique-Distinct : (table : Table) → is_unique table ≡ true → Distinct (ids table)
unfolding is_unique
is_unique-Distinct [] h = tt
is_unique-Distinct (s ∷ table) h = (
  (λ i.
      let (t, there, same) = In-map_witness {A = StoredMapping} (λ r. r.id) s.id table i in
      let differs : nat_beq t.id s.id || same_columns t s ≡ false =
        any-false_at (λ r. nat_beq r.id s.id || same_columns r s) table t (ground arith) there in
      ground (arith, same)),
  is_unique-Distinct table (ground arith),
)

-- A commit that succeeds leaves the rows, with distinct identifiers.
pub commit_ok : (table t : Table) → commit table ≡ ok t → (table ≡ t) × Distinct (ids t)
unfolding commit
commit_ok table t h = elim (Bool-cases (all (λ s. row_fits s.mapping) table)) [
  | inr unfit ↦ absurd (
      let h' : ◌≡◌ {A = Result Table} (raised other_error) (ok t) = (rw unfit at h) in ground arith)
  | inl fit ↦ elim (Bool-cases (all in_range table && is_unique table)) [
    | inr broken ↦ absurd (
        let h' : ◌≡◌ {A = Result Table} (raised integrity_error) (ok t) = (rw (fit, broken) at h) in
        ground arith)
    | inl sound ↦
        let same =
          ok_inj table t
            (let h' : ◌≡◌ {A = Result Table} (ok table) (ok t) = (rw (fit, sound) at h) in h') in
        (same, subst (λ x. Distinct (ids x)) same (is_unique-Distinct table (ground arith)))
  ]
]

pub commit-IsKeyed : (table t : Table) → Distinct (keys table) → commit table ≡ ok t → IsKeyed t
commit-IsKeyed table t d h =
    let (same, distinct) = commit_ok table t h in (distinct, subst (λ x. Distinct (keys x)) same d)

pub mapping_key_app : (a : ℕ) (d s : Text) → (mapping_key a d s).0 ≡ a
unfolding mapping_key
mapping_key_app a d s = refl

pub stored_app : (s : StoredMapping) → (stored_key s).1.0 ≡ s.mapping.app_number
stored_app s = mapping_key_app s.mapping.app_number s.mapping.dimension_name s.mapping.source_member

-- A row with a key is of the recon and the app of the key.
pub is_of_key :
    (s : StoredMapping) (recon_id a : ℕ) (k : MappingKey)
    → k.0 ≡ a
    → stored_key s ≡ (recon_id, k)
    → is_of recon_id a s ≡ true
is_of_key s recon_id a k key_app same =
    let recon : s.recon_id ≡ recon_id = ap (λ x. x.0) same in
    let app : s.mapping.app_number ≡ a = sym (stored_app s) ∙ ap (λ x. x.1.0) same ∙ key_app in
    rw (recon, app) (ground arith)

abbrev has_key : MappingKey → StoredMapping → Bool
has_key k s = (stored_key s).1 == k

-- The rows with the key that is looked for.
pub find_existing-cases :
    (table : Table) (recon_id a : ℕ) (d source : Text)
    → ((find_existing table recon_id a d source ≡ none)
        × ((s : StoredMapping)
            → In s table
            → ¬ (stored_key s ≡ (recon_id, mapping_key a d source))))
      ⊎ ((e : StoredMapping) × (find_existing table recon_id a d source ≡ some e)
          × In e table
          × (stored_key e ≡ (recon_id, mapping_key a d source)))
unfolding find_existing
find_existing-cases table recon_id a d source =
    elim (Option-cases (find_existing table recon_id a d source)) [
      | inl nothing ↦ inl (
        nothing,
        (λ s there same.
            let k = mapping_key a d source in
            let mine = is_of_key s recon_id a k (mapping_key_app a d source) same in
            let differs : has_key k s ≡ false =
              find-none (has_key k) (keep (is_of recon_id a) table) s nothing
                (In-keep_of (is_of recon_id a) table s there mine) in
            let equal : has_key k s ≡ true = ap (λ x. x == k) (ap (λ x. x.1) same) ∙ ==_refl k in
            absurd (ground arith)),
      )
      | inr (e, found) ↦
          let k = mapping_key a d source in
          let (kept, equal) = find-some (has_key k) (keep (is_of recon_id a) table) e found in
          let (there, mine) = In-keep (is_of recon_id a) table e kept in
          let recon : e.recon_id ≡ recon_id = ground arith in
          inr (e, found, there, rw (recon, eq_of_== (stored_key e).1 k equal) refl)
    ]

pub absent :
    (table : Table) (recon_id a : ℕ) (d source : Text)
    → find_existing table recon_id a d source ≡ none
    → (s : StoredMapping) → In s table
    → ¬ (stored_key s ≡ (recon_id, mapping_key a d source))
absent table recon_id a d source h = elim (find_existing-cases table recon_id a d source) [
  | inl (nothing, new) ↦ new
  | inr (e, found, there, same) ↦ absurd (let h' : some e ≡ none = sym found ∙ h in ground arith)
]

pub get_mapping_ok :
    (table : Table) (recon_id mapping_id : ℕ) (s : StoredMapping)
    → get_mapping table recon_id mapping_id ≡ ok s
    → In s table × (s.recon_id ≡ recon_id) × (s.id ≡ mapping_id)
unfolding get_mapping
get_mapping_ok table recon_id mapping_id s h =
    elim (Option-cases (find (is_mapping recon_id mapping_id) table)) [
      | inl nothing ↦ absurd (
          let h' : ◌≡◌ {A = Result StoredMapping}
              (raised (not_found_error (txt "Bridge mapping not found"))) (ok s) =
            (rw (get_mapping, nothing) at h) in
          ground arith)
      | inr (e, found) ↦
          let same = ok_inj e s (
            let h' : ◌≡◌ {A = Result StoredMapping} (ok e) (ok s) =
              (rw (get_mapping, found) at h) in
            h') in
          let (there, found_it) = find-some (is_mapping recon_id mapping_id) table e found in
          subst (λ x. In x table × (x.recon_id ≡ recon_id) × (x.id ≡ mapping_id)) same
            (there, ground arith, ground arith)
    ]
