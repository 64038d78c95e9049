-- ===== src/Bridge/Members/Batches.antt =====
-- The keys of `bridge_mappings` behind the operations that write many rows.
use mathlib.Core.List.{append_assoc, append-nil}
use dart_backend.Prelude.{
  ℕ, ◌≡◌, refl, sym, ap, subst, inl, inr, true, false, ◌&&◌, ◌||◌, not, List, [], ◌∷◌, ◌++◌, keep,
  any, nat_beq, nat_eq, list_eq, pair_eq, ◌==◌, Bool-cases, In, In-keep, In-append, In-snoc,
  any-true_at, any-append, arith, ==_refl, In-append_right,
}
use dart_backend.Prelude.Dict.{Dict}
use dart_backend.Prelude.Distinct.{Distinct, Distinct-map_snoc, Distinct-map-keep}
use dart_backend.Prelude.Text.{Text, is_empty}
use dart_backend.Prelude.Results.{ok, >>=-eq-ok, ok_inj}
use dart_backend.Security.{get_accessible_recon}
use dart_backend.Bridge.{ImportedRow, mapping_key, data_value}
use dart_backend.Bridge.Members.{
  Request, Table, StoredMapping, stored_key, is_of, commit, delete_app, assert_app_not_signed_off,
}
use dart_backend.Bridge.Members.Requests.{BridgeMappingRead}
use dart_backend.Bridge.Members.Keys.{IsKeyed, keys, commit-IsKeyed, is_of_key, mapping_key_app}
use dart_backend.Bridge.Members.Seeding.{
  Seeds, seed_value, seed_row, seed_rows, seeds_of, default_bridge_mappings, identity_mapping,
}

-- The rows that are left when those of an app are deleted.
pub delete_app-other :
    (recon_id a : ℕ) (table : Table) (s : StoredMapping)
    → In s (delete_app recon_id a table)
    → is_of recon_id a s ≡ false
unfolding delete_app
delete_app-other recon_id a table s there =
    let (old, other) = In-keep (λ r. not (is_of recon_id a r)) table s there in ground arith

module _ (recon_id app_number : ℕ) (kept : Table) where
  -- The created rows have keys that were seen, and no key twice.
  SeedsKeyed : Seeds → Type 0
  SeedsKeyed seeds =
      Distinct (keys (kept ++ seeds.created))
      × ((s : StoredMapping)
          → In s seeds.created
          → any (λ k. k == (stored_key s).1) seeds.seen ≡ true)

  module _ (others : (s : StoredMapping) → In s kept → is_of recon_id app_number s ≡ false) where
    seed_value-keyed :
        (d value : Text) (seeds : Seeds)
        → SeedsKeyed seeds
        → SeedsKeyed (seed_value recon_id app_number d value seeds)
    unfolding seed_value SeedsKeyed
    seed_value-keyed d value seeds (distinct, seen) =
        let k = mapping_key app_number d value in
        elim (Bool-cases (is_empty value || any (λ j. j == k) seeds.seen)) [
          | inl skipped ↦ rw skipped (distinct, seen)
          | inr new ↦ rw new (
            (let s : StoredMapping = record {
              id = seeds.next_id;
              recon_id = recon_id;
              mapping = identity_mapping app_number d value;
            } in
                subst (λ t. Distinct (keys t)) (append_assoc kept seeds.created (s ∷ []))
                  (Distinct-map_snoc stored_key s (kept ++ seeds.created) distinct (λ r there same.
                    elim (In-append r kept seeds.created there) [
                      | inl old ↦
                          let other = others r old in
                          let mine =
                            is_of_key r recon_id app_number k (mapping_key_app app_number d value)
                              same in
                          absurd (ground arith)
                      | inr mine ↦
                          let was =
                            subst (λ j. any (λ x. x == j) seeds.seen ≡ true) (ap (λ x. x.1) same)
                              (seen r mine) in
                          absurd (ground arith)
                    ]))),
            (λ r there. elim (In-snoc r _ seeds.created there) [
              | inl old ↦ any-append (λ j. j == (stored_key r).1) seeds.seen (k ∷ []) (seen r old)
              | inr same ↦
                  any-true_at (λ j. j == (stored_key r).1) (seeds.seen ++ k ∷ []) k
                    (In-append_right k seeds.seen (k ∷ []) (inl refl)) (rw (← same) (==_refl k))
            ]),
          )
        ]

    seed_row-keyed :
        (cells : Dict Text Text) (ds : List Text) (seeds : Seeds)
        → SeedsKeyed seeds
        → SeedsKeyed (seed_row recon_id app_number cells ds seeds)
    unfolding seed_row
    seed_row-keyed cells [] seeds h = h
    seed_row-keyed cells (d ∷ ds) seeds h =
        seed_row-keyed cells ds (seed_value recon_id app_number d (data_value cells d) seeds)
          (seed_value-keyed d (data_value cells d) seeds h)

    seed_rows-keyed :
        (ds : List Text) (rows : List ImportedRow) (seeds : Seeds)
        → SeedsKeyed seeds
        → SeedsKeyed (seed_rows recon_id app_number ds rows seeds)
    unfolding seed_rows
    seed_rows-keyed ds [] seeds h = h
    seed_rows-keyed ds (row ∷ rows) seeds h =
        seed_rows-keyed ds rows (seed_row recon_id app_number row.cells ds seeds)
          (seed_row-keyed row.cells ds seeds h)

pub default-IsKeyed :
    (q : Request) (next_id : ℕ) (dim_names : List Text) (imported : List ImportedRow)
    (app_number : ℕ) (table t : Table) (r : List BridgeMappingRead)
    → IsKeyed table
    → default_bridge_mappings q next_id dim_names imported app_number table ≡ ok (t, r)
    → IsKeyed t
unfolding default_bridge_mappings seeds_of SeedsKeyed delete_app
default-IsKeyed q next_id dim_names imported app_number table t r (distinct_ids, distinct_keys) h =
    let created = seeds_of q next_id dim_names imported app_number in
    let kept = delete_app q.recon_id app_number table in
    let (recon, got, h1) = >>=-eq-ok (get_accessible_recon q.tables q.user q.recon_id) _ h in
    let (allowed, open_app, h2) =
      >>=-eq-ok (assert_app_not_signed_off q.signoffs q.recon_id app_number) _ h1 in
    let (saved, committed, h3) = >>=-eq-ok (commit (kept ++ created)) _ h2 in
    let same : saved ≡ t = ap (λ x. x.0) (ok_inj _ _ h3) in
    let start : Distinct (keys (kept ++ [])) =
      subst (λ x. Distinct (keys x)) (sym (append-nil kept))
        (Distinct-map-keep stored_key (λ s. not (is_of q.recon_id app_number s)) table
          distinct_keys) in
    let mine =
      keep {A = ImportedRow}
        (λ row. nat_beq row.recon_id q.recon_id && nat_beq row.app_number app_number) imported in
    let (distinct, seen) =
      seed_rows-keyed q.recon_id app_number kept (delete_app-other q.recon_id app_number table)
        dim_names mine (record { seen = []; created = []; next_id = next_id })
        (start, (λ s i. absurd i)) in
    subst IsKeyed same (commit-IsKeyed (kept ++ created) saved distinct committed)
