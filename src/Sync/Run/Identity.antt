-- ===== src/Sync/Run/Identity.antt =====
-- Repeated runs of `apply_all_identity_mappings` (app/services/sync_run.py).
use dart_backend.Prelude.{
  ℕ, ◌+◌, ◌≡◌, refl, ap, subst, ◌∙◌, sym, Bool, true, false, List, [], ◌∷◌, ◌++◌, ◌||◌, arith,
  list_eq, nat_eq, ◌==◌, ==_refl, any, length, Bool-cases, inl, inr, In,
}
use dart_backend.Prelude.Text.{Text}
use dart_backend.Prelude.Results.{Result, ok, >>=-eq-ok}
use dart_backend.Bridge.{ImportedRow}
use dart_backend.Sync.{SyncMapping}
use dart_backend.Sync.Resolve.{zip_distinct_lists}
use dart_backend.Sync.Run.{
  Settings, Generated, same_target, existing_source_keys, identity_mapping, generate_one,
  generate_all, assert_syncable_dimensions, distinct_source_lists, apply_all_identity_mappings,
}

ok_parts :
    {A : Type 0} (a a' : A) (b b' c c' : ℕ)
    → ◌≡◌ {A = Result (A × (ℕ × ℕ))} (ok (a, (b, c))) (ok (a', (b', c')))
    → (a ≡ a') × (b ≡ b') × (c ≡ c')
ok_parts a a' b b' c c' h = (cc, cc, cc)

module _ (recon_id app_number : ℕ) (names : List Text) (delimiter : Text) where
  abbrev knows : Generated → Text → Bool
  knows g source = any (λ s. s == source) g.existing

  abbrev run : Generated → List Text → Generated
  run g sources = generate_all recon_id app_number names delimiter g sources

  generate_one-knows :
      (g : Generated) (source : Text)
      → knows (generate_one recon_id app_number names delimiter g source) source ≡ true
  unfolding generate_one
  generate_one-knows g source = ground (arith, ==_refl source)

  generate_one-keeps :
      (g : Generated) (source t : Text)
      → knows g t ≡ true
      → knows (generate_one recon_id app_number names delimiter g source) t ≡ true
  unfolding generate_one
  generate_one-keeps g source t h = ground arith

  run-keeps :
      (sources : List Text) (g : Generated) (t : Text)
      → knows g t ≡ true
      → knows (run g sources) t ≡ true
  unfolding generate_all
  run-keeps [] g t h = h
  run-keeps (s ∷ sources) g t h =
      run-keeps sources (generate_one recon_id app_number names delimiter g s) t
        (generate_one-keeps g s t h)

  run-knows :
      (sources : List Text) (g : Generated) (t : Text)
      → In t sources
      → knows (run g sources) t ≡ true
  unfolding generate_all
  run-knows [] g t there = absurd there
  run-knows (s ∷ sources) g t (inl e) =
      subst
        (λ x. knows (run (generate_one recon_id app_number names delimiter g s) sources) x ≡ true) e
        (run-keeps sources (generate_one recon_id app_number names delimiter g s) s
          (generate_one-knows g s))
  run-knows (s ∷ sources) g t (inr there) = run-knows sources _ t there

  generate_one-counts :
      (g : Generated) (source : Text)
      → (generate_one recon_id app_number names delimiter g source).created
          + (generate_one recon_id app_number names delimiter g source).skipped
        ≡ g.created + g.skipped + 1
  unfolding generate_one
  generate_one-counts g source = ground arith

  generate_one-known :
      (g : Generated) (source : Text)
      → knows g source ≡ true
      → generate_one recon_id app_number names delimiter g source
        ≡ record g { skipped = g.skipped + 1 }
  unfolding generate_one
  generate_one-known g source h = rw h

  -- The counters add up to the number of combinations.
  run-counts :
      (sources : List Text) (g : Generated)
      → (run g sources).created + (run g sources).skipped ≡ g.created + g.skipped + length sources
  unfolding generate_all
  run-counts [] g = omega arith
  run-counts (s ∷ sources) g = omega (
    arith,
    generate_one-counts g s,
    run-counts sources (generate_one recon_id app_number names delimiter g s),
  )

  -- Where every source is known, nothing is created.
  run-idle :
      (sources : List Text) (g : Generated)
      → ((t : Text) → In t sources → knows g t ≡ true)
      → run g sources ≡ record g { skipped = g.skipped + length sources }
  unfolding generate_all
  run-idle [] g h = ground arith
  run-idle (s ∷ sources) g h = rw (generate_one-known g s (h s (inl refl))) (
      run-idle sources (record g { skipped = g.skipped + 1 }) (λ t i. h t (inr i))
      ∙ ap (λ n. record g { skipped = n }) (omega arith))

  -- The known sources are the sources of the table.
  abbrev InStep : Generated → Type 0
  InStep g =
      (t : Text)
      → knows g t ≡ any (λ s. s == t) (existing_source_keys g.table recon_id app_number names)

  same_target-identity :
      (source : Text)
      → same_target recon_id app_number names
          (identity_mapping recon_id app_number names delimiter source)
        ≡ true
  same_target-identity source = ground (arith, ==_refl names)

  or_swap : (a b c : Bool) → (a || (b || c)) ≡ (b || (a || c))
  or_swap true true c = refl
  or_swap true false c = refl
  or_swap false b c = refl

  existing-append :
      (table : List SyncMapping) (source t : Text)
      → any
          (λ s. s == t)
          (existing_source_keys
            (table ++ identity_mapping recon_id app_number names delimiter source ∷ [])
            recon_id
            app_number
            names)
        ≡ ((source == t)
            || any (λ s. s == t) (existing_source_keys table recon_id app_number names))
  unfolding existing_source_keys
  existing-append [] source t = rw (same_target-identity source)
  existing-append (m ∷ table) source t =
      elim (Bool-cases (same_target recon_id app_number names m)) [
        | inl mine ↦ rw mine (
            ap (λ b. (m.source_sync == t) || b) (existing-append table source t)
            ∙ or_swap (m.source_sync == t) (source == t) _)
        | inr other ↦ rw other (existing-append table source t)
      ]

  generate_one-InStep :
      (g : Generated) (source : Text)
      → InStep g
      → InStep (generate_one recon_id app_number names delimiter g source)
  unfolding generate_one
  generate_one-InStep g source h t = elim (Bool-cases (knows g source)) [
    | inl old ↦ rw old (h t)
    | inr new ↦ rw new (ap (λ b. (source == t) || b) (h t) ∙ sym (existing-append g.table source t))
  ]

  run-InStep : (sources : List Text) (g : Generated) → InStep g → InStep (run g sources)
  unfolding generate_all
  run-InStep [] g h = h
  run-InStep (s ∷ sources) g h =
      run-InStep sources (generate_one recon_id app_number names delimiter g s)
        (generate_one-InStep g s h)

  abbrev start : List SyncMapping → Generated
  start table = record {
    table = table;
    existing = existing_source_keys table recon_id app_number names;
    created = 0;
    skipped = 0;
  }

  -- After a run from `table`, every source is a source of the new table.
  run-covers :
      (table : List SyncMapping) (sources : List Text) (t : Text)
      → In t sources
      → any
          (λ s. s == t)
          (existing_source_keys (run (start table) sources).table recon_id app_number names)
        ≡ true
  run-covers table sources t there =
      sym (run-InStep sources (start table) (λ t. refl) t) ∙ run-knows sources (start table) t there

  module _ (s : Settings) (rows : List ImportedRow) where
    abbrev apply_all : List SyncMapping → Result (List SyncMapping × (ℕ × ℕ))
    apply_all table = apply_all_identity_mappings s rows table recon_id app_number names delimiter

    apply_all-eq :
        (table : List SyncMapping) (lists : List (List Text))
        → assert_syncable_dimensions names ≡ ok tt
        → distinct_source_lists s rows recon_id app_number names ≡ ok lists
        → let g = run (start table) (zip_distinct_lists lists delimiter) in
          apply_all table ≡ ok (g.table, (g.created, g.skipped))
    unfolding apply_all_identity_mappings
    apply_all-eq table lists syncable found = rw syncable (rw found)

    apply_all-lists :
        (table : List SyncMapping) {result : List SyncMapping × (ℕ × ℕ)}
        → apply_all table ≡ ok result
        → (lists : List (List Text)) × (assert_syncable_dimensions names ≡ ok tt)
          × (distinct_source_lists s rows recon_id app_number names ≡ ok lists)
    unfolding apply_all_identity_mappings
    apply_all-lists table h =
        let (u, syncable, h') = >>=-eq-ok (assert_syncable_dimensions names) _ h in
        let (lists, found, _) =
          >>=-eq-ok (distinct_source_lists s rows recon_id app_number names) _ h' in
        (lists, syncable, found)

    idle_run :
        (sources : List Text) (table after : List SyncMapping)
        → (run (start table) sources).table ≡ after
        → run (start after) sources ≡ record (start after) { skipped = 0 + length sources }
    idle_run sources table after e = run-idle sources (start after) (λ t i.
        subst (λ a. any (λ s. s == t) (existing_source_keys a recon_id app_number names) ≡ true) e
          (run-covers table sources t i))

    -- A second run over the same rows creates nothing: it leaves the table as it is, and skips all
    -- the combinations that the first run created or skipped.
    pub apply_all_again :
        (table after : List SyncMapping) (created skipped : ℕ)
        → apply_all table ≡ ok (after, (created, skipped))
        → apply_all after ≡ ok (after, (0, created + skipped))
    apply_all_again table after created skipped h =
        let (lists, syncable, found) = apply_all-lists table h in
        let sources = zip_distinct_lists lists delimiter in
        let g = run (start table) sources in
        let same : ok (g.table, (g.created, g.skipped)) ≡ ok (after, (created, skipped)) =
          sym (apply_all-eq table lists syncable found) ∙ h in
        let (table_eq, created_eq, skipped_eq) =
          ok_parts g.table after g.created created g.skipped skipped same in
        let total : 0 + length sources ≡ created + skipped =
          omega (arith, created_eq, skipped_eq, run-counts sources (start table)) in
        apply_all-eq after lists syncable found
        ∙ rw (idle_run sources table after table_eq) (ap (λ n. ok (after, (0, n))) total)
