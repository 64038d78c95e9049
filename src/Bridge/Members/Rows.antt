-- ===== src/Bridge/Members/Rows.antt =====
-- The rows of `bridge_mappings` behind the operations on one of them.
use dart_backend.Prelude.{
  ℕ, ◌≡◌, refl, sym, ap, subst, ◌∙◌, inl, inr, Bool, true, false, not, Option, none, some, [], ◌∷◌,
  ◌++◌, keep, map, nat_beq, nat_eq, list_eq, pair_eq, Bool-cases, Option-cases, In, arith,
}
use dart_backend.Prelude.Distinct.{
  Distinct, Distinct-map_snoc, Distinct-map-keep, Distinct-map_inj, In-map, In-map_witness,
}
use dart_backend.Prelude.Text.{Text}
use dart_backend.Prelude.Results.{
  Result, ok, raised, >>=-eq-ok, ok_inj, raise_if, conflict_error, Exception,
}
use dart_backend.Bridge.{
  BridgeMapping, MappingKey, mapping_key, canonical_dimension_name, is_amount_dimension,
}
use dart_backend.Security.{get_accessible_recon}
use dart_backend.Bridge.Members.{
  Request, Table, StoredMapping, stored_key, commit, commit_or_conflict, find_existing, get_mapping,
  assert_app_not_signed_off, not_bridgeable, mapping_exists,
}
use dart_backend.Bridge.Members.Requests.{
  create_bridge_mapping, update_bridge_mapping, delete_bridge_mapping, BridgeMappingUpdate,
  BridgeMappingRead, check_source, apply_updates, write_mapping, set_required, is_taken, new_row,
}
use dart_backend.Bridge.Members.Keys.{
  ids, keys, IsKeyed, commit-IsKeyed, find_existing-cases, absent, get_mapping_ok,
}

conflict_ok : (r : Result Table) (t : Table) → commit_or_conflict r ≡ ok t → r ≡ ok t
conflict_ok (ok table) t h = h
conflict_ok (raised (Exception.app_exception k m c)) t h = absurd (ground arith)
conflict_ok (raised (Exception.import_validation_error m)) t h = absurd (ground arith)
conflict_ok (raised Exception.invalid_operation) t h = absurd (ground arith)
conflict_ok (raised Exception.value_error) t h = absurd (ground arith)
conflict_ok (raised Exception.integrity_error) t h = absurd (ground arith)
conflict_ok (raised Exception.other_error) t h = absurd (ground arith)

raise_if_ok : (test : Bool) (e : Exception) (u : Unit {0}) → raise_if test e ≡ ok u → test ≡ false
raise_if_ok false e u h = refl
raise_if_ok true e u h = cc

free_name :
    (q : Request) (body : BridgeMapping) (d : Text) (table : Table)
    → is_taken q body d table ≡ false
    → find_existing table q.recon_id body.app_number d body.source_member ≡ none
unfolding is_taken
free_name q body d table h =
    elim (Option-cases (find_existing table q.recon_id body.app_number d body.source_member)) [
      | inl nothing ↦ nothing
      | inr (e, found) ↦ absurd (let h' = (rw (is_taken, found) at h) in ground arith)
    ]

pub create-IsKeyed :
    (q : Request) (new_id : ℕ) (body : BridgeMapping) (table t : Table) (r : BridgeMappingRead)
    → IsKeyed table
    → create_bridge_mapping q new_id body table ≡ ok (t, r)
    → IsKeyed t
unfolding create_bridge_mapping
create-IsKeyed q new_id body table t r (distinct_ids, distinct_keys) h =
    let d = canonical_dimension_name body.dimension_name body.app_number q.aliases in
    let (recon, got, h1) = >>=-eq-ok (get_accessible_recon q.tables q.user q.recon_id) _ h in
    let (allowed, open_app, h2) =
      >>=-eq-ok (assert_app_not_signed_off q.signoffs q.recon_id body.app_number) _ h1 in
    let (measured, dimension, h3) =
      >>=-eq-ok (raise_if (is_amount_dimension d) not_bridgeable) _ h2 in
    let (taken, free, h4) =
      >>=-eq-ok (raise_if (is_taken q body d table) (conflict_error mapping_exists)) _ h3 in
    let s = new_row q new_id body d in
    let (saved, committed, h5) = >>=-eq-ok (commit_or_conflict (commit (table ++ s ∷ []))) _ h4 in
    let nothing =
      free_name q body d table (raise_if_ok _ (conflict_error mapping_exists) taken free) in
    let same : saved ≡ t = ap (λ x. x.0) (ok_inj _ _ h5) in
    subst IsKeyed same (
      commit-IsKeyed (table ++ s ∷ []) saved
        (Distinct-map_snoc stored_key s table distinct_keys
          (absent table q.recon_id body.app_number d body.source_member nothing))
        (conflict_ok (commit (table ++ s ∷ [])) saved committed))

pub delete-IsKeyed :
    (q : Request) (mapping_id : ℕ) (table t : Table)
    → IsKeyed table
    → delete_bridge_mapping q mapping_id table ≡ ok t
    → IsKeyed t
unfolding delete_bridge_mapping
delete-IsKeyed q mapping_id table t (distinct_ids, distinct_keys) h =
    let (recon, got, h1) = >>=-eq-ok (get_accessible_recon q.tables q.user q.recon_id) _ h in
    let (s, found, h2) = >>=-eq-ok (get_mapping table q.recon_id mapping_id) _ h1 in
    let (allowed, open_app, h3) =
      >>=-eq-ok (assert_app_not_signed_off q.signoffs q.recon_id s.mapping.app_number) _ h2 in
    commit-IsKeyed (keep (λ r. not (nat_beq r.id s.id)) table) t
      (Distinct-map-keep stored_key (λ r. not (nat_beq r.id s.id)) table distinct_keys) h3

-- The rows behind an update, when no other row has the key that the row takes.
module _ (i recon_id : ℕ) (m : BridgeMapping) where
  abbrev new_key : ℕ × MappingKey
  new_key = (recon_id, mapping_key m.app_number m.dimension_name m.source_member)

  Free : Table → Type 0
  Free table =
      (s : StoredMapping)
      → In s table
      → ((s.id ≡ i) → s.recon_id ≡ recon_id) × ((stored_key s ≡ new_key) → s.id ≡ i)

  written_key :
      (s : StoredMapping)
      → nat_beq s.id i ≡ true
      → s.recon_id ≡ recon_id
      → stored_key (write_mapping i m s) ≡ new_key
  written_key s mine recon = rw (mine, recon) refl

  other_key :
      (s : StoredMapping) → nat_beq s.id i ≡ false → stored_key (write_mapping i m s) ≡ stored_key s
  other_key s other = rw other refl

  clash :
      (s r : StoredMapping) (table : Table)
      → Free (s ∷ table)
      → ¬ In s.id (ids table)
      → ¬ In (stored_key s) (keys table)
      → In r table
      → ¬ (stored_key (write_mapping i m r) ≡ stored_key (write_mapping i m s))
  unfolding Free
  clash s r table free new_id new there same = elim (Bool-cases (nat_beq s.id i)) [
    | inl s_mine ↦ elim (Bool-cases (nat_beq r.id i)) [
      | inl r_mine ↦
          let one : r.id ≡ s.id = ground arith in
          new_id (
            subst (λ x. In x (ids table)) one
              (In-map {A = StoredMapping} (λ x. x.id) r table there))
      | inr r_other ↦
          let recon = (free s (inl refl)).0 (ground arith) in
          let taken = sym (other_key r r_other) ∙ same ∙ written_key s s_mine recon in
          let one : r.id ≡ i = (free r (inr there)).1 taken in absurd (ground arith)
    ]
    | inr s_other ↦ elim (Bool-cases (nat_beq r.id i)) [
      | inl r_mine ↦
          let recon = (free r (inr there)).0 (ground arith) in
          let taken = sym (other_key s s_other) ∙ sym same ∙ written_key r r_mine recon in
          let one : s.id ≡ i = (free s (inl refl)).1 taken in absurd (ground arith)
      | inr r_other ↦ new (
          subst (λ k. In k (keys table)) (sym (other_key r r_other) ∙ same ∙ other_key s s_other)
            (In-map stored_key r table there))
    ]
  ]

  written-Distinct :
      (table : Table)
      → IsKeyed table
      → Free table
      → Distinct (keys (map {A = StoredMapping} (write_mapping i m) table))
  unfolding Free
  written-Distinct [] d free = tt
  written-Distinct (s ∷ table) ((new_id, distinct_ids), (new, distinct_keys)) free = (
    (λ taken.
        let (w, w_there, w_key) =
          In-map_witness stored_key (stored_key (write_mapping i m s))
            (map {A = StoredMapping} (write_mapping i m) table) taken in
        let (r, there, written) = In-map_witness (write_mapping i m) w table w_there in
        clash s r table free new_id new there (ap stored_key written ∙ w_key)),
    written-Distinct table (distinct_ids, distinct_keys) (λ r there. free r (inr there)),
  )

apply_updates_ok :
    (u : BridgeMappingUpdate) (m n : BridgeMapping)
    → apply_updates u m ≡ ok n
    → (set_required u.source_member m.source_member ≡ ok n.source_member)
      × (n.app_number ≡ m.app_number)
      × (n.dimension_name ≡ m.dimension_name)
unfolding apply_updates
apply_updates_ok u m n h =
    let (source, is_source, h1) = >>=-eq-ok (set_required u.source_member m.source_member) _ h in
    let (bridge, is_bridge, h2) = >>=-eq-ok (set_required u.bridge_member m.bridge_member) _ h1 in
    let (flip, is_flip, h3) = >>=-eq-ok (set_required u.flip_sign m.flip_sign) _ h2 in
    let (invalid, is_inv, h4) = >>=-eq-ok (set_required u.is_invalid m.is_invalid) _ h3 in
    let same = ok_inj _ n h4 in
    (
      is_source ∙ ap (λ x. ok x.source_member) same,
      sym (ap (λ x. x.app_number) same),
      sym (ap (λ x. x.dimension_name) same),
    )

-- The source member that a row takes is that of no other row.
source_free :
    (q : Request) (table : Table) (s : StoredMapping) (o : Option (Option Text)) (u : Unit {0})
    (source : Text)
    → Distinct (keys table)
    → In s table
    → s.recon_id ≡ q.recon_id
    → check_source q table s o ≡ ok u
    → set_required o s.mapping.source_member ≡ ok source
    → (r : StoredMapping) → In r table
    → stored_key r ≡ (q.recon_id, mapping_key s.mapping.app_number s.mapping.dimension_name source)
    → r.id ≡ s.id
unfolding check_source
source_free q table s none u source d s_there recon checked set r there same =
    let old = ok_inj s.mapping.source_member source set in
    let key : stored_key r ≡ stored_key s = (rw (recon, old) same) in
    ap (λ x. x.id) (Distinct-map_inj stored_key table r s d there s_there key)
source_free q table s (some none) u source d s_there recon checked set r there same =
    absurd (ground arith)
source_free q table s (some (some new)) u source d s_there recon checked set r there same =
    let asked : stored_key r
        ≡ (q.recon_id, mapping_key s.mapping.app_number s.mapping.dimension_name new) =
      (rw (ok_inj new source set) same) in
    elim (find_existing-cases table q.recon_id s.mapping.app_number s.mapping.dimension_name new) [
      | inl (nothing, unseen) ↦ absurd (unseen r there asked)
      | inr (e, found, e_there, e_key) ↦
          let is_same =
            raise_if_ok (not (nat_beq e.id s.id)) (conflict_error mapping_exists) u
              (let c = (rw (check_source, found) at checked) in c) in
          let one = Distinct-map_inj stored_key table r e d there e_there (asked ∙ sym e_key) in
          ap (λ x. x.id) one ∙ (ground arith)
    ]

pub update-IsKeyed :
    (q : Request) (mapping_id : ℕ) (body : BridgeMappingUpdate) (table t : Table)
    (r : BridgeMappingRead)
    → IsKeyed table
    → update_bridge_mapping q mapping_id body table ≡ ok (t, r)
    → IsKeyed t
unfolding update_bridge_mapping Free
update-IsKeyed q mapping_id body table t r (distinct_ids, distinct_keys) h =
    let (recon, got, h1) = >>=-eq-ok (get_accessible_recon q.tables q.user q.recon_id) _ h in
    let (s, found, h2) = >>=-eq-ok (get_mapping table q.recon_id mapping_id) _ h1 in
    let (allowed, open_app, h3) =
      >>=-eq-ok (assert_app_not_signed_off q.signoffs q.recon_id s.mapping.app_number) _ h2 in
    let (u, checked, h4) = >>=-eq-ok (check_source q table s body.source_member) _ h3 in
    let (m, applied, h5) = >>=-eq-ok (apply_updates body s.mapping) _ h4 in
    let rows = map {A = StoredMapping} (write_mapping s.id m) table in
    let (saved, committed, h6) = >>=-eq-ok (commit rows) _ h5 in
    let same : saved ≡ t = ap (λ x. x.0) (ok_inj _ _ h6) in
    let (s_there, s_recon, s_id) = get_mapping_ok table q.recon_id mapping_id s found in
    let (set, app, dimension) = apply_updates_ok body s.mapping m applied in
    let free : Free s.id q.recon_id m table = (λ x there. (
      (λ mine.
          ap (λ y. y.recon_id)
            (Distinct-map_inj {A = StoredMapping} (λ y. y.id) table x s distinct_ids there s_there
              mine)
          ∙ s_recon),
      (λ key.
          source_free q table s body.source_member u m.source_member distinct_keys s_there s_recon
            checked set x there (rw (← app, ← dimension) key)),
    )) in
    subst IsKeyed same (
      commit-IsKeyed rows saved
        (written-Distinct s.id q.recon_id m table (distinct_ids, distinct_keys) free) committed)
