-- ===== src/Bridge/Members/Index.antt =====
-- The index of keys that an import of `bridge_mappings` starts from.
use dart_backend.Prelude.{
  ℕ, ◌≡◌, refl, sym, ap, subst, ◌∙◌, ◌⊎◌, inl, inr, true, [], ◌∷◌, nat_eq, list_eq, pair_eq, ◌==◌,
  is_some, Bool-cases, In, ==_refl, ==_iff,
}
use dart_backend.Prelude.Dict.{Dict, get, put, get-put}
use dart_backend.Bridge.{MappingKey, Aliases, canonical_dimension_name}
use dart_backend.Bridge.Members.{Table, StoredMapping, stored_key}
use dart_backend.Bridge.Members.Keys.{mapping_key_app, stored_app}
use dart_backend.Bridge.Members.Importing.{index_keys}

abbrev pub Index : Type 0
Index = Dict MappingKey ℕ

pub has-put_same : (k : MappingKey) (v : ℕ) (d : Index) → is_some (get k (put k v d)) ≡ true
has-put_same k v d = rw (get-put k k v d) (rw (==_refl k) refl)

pub has-put :
    (k j : MappingKey) (v : ℕ) (d : Index)
    → is_some (get j d) ≡ true
    → is_some (get j (put k v d)) ≡ true
has-put k j v d h =
    rw (get-put k j v d)
      (elim (Bool-cases (k == j)) [ inl same ↦ rw same refl | inr other ↦ rw other h ])

pub has-put_only :
    (k j : MappingKey) (v : ℕ) (d : Index)
    → is_some (get j (put k v d)) ≡ true
    → (k ≡ j) ⊎ (is_some (get j d) ≡ true)
has-put_only k j v d h = elim (Bool-cases (k == j)) [
  | inl same ↦ inl ((==_iff k j).0 same)
  | inr other ↦ inr (let h' = (rw (get-put k j v d, other) at h) in h')
]

-- The index keeps its keys, has those of the rows, and has no others but under a common name.
index_keys-has :
    (aliases : Aliases) (table : Table) (d : Index) (k : MappingKey)
    → is_some (get k d) ≡ true
    → is_some (get k (index_keys aliases table d)) ≡ true
unfolding index_keys
index_keys-has aliases [] d k h = h
index_keys-has aliases (s ∷ table) d k h =
    index_keys-has aliases table _ k (has-put _ k s.id _ (has-put _ k s.id d h))

pub index_keys-row :
    (aliases : Aliases) (table : Table) (d : Index) (s : StoredMapping)
    → In s table
    → is_some (get (stored_key s).1 (index_keys aliases table d)) ≡ true
unfolding index_keys
index_keys-row aliases [] d s i = absurd i
index_keys-row aliases (r ∷ table) d s (inr i) = index_keys-row aliases table _ s i
index_keys-row aliases (r ∷ table) d s (inl e) =
    subst (λ x. is_some (get (stored_key x).1 (index_keys aliases (r ∷ table) d)) ≡ true) e
      (index_keys-has aliases table _ (stored_key r).1
        (has-put _ (stored_key r).1 r.id _ (has-put_same (stored_key r).1 r.id d)))

pub index_keys-only :
    (aliases : Aliases) (table : Table) (d : Index) (k : MappingKey)
    → is_some (get k (index_keys aliases table d)) ≡ true
    → (is_some (get k d) ≡ true) ⊎ ((s : StoredMapping) × In s table × (s.mapping.app_number ≡ k.0))
unfolding index_keys
index_keys-only aliases [] d k h = inl h
index_keys-only aliases (s ∷ table) d k h = elim (index_keys-only aliases table _ k h) [
  | inr (r, there, app) ↦ inr (r, inr there, app)
  | inl had ↦ elim (has-put_only _ k s.id _ had) [
    | inl same ↦
        let common =
          canonical_dimension_name s.mapping.dimension_name s.mapping.app_number aliases in
        inr (
          s,
          inl refl,
          sym (mapping_key_app s.mapping.app_number common s.mapping.source_member)
              ∙ ap (λ x. x.0) same,
        )
    | inr had' ↦ elim (has-put_only _ k s.id d had') [
      | inl same ↦ inr (s, inl refl, sym (stored_app s) ∙ ap (λ x. x.0) same)
      | inr old ↦ inl old
    ]
  ]
]
