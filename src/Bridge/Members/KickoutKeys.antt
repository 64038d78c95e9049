-- ===== src/Bridge/Members/KickoutKeys.antt =====
-- The keys of `bridge_mappings` behind the requests of app/api/v1/endpoints/bridge_kickouts.py.
use dart_backend.Prelude.{
  ℕ, ◌≡◌, refl, sym, ap, subst, ◌∙◌, inl, inr, true, false, Option, none, some, List, [], ◌∷◌, map,
  is_some, nat_beq, nat_eq, list_eq, pair_eq, ◌==◌, Bool-cases, Option-cases, In, In-keep_of,
  In-snoc, arith, ==_refl,
}
use dart_backend.Prelude.Dict.{get, get-put}
use dart_backend.Prelude.Distinct.{Distinct, Distinct-map_snoc, In-map, In-map_witness}
use dart_backend.Prelude.Text.{Text}
use dart_backend.Prelude.Results.{ok, >>=-eq-ok, ok_inj, raise_if}
use dart_backend.Security.{get_accessible_recon}
use dart_backend.Bridge.{BridgeMapping, ImportedRow, mapping_key, is_amount_dimension}
use dart_backend.Bridge.Lookup.{mapping_lookup_for_recon, bridged_dimensions, build_mapping_lookup}
use dart_backend.Bridge.Lookup.Sound.{has-build_mapping_lookup}
use dart_backend.Bridge.Lookup.Enrich.{get-enrich_keeps}
use dart_backend.Bridge.Kickouts.{KickoutMember}
use dart_backend.Bridge.Members.{
  Request, Table, StoredMapping, stored_key, assert_app_not_signed_off, commit, rows_of,
  find_existing, not_bridgeable,
}
use dart_backend.Bridge.Members.Requests.{BridgeMappingRead}
use dart_backend.Bridge.Members.Seeding.{identity_mapping}
use dart_backend.Bridge.Members.Keys.{keys, IsKeyed, commit-IsKeyed, absent}
use dart_backend.Bridge.Members.KickoutRequests.{
  recon_mappings, recon_rows, lookup_of, kickouts_for_recon, resolve_row, resolved_row,
  resolved_rows, resolve_bridge_kickout, Defaulting, is_object, default_row, default_at,
  default_kickouts, assert_apps_open, default_bridge_kickouts,
}

-- A change of rows that leaves the columns of their keys leaves the keys.
keys-map :
    (f : StoredMapping → StoredMapping) (table : Table)
    → ((s : StoredMapping) → stored_key (f s) ≡ stored_key s)
    → keys (map f table) ≡ keys table
keys-map f [] same = refl
keys-map f (s ∷ table) same = rw (same s, keys-map f table same) refl

resolve_row-key :
    (id : ℕ) (body : BridgeMapping) (s : StoredMapping)
    → stored_key (resolve_row id body s) ≡ stored_key s
resolve_row-key id body s = elim (Bool-cases (nat_beq s.id id)) [
  | inl mine ↦ rw mine refl
  | inr other ↦ rw other refl
]

default_row-key :
    (recon_id : ℕ) (m : BridgeMapping) (source : Text) (s : StoredMapping)
    → stored_key (default_row recon_id m source s) ≡ stored_key s
default_row-key recon_id m source s = elim (Bool-cases (is_object recon_id m s)) [
  | inl mine ↦ rw mine refl
  | inr other ↦ rw other refl
]

resolved_rows-Distinct :
    (q : Request) (new_id : ℕ) (body : BridgeMapping) (table : Table) (o : Option StoredMapping)
    → Distinct (keys table)
    → find_existing table q.recon_id body.app_number body.dimension_name body.source_member ≡ o
    → Distinct (keys (resolved_rows q new_id body o table))
resolved_rows-Distinct q new_id body table (some s) d h =
    subst Distinct (sym (keys-map (resolve_row s.id body) table (resolve_row-key s.id body))) d
resolved_rows-Distinct q new_id body table none d h =
    Distinct-map_snoc stored_key (resolved_row q new_id body none) table d
      (absent table q.recon_id body.app_number body.dimension_name body.source_member h)

pub resolve-IsKeyed :
    (q : Request) (new_id : ℕ) (body : BridgeMapping) (table t : Table) (r : BridgeMappingRead)
    → IsKeyed table
    → resolve_bridge_kickout q new_id body table ≡ ok (t, r)
    → IsKeyed t
unfolding resolve_bridge_kickout
resolve-IsKeyed q new_id body table t r (distinct_ids, distinct_keys) h =
    let (recon, got, h1) = >>=-eq-ok (get_accessible_recon q.tables q.user q.recon_id) _ h in
    let (allowed, open_app, h2) =
      >>=-eq-ok (assert_app_not_signed_off q.signoffs q.recon_id body.app_number) _ h1 in
    let (measured, is_measure, h3) =
      >>=-eq-ok (raise_if (is_amount_dimension body.dimension_name) not_bridgeable) _ h2 in
    let existing =
      find_existing table q.recon_id body.app_number body.dimension_name body.source_member in
    let rows = resolved_rows q new_id body existing table in
    let (saved, committed, h4) = >>=-eq-ok (commit rows) _ h3 in
    subst IsKeyed (ap (λ x. x.0) (ok_inj _ _ h4)) (
      commit-IsKeyed rows saved
        (resolved_rows-Distinct q new_id body table existing distinct_keys refl) committed)

-- No row of the recon is marked as invalid.
abbrev pub AllValid : ℕ → Table → Type 0
AllValid recon_id table =
    (s : StoredMapping) → In s table → s.recon_id ≡ recon_id → s.mapping.is_invalid ≡ false

module _ (recon_id : ℕ) where
  -- The rows have distinct keys, and the index has those of the rows of the recon.
  Covered : Defaulting → Type 0
  Covered st =
      Distinct (keys st.rows)
      × ((s : StoredMapping)
          → In s st.rows
          → s.recon_id ≡ recon_id
          → is_some (get (stored_key s).1 st.lookup) ≡ true)

  default_at-Covered :
      (k : KickoutMember) (o : Option BridgeMapping) (st : Defaulting)
      → get (mapping_key k.app_number k.dimension_name k.source_member) st.lookup ≡ o
      → Covered st
      → Covered
          (default_at recon_id k (mapping_key k.app_number k.dimension_name k.source_member) o st)
  unfolding Covered default_at
  default_at-Covered k (some m) st found (distinct, covered) =
      let f = default_row recon_id m k.source_member in
      let same = default_row-key recon_id m k.source_member in
      (
        subst Distinct (sym (keys-map f st.rows same)) distinct,
        (λ s there mine.
            let (r, r_there, is_s) = In-map_witness f s st.rows there in
            let key : stored_key r ≡ stored_key s = sym (same r) ∙ ap stored_key is_s in
            subst (λ x. is_some (get x.1 st.lookup) ≡ true) key
              (covered r r_there (ap (λ x. x.0) key ∙ mine))),
      )
  default_at-Covered k none st found (distinct, covered) =
      let key = mapping_key k.app_number k.dimension_name k.source_member in
      let m = identity_mapping k.app_number k.dimension_name k.source_member in
      let s : StoredMapping = record { id = st.next_id; recon_id = recon_id; mapping = m } in
      (
        Distinct-map_snoc stored_key s st.rows distinct (λ r there same.
            let had : is_some (get key st.lookup) ≡ true =
              subst (λ x. is_some (get x st.lookup) ≡ true) (ap (λ x. x.1) same)
                (covered r there (ap (λ x. x.0) same)) in
            let not_had : is_some (get key st.lookup) ≡ false = ap is_some found in
            absurd (ground arith)),
        (λ r there mine.
            let j = (stored_key r).1 in
            rw (get-put key j m st.lookup) (elim (Bool-cases (key == j)) [
              | inl same ↦ rw same refl
              | inr other ↦ rw other (elim (In-snoc r s st.rows there) [
                | inl old ↦ covered r old mine
                | inr new ↦
                    let equal : (key == j) ≡ true =
                      subst (λ x. (key == (stored_key x).1) ≡ true) new (==_refl key) in
                    absurd (ground arith)
              ])
            ])),
      )

  default_kickouts-Covered :
      (ks : List KickoutMember) (st : Defaulting)
      → Covered st
      → Covered (default_kickouts recon_id ks st)
  unfolding default_kickouts
  default_kickouts-Covered [] st h = h
  default_kickouts-Covered (k ∷ ks) st h =
      default_kickouts-Covered ks _ (default_at-Covered k _ st refl h)

-- The index has the key of each row of a recon whose rows are all valid.
lookup_of-covers :
    (q : Request) (dimensions : List Text) (imported : List ImportedRow) (table : Table)
    (s : StoredMapping)
    → In s table
    → s.recon_id ≡ q.recon_id
    → s.mapping.is_invalid ≡ false
    → is_some (get (stored_key s).1 (lookup_of q dimensions imported table)) ≡ true
unfolding lookup_of mapping_lookup_for_recon
lookup_of-covers q dimensions imported table s there mine valid =
    let ms = recon_mappings q table in
    let built = build_mapping_lookup ms q.aliases in
    let kept = In-keep_of (λ r. nat_beq r.recon_id q.recon_id) table s there (ground arith) in
    let m_there : In s.mapping ms =
      In-map {A = StoredMapping} (λ r. r.mapping) s (rows_of q.recon_id table) kept in
    let (common, stored) = has-build_mapping_lookup q.aliases ms s.mapping m_there valid in
    elim (Option-cases (get (stored_key s).1 built)) [
      | inl nothing ↦ absurd (let h = ap is_some nothing in ground arith)
      | inr (v, found) ↦ ap is_some (
          get-enrich_keeps (recon_rows q imported) (bridged_dimensions dimensions) ms built
            (stored_key s).1 v found)
    ]

pub default_kickouts-IsKeyed :
    (q : Request) (next_id : ℕ) (dimensions : List Text) (imported : List ImportedRow)
    (app_number : Option ℕ) (table t : Table) (r : List BridgeMappingRead)
    → IsKeyed table
    → AllValid q.recon_id table
    → default_bridge_kickouts q next_id dimensions imported app_number table ≡ ok (t, r)
    → IsKeyed t
unfolding default_bridge_kickouts Covered
default_kickouts-IsKeyed q next_id dimensions imported app_number table t r (d_ids, d_keys) valid
      h =
    let (recon, got, h1) = >>=-eq-ok (get_accessible_recon q.tables q.user q.recon_id) _ h in
    let items = kickouts_for_recon q dimensions imported app_number table in
    let (allowed, open_apps, h2) = >>=-eq-ok (assert_apps_open q items) _ h1 in
    let start : Defaulting = record {
      rows = table;
      lookup = lookup_of q dimensions imported table;
      touched = [];
      next_id = next_id;
    } in
    let done = default_kickouts q.recon_id items start in
    let (saved, committed, h3) = >>=-eq-ok (commit done.rows) _ h2 in
    let (distinct, covered) = default_kickouts-Covered q.recon_id items start (
      d_keys,
      (λ s there mine.
          lookup_of-covers q dimensions imported table s there mine (valid s there mine)),
    ) in
    subst IsKeyed (ap (λ x. x.0) (ok_inj _ _ h3))
      (commit-IsKeyed done.rows saved distinct committed)
