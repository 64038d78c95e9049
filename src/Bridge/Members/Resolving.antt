-- ===== src/Bridge/Members/Resolving.antt =====
-- What `resolve_bridge_kickout` of app/api/v1/endpoints/bridge_kickouts.py does to the table.
use dart_backend.Prelude.{
  ℕ, ◌≡◌, refl, sym, ap, subst, ◌∙◌, inl, inr, true, false, none, some, [], ◌∷◌, map, nat_beq,
  nat_eq, Bool-cases, In, In-append_left, In-append_right, In-snoc, arith,
}
use dart_backend.Prelude.Distinct.{Distinct-map_inj, In-map, In-map_witness}
use dart_backend.Prelude.Results.{ok, >>=-eq-ok, ok_inj, raise_if}
use dart_backend.Security.{get_accessible_recon}
use dart_backend.Bridge.{BridgeMapping, MappingKey, mapping_key, is_amount_dimension}
use dart_backend.Bridge.Members.{
  Request, Table, StoredMapping, stored_key, assert_app_not_signed_off, commit, find_existing,
  not_bridgeable,
}
use dart_backend.Bridge.Members.Requests.{BridgeMappingRead, to_read}
use dart_backend.Bridge.Members.Keys.{IsKeyed, commit_ok, find_existing-cases}
use dart_backend.Bridge.Members.KickoutRequests.{
  resolve_row, resolved_row, resolved_rows, resolve_bridge_kickout,
}

abbrev pub body_key : Request → BridgeMapping → ℕ × MappingKey
body_key q body = (q.recon_id, mapping_key body.app_number body.dimension_name body.source_member)

-- A row of the table with the key of the body, which holds what the body says and is valid.
pub record IsResolved (q : Request) (body : BridgeMapping) (t : Table) (s : StoredMapping)
    : Type 0 where
  pub there : In s t
  pub key : stored_key s ≡ body_key q body
  pub bridge_member : s.mapping.bridge_member ≡ body.bridge_member
  pub flip_sign : s.mapping.flip_sign ≡ body.flip_sign
  pub dim_comment : s.mapping.dim_comment ≡ body.dim_comment
  pub bridge_comment : s.mapping.bridge_comment ≡ body.bridge_comment
  pub je_comment : s.mapping.je_comment ≡ body.je_comment
  pub valid : s.mapping.is_invalid ≡ false

-- The rows with another key are those that were there.
abbrev pub Others : Request → BridgeMapping → Table → Table → Type 0
Others q body table t =
    ((s : StoredMapping) → In s table → ¬ (stored_key s ≡ body_key q body) → In s t)
    × ((s : StoredMapping) → In s t → ¬ (stored_key s ≡ body_key q body) → In s table)

resolve_row-other :
    (id : ℕ) (body : BridgeMapping) (s : StoredMapping)
    → nat_beq s.id id ≡ false
    → resolve_row id body s ≡ s
resolve_row-other id body s other = rw other refl

-- The row of the key is written in its place.
placed :
    (q : Request) (new_id : ℕ) (body : BridgeMapping) (table : Table) (e : StoredMapping)
    → IsKeyed table
    → In e table
    → stored_key e ≡ body_key q body
    → IsResolved q body
        (resolved_rows q new_id body (some e) table)
        (resolved_row q new_id body (some e))
      × Others q body table (resolved_rows q new_id body (some e) table)
placed q new_id body table e (distinct_ids, distinct_keys) there key =
    let f = resolve_row e.id body in
    let mine : nat_beq e.id e.id ≡ true = ground arith in
    let written : f e ≡ resolved_row q new_id body (some e) = rw mine refl in
    (
      record {
        there = subst (λ x. In x (map f table)) written (In-map f e table there);
        key = key;
        bridge_member = refl;
        flip_sign = refl;
        dim_comment = refl;
        bridge_comment = refl;
        je_comment = refl;
        valid = refl;
      },
      (
        (λ s s_there differs. elim (Bool-cases (nat_beq s.id e.id)) [
          | inl same ↦
              let one =
                Distinct-map_inj {A = StoredMapping} (λ x. x.id) table s e distinct_ids s_there
                  there (ground arith) in
              absurd (differs (ap stored_key one ∙ key))
          | inr other ↦
              subst (λ x. In x (map f table)) (resolve_row-other e.id body s other)
                (In-map f s table s_there)
        ]),
        (λ s s_there differs.
            let (r, r_there, is_s) = In-map_witness f s table s_there in
            elim (Bool-cases (nat_beq r.id e.id)) [
              | inl same ↦
                  let one =
                    Distinct-map_inj {A = StoredMapping} (λ x. x.id) table r e distinct_ids r_there
                      there (ground arith) in
                  absurd (differs (ap stored_key (sym is_s ∙ ap f one ∙ written) ∙ key))
              | inr other ↦
                  subst (λ x. In x table) (sym (resolve_row-other e.id body r other) ∙ is_s) r_there
            ]),
      ),
    )

-- A row is added where none has the key.
added :
    (q : Request) (new_id : ℕ) (body : BridgeMapping) (table : Table)
    → IsResolved q body (resolved_rows q new_id body none table) (resolved_row q new_id body none)
      × Others q body table (resolved_rows q new_id body none table)
added q new_id body table =
    let n = resolved_row q new_id body none in
    (
      record {
        there = In-append_right n table (n ∷ []) (inl refl);
        key = refl;
        bridge_member = refl;
        flip_sign = refl;
        dim_comment = refl;
        bridge_comment = refl;
        je_comment = refl;
        valid = refl;
      },
      (
        (λ s there differs. In-append_left s table (n ∷ []) there),
        (λ s there differs. elim (In-snoc s n table there) [
          | inl old ↦ old
          | inr new ↦ absurd (differs (sym (ap stored_key new)))
        ]),
      ),
    )

placed_or_added :
    (q : Request) (new_id : ℕ) (body : BridgeMapping) (table : Table)
    → IsKeyed table
    → (let o =
          find_existing table q.recon_id body.app_number body.dimension_name body.source_member in
        IsResolved q body (resolved_rows q new_id body o table) (resolved_row q new_id body o)
        × Others q body table (resolved_rows q new_id body o table))
placed_or_added q new_id body table keyed =
    elim (find_existing-cases table q.recon_id body.app_number body.dimension_name
      body.source_member) [
        | inl (nothing, unseen) ↦ rw nothing (added q new_id body table)
        | inr (e, found, there, key) ↦ rw found (placed q new_id body table e keyed there key)
      ]

-- When resolving a kick-out is answered, over a table in which no two rows share an identifier or a
-- folded key of a recon, the answer is a row of the key of the body with the target, the sign and the
-- comments of the body, which is valid whatever it was before; the rows with another key are exactly
-- those that were there.
pub resolve_bridge_kickout_lem :
    (q : Request) (new_id : ℕ) (body : BridgeMapping) (table t : Table) (r : BridgeMappingRead)
    → IsKeyed table
    → resolve_bridge_kickout q new_id body table ≡ ok (t, r)
    → ((s : StoredMapping) × IsResolved q body t s × (r ≡ to_read q.app_names s))
      × Others q body table t
unfolding resolve_bridge_kickout
resolve_bridge_kickout_lem q new_id body table t r keyed h =
    let (recon, got, h1) = >>=-eq-ok (get_accessible_recon q.tables q.user q.recon_id) _ h in
    let (allowed, open_app, h2) =
      >>=-eq-ok (assert_app_not_signed_off q.signoffs q.recon_id body.app_number) _ h1 in
    let (measured, is_measure, h3) =
      >>=-eq-ok (raise_if (is_amount_dimension body.dimension_name) not_bridgeable) _ h2 in
    let o = find_existing table q.recon_id body.app_number body.dimension_name body.source_member in
    let rows = resolved_rows q new_id body o table in
    let (saved, committed, h4) = >>=-eq-ok (commit rows) _ h3 in
    let answer = ok_inj _ _ h4 in
    let left : rows ≡ t = (commit_ok rows saved committed).0 ∙ ap (λ x. x.0) answer in
    let (resolved, others) = placed_or_added q new_id body table keyed in
    (
      (
        resolved_row q new_id body o,
        subst (λ x. IsResolved q body x (resolved_row q new_id body o)) left resolved,
        sym (ap (λ x. x.1) answer),
      ),
      subst (λ x. Others q body table x) left others,
    )
