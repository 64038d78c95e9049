-- ===== src/Bridge/Members/Elsewhere.antt =====
-- The rows of `bridge_mappings` behind the two services that write the table as well:
-- `copy_recon` (app/services/recon_copy.py) and `delete_recon_app` (app/services/recon_app_delete.py).
use mathlib.Core.List.{append_assoc, append-nil}
use dart_backend.Prelude.{
  ℕ, suc, ◌≡◌, refl, sym, ap, subst, ◌∙◌, inl, inr, not, [], ◌∷◌, ◌++◌, nat_beq, nat_eq, In,
  In-keep, In-snoc, arith,
}
use dart_backend.Prelude.Distinct.{Distinct, Distinct-map_snoc, Distinct-map-keep, In-map}
use dart_backend.Prelude.Results.{ok}
use dart_backend.Bridge.Members.{
  Table, StoredMapping, stored_key, is_of, commit, rows_of, delete_app,
}
use dart_backend.Bridge.Members.Keys.{IsKeyed, keys, commit-IsKeyed}
use dart_backend.Copy.{copy_mapping, copy_mappings}

pub delete_app-IsKeyed :
    (recon_id app_number : ℕ) (table : Table)
    → IsKeyed table
    → IsKeyed (delete_app recon_id app_number table)
unfolding delete_app
delete_app-IsKeyed recon_id app_number table (distinct_ids, distinct_keys) =
    let other : StoredMapping → _ = λ s. not (is_of recon_id app_number s) in
    (
      Distinct-map-keep {A = StoredMapping} (λ s. s.id) other table distinct_ids,
      Distinct-map-keep stored_key other table distinct_keys,
    )

-- No row is of the recon, as none is of one that is created now.
abbrev pub NoneOf : ℕ → Table → Type 0
NoneOf recon_id table = (s : StoredMapping) → In s table → ¬ (s.recon_id ≡ recon_id)

module _ (source clone : ℕ) where
  copies-Distinct :
      (next_id : ℕ) (rows written : Table)
      → ((s : StoredMapping) → In s rows → s.recon_id ≡ source)
      → Distinct (keys rows)
      → Distinct (keys written)
      → ((r s : StoredMapping)
          → In r written
          → In s rows
          → ¬ (stored_key r ≡ (clone, (stored_key s).1)))
      → Distinct (keys (written ++ copy_mappings clone next_id rows))
  unfolding copy_mappings
  copies-Distinct next_id [] written of_source d distinct free =
      subst (λ x. Distinct (keys x)) (sym (append-nil written)) distinct
  copies-Distinct next_id (s ∷ rows) written of_source (new, d) distinct free =
      let c = copy_mapping clone next_id s in
      subst (λ x. Distinct (keys x))
        (append_assoc written (c ∷ []) (copy_mappings clone (suc next_id) rows))
        (copies-Distinct (suc next_id) rows (written ++ c ∷ []) (λ x there. of_source x (inr there))
          d
          (Distinct-map_snoc stored_key c written distinct
            (λ r there same. free r s there (inl refl) same))
          (λ r x there x_there same. elim (In-snoc r c written there) [
            | inl old ↦ free r x old (inr x_there) same
            | inr is_c ↦
                let key : (stored_key s).1 ≡ (stored_key x).1 =
                  ap (λ k. k.1) (ap stored_key is_c ∙ same) in
                let recon : s.recon_id ≡ x.recon_id =
                  of_source s (inl refl) ∙ sym (of_source x (inr x_there)) in
                let one : stored_key s ≡ stored_key x =
                  ap (λ n. (n, (stored_key s).1)) recon ∙ ap (λ k. (x.recon_id, k)) key in
                new (subst (λ k. In k (keys rows)) (sym one) (In-map stored_key x rows x_there))
          ]))

pub copies-IsKeyed :
    (source clone next_id : ℕ) (table t : Table)
    → IsKeyed table
    → NoneOf clone table
    → commit (table ++ copy_mappings clone next_id (rows_of source table)) ≡ ok t
    → IsKeyed t
copies-IsKeyed source clone next_id table t (distinct_ids, distinct_keys) none_of h =
    let rows = rows_of source table in
    let mine = λ (s : StoredMapping). nat_beq s.recon_id source in
    commit-IsKeyed (table ++ copy_mappings clone next_id rows) t
      (copies-Distinct source clone next_id rows table
        (λ s there. let (old, same) = In-keep mine table s there in ground arith)
        (Distinct-map-keep stored_key mine table distinct_keys) distinct_keys
        (λ r s there s_there same. none_of r there (ap (λ k. k.0) same)))
      h
