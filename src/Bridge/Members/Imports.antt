-- ===== src/Bridge/Members/Imports.antt =====
-- What an import of `bridge_mappings` leaves of the rows that are there, and the keys behind it.
use mathlib.Core.List.{append-nil}
use dart_backend.Prelude.{
  ℕ, ◌≡◌, refl, sym, ap, subst, ◌∙◌, inl, inr, Bool, true, false, ◌&&◌, not, Option, none, some,
  List, [], nat_beq, nat_eq, list_eq, pair_eq, is_some, In, In-keep, In-keep_of, arith,
}
use dart_backend.Prelude.Dict.{get-nil}
use dart_backend.Prelude.Distinct.{Distinct, Distinct-map-keep}
use dart_backend.Prelude.Text.{Text}
use dart_backend.Prelude.Results.{ok, >>=-eq-ok, ok_inj, raise_if}
use dart_backend.Security.{get_accessible_recon}
use dart_backend.Bridge.Members.{
  Request, Table, StoredMapping, stored_key, is_of, commit, delete_app, rows_of,
}
use dart_backend.Bridge.Members.Requests.{BridgeMappingRead}
use dart_backend.Bridge.Members.Keys.{IsKeyed, keys, commit-IsKeyed, commit_ok}
use dart_backend.Bridge.Members.Batches.{delete_app-other}
use dart_backend.Bridge.Members.Importing.{
  import_rows, wiped, import_bridge_mappings, read_file, start_import, assert_given,
  overwrite_unscoped,
}
use dart_backend.Bridge.Members.Index.{index_keys-row, index_keys-only}
use dart_backend.Bridge.Members.Loop.{Appended, Loop, import_rows-Loop}

wiped-Distinct :
    (recon_id : ℕ) (overwrite : Bool) (app_number : Option ℕ) (table : Table)
    → Distinct (keys table)
    → Distinct (keys (wiped recon_id overwrite app_number table))
unfolding wiped delete_app
wiped-Distinct recon_id overwrite none table d = d
wiped-Distinct recon_id false (some a) table d = d
wiped-Distinct recon_id true (some a) table d =
    Distinct-map-keep stored_key (λ s. not (is_of recon_id a s)) table d

wiped-given :
    (recon_id : ℕ) (overwrite : Bool) (app_number : Option ℕ) (table : Table) (a : ℕ)
    → overwrite ≡ true
    → app_number ≡ some a
    → wiped recon_id overwrite app_number table ≡ delete_app recon_id a table
unfolding wiped
wiped-given recon_id overwrite app_number table a over given = rw (over, given) refl

-- The loop starts in its invariant.
start-Loop :
    (q : Request) (app_number : Option ℕ) (overwrite : Bool) (next_id : ℕ) (table : Table)
    → Distinct (keys table)
    → let kept = wiped q.recon_id overwrite app_number table in
      Loop q app_number overwrite kept (start_import q next_id kept)
unfolding wiped
start-Loop q app_number overwrite next_id table distinct =
    let kept = wiped q.recon_id overwrite app_number table in
    let mine : StoredMapping → Bool = λ s. nat_beq s.recon_id q.recon_id in
    (
      wiped-Distinct q.recon_id overwrite app_number table distinct,
      ([], sym (append-nil kept), (λ s i. absurd i)),
      (λ s there recon.
          index_keys-row q.aliases (rows_of q.recon_id kept) [] s
            (In-keep_of mine kept s there (rw recon (ground arith)))),
      (λ over a given k key_app had.
          elim (index_keys-only q.aliases (rows_of q.recon_id kept) [] k had) [
            | inl old ↦ absurd (let c = (rw (get-nil k) at old) in ground arith)
            | inr (s, there, app) ↦
                let (in_kept, recon) = In-keep mine kept s there in
                let in_kept' =
                  subst (In s) (wiped-given q.recon_id overwrite app_number table a over given)
                    in_kept in
                let other = delete_app-other q.recon_id a table s in_kept' in
                let same : s.mapping.app_number ≡ a = app ∙ key_app in absurd (ground arith)
          ]),
    )

scoped_of :
    (overwrite : Bool) (app_number : Option ℕ) (u : Unit {0})
    → raise_if (overwrite && not (is_some app_number)) overwrite_unscoped ≡ ok u
    → overwrite ≡ true
    → (a : ℕ) × (app_number ≡ some a)
scoped_of overwrite (some a) u h over = (a, refl)
scoped_of true none u h over = absurd (ground arith)
scoped_of false none u h over = absurd (ground arith)

-- An import that succeeds.
pub import_lem :
    (value_error : Text → Text) (q : Request) (app_number : Option ℕ) (overwrite : Bool)
    (next_id : ℕ) (raw : Text) (table t : Table) (r : List BridgeMappingRead)
    → IsKeyed table
    → import_bridge_mappings value_error q app_number overwrite next_id raw table ≡ ok (t, r)
    → IsKeyed t × Appended q app_number overwrite (wiped q.recon_id overwrite app_number table) t
unfolding import_bridge_mappings
import_lem value_error q app_number overwrite next_id raw table t r (distinct_ids, distinct_keys)
      h =
    let kept = wiped q.recon_id overwrite app_number table in
    let (recon, got, h1) = >>=-eq-ok (get_accessible_recon q.tables q.user q.recon_id) _ h in
    let (u, scoped, h2) =
      >>=-eq-ok (raise_if (overwrite && not (is_some app_number)) overwrite_unscoped) _ h1 in
    let (allowed, open_app, h3) = >>=-eq-ok (assert_given q app_number) _ h2 in
    let (file, is_file, h4) = >>=-eq-ok (read_file (is_some app_number) raw) _ h3 in
    let (done, is_done, h5) =
      >>=-eq-ok
        (import_rows value_error q app_number overwrite file 2 file.rows
          (start_import q next_id kept))
        _ h4 in
    let (saved, committed, h6) = >>=-eq-ok (commit done.rows) _ h5 in
    let same : saved ≡ t = ap (λ x. x.0) (ok_inj _ _ h6) in
    let (distinct, appended, indexed, wiped_keys) =
      import_rows-Loop q app_number overwrite kept (scoped_of overwrite app_number u scoped)
        value_error file 2 file.rows (start_import q next_id kept) done
        (start-Loop q app_number overwrite next_id table distinct_keys) is_done in
    subst (λ x. IsKeyed x × Appended q app_number overwrite kept x) same
      (
        commit-IsKeyed done.rows saved distinct committed,
        subst (Appended q app_number overwrite kept) (commit_ok done.rows saved committed).0
            appended,
      )
