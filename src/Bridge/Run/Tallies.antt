-- ===== src/Bridge/Run/Tallies.antt =====
-- The loop of `_run_bridge` (app/tasks/bridge_tasks.py): the flags and counts that it collects.
use mathlib.Core.List.{append_assoc, append-nil}
use dart_backend.Prelude.{
  ℕ, suc, ◌+◌, ◌≡◌, inl, inr, refl, ap, sym, ◌∙◌, Bool, true, false, Option, none, some, List, [],
  ◌∷◌, ◌++◌, arith, if◌then◌else◌, In, nat_eq, or_else, is_some, All,
}
use dart_backend.Prelude.Dict.{Dict}
use dart_backend.Prelude.Text.{Text}
use dart_backend.Prelude.Results.{Exception, ok, raised, Result-cases}
use dart_backend.Bridge.{ImportedRow, Lookup}
use dart_backend.Bridge.Resolve.{ResolvedBridgeRow, resolve_imported_row}
use dart_backend.Bridge.Run.{Tally, count_row, tally_rows}

add_count :
    (b : Bool) (t next count : ℕ) {n : ℕ}
    → next ≡ (if b then suc t else t)
    → n ≡ next + count
    → n ≡ t + ((if b then 1 else 0) + count)
add_count true t next count counted total = omega (arith, counted, total)
add_count false t next count counted total = omega (arith, counted, total)

-- The number of the updates to true.
abbrev pub count_true : Dict ℕ Bool → ℕ
count_true [] = 0
count_true ((i, b) ∷ updates) = (if b then 1 else 0) + count_true updates

module _ (dim_names : List Text) (lookup : Lookup) where
  -- Whether the bridge marks a row, where it can be resolved.
  unfoldable pub flag : ImportedRow → Option Bool
  flag row = elim (resolve_imported_row row.app_number row.cells dim_names lookup) [
    | ok resolved ↦ some resolved.kickout
    | raised e ↦ none
  ]

  -- The updates of the rows, where they all resolve.
  abbrev pub flagged : List ImportedRow → Dict ℕ Bool
  flagged [] = []
  flagged (row ∷ rows) = (row.id, or_else (flag row) false) ∷ flagged rows

  -- What the loop leaves of its variables.
  abbrev pub Tallied : List ImportedRow → Tally → Tally × Bool → Type 0
  Tallied rows t (after, true) =
      (after.updates ≡ t.updates ++ flagged rows)
      × All (λ row. is_some (flag row) ≡ true) rows
      × (after.kickout_count ≡ t.kickout_count + count_true (flagged rows))
  Tallied rows t (after, false) = (row : ImportedRow) × In row rows × (flag row ≡ none)

  tally-step :
      (row : ImportedRow) (rows : List ImportedRow) (b : Bool) (t next : Tally)
      (after : Tally × Bool)
      → flag row ≡ some b
      → next.updates ≡ t.updates ++ (row.id, b) ∷ []
      → next.kickout_count ≡ (if b then suc t.kickout_count else t.kickout_count)
      → Tallied rows next after
      → Tallied (row ∷ rows) t after
  tally-step row rows b t next (after, true) is_flag added counted (behind, resolved, total) = (
    rw is_flag (
        behind
        ∙ ap (λ u. u ++ flagged rows) added
        ∙ append_assoc t.updates ((row.id, b) ∷ []) (flagged rows)),
    (rw is_flag refl, resolved),
    rw is_flag (add_count b t.kickout_count next.kickout_count _ counted total),
  )
  tally-step row rows b t next (after, false) is_flag added counted (r, there, bad) =
      (r, inr there, bad)

  flag-ok :
      (row : ImportedRow) (r : ResolvedBridgeRow)
      → resolve_imported_row row.app_number row.cells dim_names lookup ≡ ok r
      → flag row ≡ some r.kickout
  unfolding flag
  flag-ok row r h = rw (h, flag) refl

  flag-raised :
      (row : ImportedRow) (e : Exception)
      → resolve_imported_row row.app_number row.cells dim_names lookup ≡ raised e
      → flag row ≡ none
  unfolding flag
  flag-raised row e h = rw (h, flag) refl

  tally_rows-nil :
      (total before : ℕ) (t : Tally) → Tallied [] t (tally_rows dim_names lookup total before [] t)
  unfolding tally_rows
  tally_rows-nil total before t = (sym (append-nil t.updates), tt, omega arith)

  tally_rows-cons :
      (total before : ℕ) (row : ImportedRow) (rows : List ImportedRow) (t : Tally)
      (r : ResolvedBridgeRow)
      → resolve_imported_row row.app_number row.cells dim_names lookup ≡ ok r
      → tally_rows dim_names lookup total before (row ∷ rows) t
        ≡ tally_rows dim_names lookup total
            (suc before)
            rows
            (count_row dim_names lookup total (suc before) t row r.kickout)
  unfolding tally_rows
  tally_rows-cons total before row rows t r h = rw (h, tally_rows) refl

  tally_rows-raised :
      (total before : ℕ) (row : ImportedRow) (rows : List ImportedRow) (t : Tally) (e : Exception)
      → resolve_imported_row row.app_number row.cells dim_names lookup ≡ raised e
      → ◌≡◌ {A = Tally × Bool} (tally_rows dim_names lookup total before (row ∷ rows) t) (t, false)
  unfolding tally_rows
  tally_rows-raised total before row rows t e h = rw (h, tally_rows) refl

  pub tally_rows-Tallied :
      (total before : ℕ) (rows : List ImportedRow) (t : Tally)
      → Tallied rows t (tally_rows dim_names lookup total before rows t)
  tally_rows-Tallied total before [] t = tally_rows-nil total before t
  tally_rows-Tallied total before (row ∷ rows) t =
      elim (Result-cases (resolve_imported_row row.app_number row.cells dim_names lookup)) [
        | inr (e, h) ↦
            rw (tally_rows-raised total before row rows t e h) (row, inl refl, flag-raised row e h)
        | inl (r, h) ↦ rw (tally_rows-cons total before row rows t r h) (
            tally-step row rows r.kickout t
              (count_row dim_names lookup total (suc before) t row r.kickout)
              (tally_rows dim_names lookup total (suc before) rows
                (count_row dim_names lookup total (suc before) t row r.kickout))
              (flag-ok row r h) refl refl
              (tally_rows-Tallied total (suc before) rows
                (count_row dim_names lookup total (suc before) t row r.kickout)))
      ]
