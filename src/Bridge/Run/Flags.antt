-- ===== src/Bridge/Run/Flags.antt =====
-- The flags, counts and status that `_run_bridge` (app/tasks/bridge_tasks.py) leaves.
use dart_backend.Prelude.{
  ℕ, ◌≡◌, ◌⊎◌, inl, inr, refl, ap, subst, sym, ◌∙◌, Bool, true, false, Option, none, some, List, [],
  ◌∷◌, ◌++◌, arith, if◌then◌else◌, map, length, In, nat_beq, nat_eq, Bool-cases, or_else, is_some,
  All, nat_beq_iff,
}
use dart_backend.Prelude.Dict.{Dict, get}
use dart_backend.Prelude.Text.{Text}
use dart_backend.Bridge.{ImportedRow, Lookup}
use dart_backend.Bridge.Run.{
  BridgeRun, RunStatus, Tally, rows_of, update_kickouts, run_bridge, failure_message, close_run,
  started_run,
}
use dart_backend.Bridge.Run.Tallies.{flag, flagged, count_true, Tallied, tally_rows-Tallied}

-- The identifiers of the rows, a primary key, are distinct.
abbrev pub DistinctIds : List ImportedRow → Type 0
DistinctIds [] = Unit
DistinctIds (row ∷ rows) = ¬ In row.id (map (λ r. r.id) rows) × DistinctIds rows

In-ids :
    (table : List ImportedRow) (row : ImportedRow)
    → In row table
    → In row.id (map (λ r. r.id) table)
In-ids [] row there = absurd there
In-ids (r ∷ table) row (inl same) = inl (ap (λ x. x.id) same)
In-ids (r ∷ table) row (inr there) = inr (In-ids table row there)

module _ (dim_names : List Text) (lookup : Lookup) where
  module _ (recon_id : ℕ) where
    -- The row as the bridge run marks it.
    abbrev pub mark : ImportedRow → ImportedRow
    mark row = record row {
      kickout =
          if nat_beq row.recon_id recon_id
          then or_else (flag dim_names lookup row) false
          else row.kickout;
    }

    -- The updates of the rows of the recon.
    abbrev updates_of : List ImportedRow → Dict ℕ Bool
    updates_of table = flagged dim_names lookup (rows_of recon_id table)

    get-other :
        (table : List ImportedRow) (i : ℕ)
        → ¬ In i (map (λ r. r.id) table)
        → get i (updates_of table) ≡ none
    unfolding get
    get-other [] i new = refl
    get-other (row ∷ table) i new = elim (Bool-cases (nat_beq row.recon_id recon_id)) [
      | inr other ↦ rw other (get-other table i (λ there. new (inr there)))
      | inl mine ↦ rw mine (elim (Bool-cases (nat_beq row.id i)) [
        | inl same ↦ absurd (new (inl ((nat_beq_iff row.id i).0 same)))
        | inr differs ↦ rw differs (get-other table i (λ there. new (inr there)))
      ])
    ]

    get-head :
        (r : ImportedRow) (table : List ImportedRow)
        → ¬ In r.id (map (λ x. x.id) table)
        → get r.id (updates_of (r ∷ table)) ≡ (
            if nat_beq r.recon_id recon_id
            then some (or_else (flag dim_names lookup r) false)
            else none)
    unfolding get
    get-head r table new = elim (Bool-cases (nat_beq r.recon_id recon_id)) [
      | inl mine ↦ rw mine (rw ((nat_beq_iff r.id r.id).1 refl) refl)
      | inr other ↦ rw other (get-other table r.id new)
    ]

    get-behind :
        (r : ImportedRow) (table : List ImportedRow) (i : ℕ)
        → nat_beq r.id i ≡ false
        → get i (updates_of (r ∷ table)) ≡ get i (updates_of table)
    unfolding get
    get-behind r table i differs = elim (Bool-cases (nat_beq r.recon_id recon_id)) [
      | inl mine ↦ rw mine (rw differs refl)
      | inr other ↦ rw other refl
    ]

    get-row :
        (table : List ImportedRow) (row : ImportedRow)
        → DistinctIds table
        → In row table
        → get row.id (updates_of table) ≡ (
            if nat_beq row.recon_id recon_id
            then some (or_else (flag dim_names lookup row) false)
            else none)
    get-row [] row distinct there = absurd there
    get-row (r ∷ table) row distinct (inl same) =
        subst
          (λ x. get x.id (updates_of (r ∷ table)) ≡ (
            if nat_beq x.recon_id recon_id
            then some (or_else (flag dim_names lookup x) false)
            else none))
          same (get-head r table distinct.0)
    get-row (r ∷ table) row distinct (inr there) = elim (Bool-cases (nat_beq r.id row.id)) [
      | inl same ↦ absurd (
          distinct.0 (
            subst (λ i. In i (map (λ x. x.id) table)) (sym ((nat_beq_iff r.id row.id).0 same))
              (In-ids table row there)))
      | inr differs ↦ get-behind r table row.id differs ∙ get-row table row distinct.1 there
    ]

    or_else_if : (c x k : Bool) → or_else (if c then some x else none) k ≡ (if c then x else k)
    or_else_if true x k = refl
    or_else_if false x k = refl

    mark_found :
        (row : ImportedRow) (found : Option Bool)
        → found ≡ (
            if nat_beq row.recon_id recon_id
            then some (or_else (flag dim_names lookup row) false)
            else none)
        → ◌≡◌ {A = ImportedRow} (record row { kickout = or_else found row.kickout }) (mark row)
    mark_found row found h =
        ap (λ k. record row { kickout = k })
          (ap (λ o. or_else o row.kickout) h
            ∙ or_else_if (nat_beq row.recon_id recon_id) (or_else (flag dim_names lookup row) false)
                row.kickout)

    map-same :
        (f g : ImportedRow → ImportedRow) (rows : List ImportedRow)
        → ((row : ImportedRow) → In row rows → f row ≡ g row)
        → map f rows ≡ map g rows
    map-same f g [] each = refl
    map-same f g (row ∷ rows) each =
        rw (each row (inl refl), map-same f g rows (λ r i. each r (inr i))) refl

    update_kickouts-mark :
        (table : List ImportedRow)
        → DistinctIds table
        → update_kickouts (updates_of table) table ≡ map mark table
    unfolding update_kickouts
    update_kickouts-mark table distinct =
        map-same _ mark table (λ row there. mark_found row _ (get-row table row distinct there))

    -- How a run ends: completed, with every row of the recon resolved and marked as the bridge says,
    -- or failed on a row that cannot be resolved, with the table as it was.
    abbrev pub Outcome : List ImportedRow → BridgeRun × List ImportedRow → Type 0
    Outcome table (run, after) =
        ((run.status ≡ RunStatus.completed)
          × All (λ row. is_some (flag dim_names lookup row) ≡ true) (rows_of recon_id table)
          × (after ≡ map mark table)
          × (run.total_rows ≡ some (length (rows_of recon_id table)))
          × (run.kickout_count ≡ some (count_true (updates_of table))))
        ⊎ ((run.status ≡ RunStatus.failed)
            × (run.error_message ≡ some failure_message)
            × (after ≡ table)
            × ((row : ImportedRow) × In row (rows_of recon_id table)
                × (flag dim_names lookup row ≡ none)))

    closed-Outcome :
        (now : ℕ) (run : BridgeRun) (table : List ImportedRow) (t : Tally) (after : Tally × Bool)
        → DistinctIds table
        → run.total_rows ≡ some (length (rows_of recon_id table))
        → t.updates ≡ []
        → t.kickout_count ≡ 0
        → Tallied dim_names lookup (rows_of recon_id table) t after
        → Outcome table (close_run now run table after)
    closed-Outcome now run table t (after, true) distinct total fresh none_yet
          (updates, resolved, count) =
        inl (
          refl,
          resolved,
          ap (λ u. update_kickouts u table) (updates ∙ ap (λ u. u ++ updates_of table) fresh)
              ∙ update_kickouts-mark table distinct,
          total,
          ap some (omega (arith, count, none_yet)),
        )
    closed-Outcome now run table t (after, false) distinct total fresh none_yet stuck =
        inr (refl, refl, refl, stuck)

-- Over a table with distinct identifiers, a bridge run ends completed or failed. It is completed when
-- every row of its recon resolves: each of those rows is then marked as a kickout exactly if its
-- resolution is one, other rows are left, and the run counts the rows and the kickouts. It fails
-- when a row does not resolve, with its message, and the table is as it was.
pub run_bridge_lem :
    (dim_names : List Text) (lookup : Lookup) (started ended : ℕ) (run : BridgeRun)
    (table : List ImportedRow)
    → DistinctIds table
    → Outcome dim_names lookup run.recon_id table
        (run_bridge dim_names lookup started ended run table)
unfolding run_bridge
run_bridge_lem dim_names lookup started ended run table distinct =
    closed-Outcome dim_names lookup run.recon_id ended
      (started_run started (length (rows_of run.recon_id table)) run) table
      (record { processed_rows = run.processed_rows; kickout_count = 0; updates = [] }) _ distinct
      refl refl refl
      (tally_rows-Tallied dim_names lookup (length (rows_of run.recon_id table)) 0
        (rows_of run.recon_id table)
        (record { processed_rows = run.processed_rows; kickout_count = 0; updates = [] }))
