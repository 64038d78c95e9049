-- ===== src/Report/Totals.antt =====
-- The amounts of the groups of `compute_report` (app/services/report_run.py).
use dart_backend.Prelude.{
  ℕ, ◌≡◌, refl, ap, subst, ◌∙◌, sym, Bool, true, false, some, List, [], ◌∷◌, arith, inl, inr,
  if◌then◌else◌, ◌==◌, nat_eq, list_eq, ==_refl, eq_of_==, Bool-cases, or_else,
}
use dart_backend.Prelude.Dict.{Dict, get, put, get-put}
use dart_backend.Prelude.Text.{Text}
use dart_backend.Prelude.Results.{Result, ok, ok_inj, ◌>>=◌, >>=-eq-ok}
use dart_backend.Decimal.{Decimal, add}
use dart_backend.Bridge.{ImportedRow, Lookup}
use dart_backend.Sync.{SyncMapping}
use dart_backend.Report.{
  MatchGroup, Groups, group_at, add_to_group, match_rows, resolve_key_and_amount,
}

-- The group of a key and an app after one group is written.
group_at-put :
    (groups : Groups) (key : List Text) (app : ℕ) (entry : MatchGroup) (k : List Text) (n : ℕ)
    → group_at (put key (put app entry (or_else (get key groups) [])) groups) k n ≡ (
        if key == k then (if app == n then entry else group_at groups k n) else group_at groups k n)
group_at-put groups key app entry k n =
    rw (get-put key k (put app entry (or_else (get key groups) [])) groups)
      (elim (Bool-cases (key == k)) [
        | inr other ↦ rw other
        | inl same ↦ rw same (
            rw (get-put app n entry (or_else (get key groups) [])) (elim (Bool-cases (app == n)) [
              | inl mine ↦ rw mine
              | inr not_mine ↦ rw not_mine (ap (λ j. group_at groups j n) (eq_of_== key k same))
            ]))
      ])

field_if :
    (b c : Bool) (entry old : MatchGroup)
    → (if b then (if c then entry else old) else old).amount
      ≡ (if b then (if c then entry.amount else old.amount) else old.amount)
field_if true true entry old = refl
field_if true false entry old = refl
field_if false c entry old = refl

no_change : (b c : Bool) (x y : Decimal) → c ≡ false → (if b then (if c then x else y) else y) ≡ y
no_change true true x y h = absurd (ground arith)
no_change true false x y h = refl
no_change false c x y h = refl

-- The amount of each group after a row is added to one.
add_to_group-amount :
    (groups after : Groups) (key : List Text) (app : ℕ) (cells : Dict Text Text) (signed : Decimal)
    → add_to_group groups key app cells signed ≡ ok after
    → (sum : Decimal) × (add (group_at groups key app).amount signed ≡ ok sum)
      × ((k : List Text) (n : ℕ)
          → (group_at after k n).amount ≡ (
              if key == k
              then (if app == n then sum else (group_at groups k n).amount)
              else (group_at groups k n).amount))
unfolding add_to_group
add_to_group-amount groups after key app cells signed h =
    let (sum, added, rest) = >>=-eq-ok (add (group_at groups key app).amount signed) _ h in
    let entry : MatchGroup = record { cells = some cells; amount = sum } in
    let written = put key (put app entry (or_else (get key groups) [])) groups in
    (
      sum,
      added,
      λ k n.
          ap (λ g. (group_at g k n).amount) (sym (ok_inj written after rest))
          ∙ ap (λ g. g.amount) (group_at-put groups key app entry k n)
          ∙ field_if (key == k) (app == n) entry (group_at groups k n),
    )

module _ (dim_names : List Text) (lookup : Lookup) (sync_mappings : List SyncMapping) where
  -- The sum of the signed amounts of the rows with one key, in the order of the rows.
  unfoldable pub total_for : List Text → Decimal → List ImportedRow → Result Decimal
  total_for key sum [] = ok sum
  total_for key sum (row ∷ rows) = do
    (k, signed) ← resolve_key_and_amount row dim_names lookup sync_mappings
    next ← (if k == key then add sum signed else ok sum)
    total_for key next rows

  total_for-cons :
      (row : ImportedRow) (rows : List ImportedRow) (k : List Text) (signed : Decimal)
      → resolve_key_and_amount row dim_names lookup sync_mappings ≡ ok (k, signed)
      → (key : List Text) (sum next : Decimal)
      → (if k == key then add sum signed else ok sum) ≡ ok next
      → total_for key sum (row ∷ rows) ≡ total_for key next rows
  unfolding total_for
  total_for-cons row rows k signed resolved key sum next added = rw (resolved, added) refl

  -- What the row adds to the group of a key, by what it adds to the groups.
  added_amount :
      (groups next : Groups) (k : List Text) (app : ℕ) (signed sum : Decimal)
      → add (group_at groups k app).amount signed ≡ ok sum
      → ((j : List Text) (n : ℕ)
          → (group_at next j n).amount ≡ (
              if k == j
              then (if app == n then sum else (group_at groups j n).amount)
              else (group_at groups j n).amount))
      → (key : List Text)
      → (if k == key
          then add (group_at groups key app).amount signed
          else ok (group_at groups key app).amount)
        ≡ ok (group_at next key app).amount
  added_amount groups next k app signed sum added fields key =
      rw (fields key app) (elim (Bool-cases (k == key)) [
        | inr other ↦ rw other refl
        | inl same ↦
            rw (same, ==_refl app)
              (subst (λ j. add (group_at groups j app).amount signed ≡ ok sum) (eq_of_== k key same)
                added)
      ])

  match_rows-cons :
      (app : ℕ) (row : ImportedRow) (rows : List ImportedRow) (groups after : Groups)
      → match_rows dim_names lookup sync_mappings app groups (row ∷ rows) ≡ ok after
      → (r : List Text × Decimal) × (resolve_key_and_amount row dim_names lookup sync_mappings
          ≡ ok r)
        × ((add_to_group groups r.0 app row.cells r.1 >>= λ next.
              match_rows dim_names lookup sync_mappings app next rows)
            ≡ ok after)
  unfolding match_rows
  match_rows-cons app row rows groups after h =
      >>=-eq-ok (resolve_key_and_amount row dim_names lookup sync_mappings) _ h

  total_for-nil :
      (app : ℕ) (groups after : Groups)
      → match_rows dim_names lookup sync_mappings app groups [] ≡ ok after
      → (key : List Text)
      → total_for key (group_at groups key app).amount [] ≡ ok (group_at after key app).amount
  unfolding match_rows total_for
  total_for-nil app groups after h key =
      ap (λ g. ok ((group_at g key app).amount)) (ok_inj groups after h)

  others-nil :
      (app : ℕ) (groups after : Groups)
      → match_rows dim_names lookup sync_mappings app groups [] ≡ ok after
      → (key : List Text) (n : ℕ) → (group_at after key n).amount ≡ (group_at groups key n).amount
  unfolding match_rows
  others-nil app groups after h key n =
      ap (λ g. (group_at g key n).amount) (sym (ok_inj groups after h))

  -- After the rows of one app are matched, each of its groups holds the sum of the rows with its
  -- key: the amount that it held and the signed amounts of those rows, added in their order.
  pub match_rows-total :
      (app : ℕ) (rows : List ImportedRow) (groups after : Groups)
      → match_rows dim_names lookup sync_mappings app groups rows ≡ ok after
      → (key : List Text)
      → total_for key (group_at groups key app).amount rows ≡ ok (group_at after key app).amount
  match_rows-total app [] groups after h key = total_for-nil app groups after h key
  match_rows-total app (row ∷ rows) groups after h key =
      let ((k, signed), resolved, h') = match_rows-cons app row rows groups after h in
      let (next, added_to, rest) = >>=-eq-ok (add_to_group groups k app row.cells signed) _ h' in
      let (sum, added, fields) = add_to_group-amount groups next k app row.cells signed added_to in
      total_for-cons row rows k signed resolved key (group_at groups key app).amount
        (group_at next key app).amount (added_amount groups next k app signed sum added fields key)
      ∙ match_rows-total app rows next after rest key

  -- Matching the rows of one app leaves the amounts of the groups of the other apps.
  pub match_rows-others :
      (app : ℕ) (rows : List ImportedRow) (groups after : Groups)
      → match_rows dim_names lookup sync_mappings app groups rows ≡ ok after
      → (key : List Text) (n : ℕ) → (app == n) ≡ false
      → (group_at after key n).amount ≡ (group_at groups key n).amount
  match_rows-others app [] groups after h key n other = others-nil app groups after h key n
  match_rows-others app (row ∷ rows) groups after h key n other =
      let ((k, signed), resolved, h') = match_rows-cons app row rows groups after h in
      let (next, added_to, rest) = >>=-eq-ok (add_to_group groups k app row.cells signed) _ h' in
      let (sum, added, fields) = add_to_group-amount groups next k app row.cells signed added_to in
      match_rows-others app rows next after rest key n other
      ∙ fields key n
      ∙ no_change (k == key) (app == n) sum (group_at groups key n).amount other
