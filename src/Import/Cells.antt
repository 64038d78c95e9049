-- ===== src/Import/Cells.antt =====
-- The cells and the columns of a row in `validate_and_parse` (app/services/import_validation.py).
use dart_backend.Prelude.{
  ℕ, ◌≡◌, refl, sym, subst, ◌∙◌, inl, inr, true, false, some, List, [], ◌∷◌, if◌then◌else◌, map,
  or_else, In, Bool-cases, Option-cases, arith, list_eq, nat_eq, ◌==◌, ==_refl, eq_of_==,
}
use dart_backend.Prelude.Dict.{Dict, get, put, get-put}
use dart_backend.Prelude.Distinct.{Distinct}
use dart_backend.Prelude.Text.{Text, is_empty}
use dart_backend.Prelude.Results.{Result, ok, >>=-eq-ok, ok_inj}
use dart_backend.Import.{
  DimensionForValidation, Resolved, column_of, resolve_columns, fill_defaults, cell_at, invalid,
  invalid_column, blank_cell,
}

-- The value that a dimension takes in a record of the file.
abbrev pub value_of : DimensionForValidation → List Text → Text
value_of dim row =
    let cell = cell_at row (or_else (column_of dim) 0) in
    let default = or_else dim.default_value [] in
    if dim.in_file then if is_empty cell then default else cell else default

-- A parsed row has the value of each dimension, which is not blank when it comes from the file.
abbrev pub Holds : List DimensionForValidation → List Text → Dict Text Text → Type 0
Holds dims row parsed =
    (d : DimensionForValidation)
    → In d dims
    → (get d.name parsed ≡ some (value_of d row))
      × (d.in_file ≡ true → is_empty (value_of d row) ≡ false)

-- The rows agree one by one, in their order.
abbrev pub Each :
    (List Text → Dict Text Text → Type 0) → List (List Text) → List (Dict Text Text) → Type 0
Each R [] [] = Unit
Each R (row ∷ rows) (p ∷ parsed) = R row p × Each R rows parsed
Each R (row ∷ rows) [] = ⊥
Each R [] (p ∷ parsed) = ⊥

abbrev pub names : List DimensionForValidation → List Text
names dims = map {A = DimensionForValidation} (λ d. d.name) dims

pub get-put_same : (k v : Text) (d : Dict Text Text) → get k (put k v d) ≡ some v
get-put_same k v d = rw (get-put k k v d) (rw (==_refl k) refl)

pub get-put_other : (k j v : Text) (d : Dict Text Text) → ¬ (k ≡ j) → get j (put k v d) ≡ get j d
get-put_other k j v d differ = rw (get-put k j v d) (elim (Bool-cases (k == j)) [
  | inl same ↦ absurd (differ (eq_of_== k j same))
  | inr other ↦ rw other refl
])

pub fill_defaults-other :
    (dims : List DimensionForValidation) (parsed : Dict Text Text) (n : Text)
    → ¬ In n (names dims)
    → get n (fill_defaults dims parsed) ≡ get n parsed
unfolding fill_defaults
fill_defaults-other [] parsed n new = refl
fill_defaults-other (d ∷ dims) parsed n new =
    fill_defaults-other dims _ n (λ i. new (inr i))
    ∙ get-put_other d.name n (or_else d.default_value []) parsed (λ same. new (inl same))

pub fill_defaults-own :
    (dims : List DimensionForValidation) (parsed : Dict Text Text) (d : DimensionForValidation)
    → Distinct (names dims)
    → In d dims
    → get d.name (fill_defaults dims parsed) ≡ some (or_else d.default_value [])
unfolding fill_defaults
fill_defaults-own [] parsed d distinct there = absurd there
fill_defaults-own (e ∷ dims) parsed d (new, distinct) (inr there) =
    fill_defaults-own dims _ d distinct there
fill_defaults-own (e ∷ dims) parsed d (new, distinct) (inl same) =
    subst (λ x. get x.name (fill_defaults (e ∷ dims) parsed) ≡ some (or_else x.default_value []))
      same
      (fill_defaults-other dims _ e.name new
        ∙ get-put_same e.name (or_else e.default_value []) parsed)

-- The columns that were resolved, of the dimensions in their order.
abbrev pub Columns : List DimensionForValidation → Resolved → Type 0
Columns [] [] = Unit
Columns (d ∷ dims) ((e, column) ∷ rest) = (e ≡ d) × (column_of d ≡ some column) × Columns dims rest
Columns (d ∷ dims) [] = ⊥
Columns [] (p ∷ rest) = ⊥

pub resolve_columns-Columns :
    (dims : List DimensionForValidation) (resolved : Resolved)
    → resolve_columns dims ≡ ok resolved
    → Columns dims resolved
unfolding resolve_columns
resolve_columns-Columns [] resolved h = subst (Columns []) (ok_inj [] resolved h) tt
resolve_columns-Columns (d ∷ dims) resolved h = elim (Option-cases (column_of d)) [
  | inl nothing ↦ absurd (
      let h' : ◌≡◌ {A = Result Resolved} (invalid (invalid_column d.name)) (ok resolved) =
        (rw (resolve_columns, nothing) at h) in
      ground arith)
  | inr (column, found) ↦
      let (rest, is_rest, h1) =
        >>=-eq-ok (resolve_columns dims) _ (let h' = (rw (resolve_columns, found) at h) in h') in
      subst (Columns (d ∷ dims)) (ok_inj _ resolved h1)
        (refl, found, resolve_columns-Columns dims rest is_rest)
]

-- The cell that is read, or the default in place of a blank one.
abbrev pub read_cell : ℕ → List Text → DimensionForValidation → ℕ → Result Text
read_cell line_no row dim column =
    if is_empty (cell_at row column)
    then if is_empty (or_else dim.default_value [])
      then invalid (blank_cell line_no column dim.name)
      else ok (or_else dim.default_value [])
    else ok (cell_at row column)

pub read_cell-value :
    (line_no : ℕ) (row : List Text) (d : DimensionForValidation) (column : ℕ) (cell : Text)
    → d.in_file ≡ true
    → column_of d ≡ some column
    → read_cell line_no row d column ≡ ok cell
    → (cell ≡ value_of d row) × (is_empty (value_of d row) ≡ false)
read_cell-value line_no row d column cell file found h =
    rw (found, file)
      (elim (Bool-cases (is_empty (cell_at row column))) [
        | inr full ↦
            let same = ok_inj _ cell (
              let h' : ◌≡◌ {A = Result Text} (ok (cell_at row column)) (ok cell) = (rw full at h) in
              h') in
            rw full (sym same, full)
        | inl blank ↦ elim (Bool-cases (is_empty (or_else d.default_value []))) [
          | inl missing ↦ absurd (
              let h' : ◌≡◌ {A = Result Text} (invalid (blank_cell line_no column d.name))
                  (ok cell) =
                (rw (blank, missing) at h) in
              ground arith)
          | inr given ↦
              let same = ok_inj _ cell (
                let h' : ◌≡◌ {A = Result Text} (ok (or_else d.default_value [])) (ok cell) =
                  (rw (blank, given) at h) in
                h') in
              rw blank (sym same, given)
        ]
      ])
