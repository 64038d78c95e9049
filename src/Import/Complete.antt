-- ===== src/Import/Complete.antt =====
-- The rows that `validate_and_parse` (app/services/import_validation.py) returns.
use dart_backend.Prelude.{
  ℕ, suc, ◌≡◌, refl, sym, ap, subst, ◌∙◌, inl, inr, Bool, true, false, ◌&&◌, not, some, List, [],
  ◌∷◌, if◌then◌else◌, map, or_else, ltb, length, In, In-keep, In-keep_of, Bool-cases, arith,
  list_eq, nat_eq,
}
use dart_backend.Prelude.Dict.{Dict, get, put}
use dart_backend.Prelude.Distinct.{Distinct, Distinct-map-keep, Distinct-map_inj, In-map_witness}
use dart_backend.Prelude.Text.{Text, is_empty}
use dart_backend.Prelude.Results.{ok, raise_if, >>=-eq-ok, ok_inj, import_validation_error}
use dart_backend.Import.{
  DimensionForValidation, Resolved, resolve_columns, read_cells, fill_defaults, parse_rows,
  file_dims, default_dims, data_rows, validate_and_parse, read_rows, check_columns, max_column,
  lines_from, too_short, no_dimensions, is_nil, delimiter_missing, has_part, first_line,
}
use dart_backend.Import.Cells.{
  value_of, Holds, Each, names, get-put_same, get-put_other, fill_defaults-other, fill_defaults-own,
  Columns, resolve_columns-Columns, read_cell, read_cell-value,
}

AllFile : List DimensionForValidation → Type 0
AllFile dims = (d : DimensionForValidation) → In d dims → d.in_file ≡ true

read_cells-other :
    (line_no : ℕ) (row : List Text) (dims : List DimensionForValidation) (resolved : Resolved)
    (before parsed : Dict Text Text) (n : Text)
    → Columns dims resolved
    → ¬ In n (names dims)
    → read_cells line_no row resolved before ≡ ok parsed
    → get n parsed ≡ get n before
unfolding read_cells
read_cells-other line_no row [] [] before parsed n columns new h =
    ap (get n) (sym (ok_inj before parsed h))
read_cells-other line_no row [] (p ∷ rest) before parsed n columns new h = absurd columns
read_cells-other line_no row (d ∷ dims) [] before parsed n columns new h = absurd columns
read_cells-other line_no row (d ∷ dims) ((e, column) ∷ rest) before parsed n (same, found, columns)
      new h =
    let (cell, is_cell, h1) = >>=-eq-ok (read_cell line_no row e column) _ h in
    read_cells-other line_no row dims rest (put e.name cell before) parsed n columns
      (λ i. new (inr i)) h1
    ∙ get-put_other e.name n cell before (λ is_n. new (inl (sym (ap (λ x. x.name) same) ∙ is_n)))

read_cells-own :
    (line_no : ℕ) (row : List Text) (dims : List DimensionForValidation) (resolved : Resolved)
    (before parsed : Dict Text Text)
    → Columns dims resolved
    → AllFile dims
    → Distinct (names dims)
    → read_cells line_no row resolved before ≡ ok parsed
    → Holds dims row parsed
unfolding read_cells AllFile
read_cells-own line_no row [] resolved before parsed columns file distinct h d there = absurd there
read_cells-own line_no row (e ∷ dims) [] before parsed columns file distinct h d there =
    absurd columns
read_cells-own line_no row (e ∷ dims) ((x, column) ∷ rest) before parsed (same, found, columns) file
      (new, distinct) h d (inr there) =
    let (cell, is_cell, h1) = >>=-eq-ok (read_cell line_no row x column) _ h in
    read_cells-own line_no row dims rest (put x.name cell before) parsed columns
      (λ y i. file y (inr i)) distinct h1 d there
read_cells-own line_no row (e ∷ dims) ((x, column) ∷ rest) before parsed (same, found, columns) file
      (new, distinct) h d (inl is_d) =
    let (cell, is_cell, h1) = >>=-eq-ok (read_cell line_no row x column) _ h in
    let read : read_cell line_no row e column ≡ ok cell =
      subst (λ y. read_cell line_no row y column ≡ ok cell) same is_cell in
    let (value, full) = read_cell-value line_no row e column cell (file e (inl refl)) found read in
    let kept : get e.name parsed ≡ get e.name (put x.name cell before) =
      read_cells-other line_no row dims rest (put x.name cell before) parsed e.name columns new
        h1 in
    let written : get e.name (put x.name cell before) ≡ some cell =
      subst (λ n. get n (put x.name cell before) ≡ some cell) (ap (λ y. y.name) same)
        (get-put_same x.name cell before) in
    subst
      (λ y.
        (get y.name parsed ≡ some (value_of y row))
        × (y.in_file ≡ true → is_empty (value_of y row) ≡ false))
      is_d (kept ∙ written ∙ ap some value, (λ f. full))

-- A dimension is one of the file, or has a default only.
module _ (dims : List DimensionForValidation) (distinct : Distinct (names dims)) where
  default-value :
      (d : DimensionForValidation) (row : List Text)
      → d.in_file ≡ false
      → value_of d row ≡ or_else d.default_value []
  default-value d row no_file = rw no_file refl

  apart :
      (d : DimensionForValidation)
      → In d dims
      → d.in_file ≡ true
      → ¬ In d.name (names (default_dims dims))
  apart d there file i =
      let (e, e_there, same) =
        In-map_witness {A = DimensionForValidation} (λ x. x.name) d.name (default_dims dims) i in
      let (e_dims, no_file) =
        In-keep {A = DimensionForValidation} (λ x. not x.in_file) dims e e_there in
      let one =
        Distinct-map_inj {A = DimensionForValidation} (λ x. x.name) dims e d distinct e_dims there
          same in
      let no_file' : not d.in_file ≡ true = subst (λ x. not x.in_file ≡ true) one no_file in
      ground (arith, file)

  row-Holds :
      (line_no : ℕ) (row : List Text) (resolved : Resolved) (parsed : Dict Text Text)
      → Columns (file_dims dims) resolved
      → read_cells line_no row resolved [] ≡ ok parsed
      → Holds dims row (fill_defaults (default_dims dims) parsed)
  unfolding AllFile
  row-Holds line_no row resolved parsed columns h d there = elim (Bool-cases d.in_file) [
    | inl file ↦
        let file_d = In-keep_of {A = DimensionForValidation} (λ x. x.in_file) dims d there file in
        let (value, full) =
          read_cells-own line_no row (file_dims dims) resolved [] parsed columns
            (λ y i. (In-keep {A = DimensionForValidation} (λ x. x.in_file) dims y i).1)
            (Distinct-map-keep {A = DimensionForValidation} (λ x. x.name) (λ x. x.in_file) dims
              distinct)
            h d file_d in
        (fill_defaults-other (default_dims dims) parsed d.name (apart d there file) ∙ value, full)
    | inr no_file ↦
        let default_d =
          In-keep_of {A = DimensionForValidation} (λ x. not x.in_file) dims d there
            (ground (arith, no_file)) in
        (
          fill_defaults-own (default_dims dims) parsed d
                (Distinct-map-keep {A = DimensionForValidation} (λ x. x.name) (λ x. not x.in_file)
                  dims distinct)
                default_d
              ∙ ap some (sym (default-value d row no_file)),
          (λ file. absurd (ground (arith, file, no_file))),
        )
  ]

  parse_rows-Each :
      (resolved : Resolved) (line_no : ℕ) (rows : List (List Text)) (parsed : List (Dict Text Text))
      → Columns (file_dims dims) resolved
      → parse_rows resolved (default_dims dims) line_no rows ≡ ok parsed
      → Each (Holds dims) rows parsed
  unfolding parse_rows
  parse_rows-Each resolved line_no [] parsed columns h =
      subst (Each (Holds dims) []) (ok_inj [] parsed h) tt
  parse_rows-Each resolved line_no (row ∷ rows) parsed columns h =
      let (p, is_p, h1) = >>=-eq-ok (read_cells line_no row resolved []) _ h in
      let (rest, is_rest, h2) =
        >>=-eq-ok (parse_rows resolved (default_dims dims) (suc line_no) rows) _ h1 in
      subst (Each (Holds dims) (row ∷ rows)) (ok_inj _ parsed h2) (
        row-Holds line_no row resolved p columns is_p,
        parse_rows-Each resolved (suc line_no) rows rest columns is_rest,
      )

-- When the names of the dimensions are distinct and a file is accepted, its text is read by the reader
-- of the csv module, and there is one parsed row for each record behind the header, in their order,
-- with the value of every dimension: the cell of its column without white space, its default value in
-- place of a blank cell or of a dimension that the file does not have, and never a blank for one that it has.
pub validate_and_parse-Each :
    (text delimiter : Text) (has_header : Bool) (dims : List DimensionForValidation)
    (parsed : List (Dict Text Text))
    → Distinct (map {A = DimensionForValidation} (λ d. d.name) dims)
    → validate_and_parse text delimiter has_header dims ≡ ok parsed
    → (records : List (List Text)) × (read_rows delimiter text ≡ ok records)
      × Each (Holds dims) (data_rows has_header records) parsed
unfolding validate_and_parse
validate_and_parse-Each text delimiter has_header dims parsed distinct h =
    let lines = lines_from false text in
    let (a, linked, h1) =
      >>=-eq-ok (raise_if (is_nil dims) (import_validation_error no_dimensions)) _ h in
    let (b, long_enough, h2) =
      >>=-eq-ok
        (raise_if (ltb (length lines) (if has_header then 2 else 1))
          (import_validation_error (too_short has_header)))
        _ h1 in
    let (c, delimited, h3) =
      >>=-eq-ok
        (raise_if (has_header && not (has_part delimiter (first_line lines)))
          (import_validation_error (delimiter_missing delimiter)))
        _ h2 in
    let (resolved, is_resolved, h4) = >>=-eq-ok (resolve_columns (file_dims dims)) _ h3 in
    let (records, is_records, h5) = >>=-eq-ok (read_rows delimiter text) _ h4 in
    let (d, counted, h6) =
      >>=-eq-ok (check_columns (max_column resolved) has_header records) _ h5 in
    (
      records,
      is_records,
      parse_rows-Each dims distinct resolved (if has_header then 2 else 1)
          (data_rows has_header records) parsed
          (resolve_columns-Columns (file_dims dims) resolved is_resolved) h6,
    )
