-- ===== src/Bridge/Members/Importing.antt =====
-- `import_bridge_mappings` of app/api/v1/endpoints/bridge_mappings.py, over the text that the
-- decoding of the uploaded file gives. The reader of the csv module sees the whole text before the
-- first row is handled.
use dart_backend.Prelude.{
  ℕ, suc, Bool, true, false, ◌||◌, ◌&&◌, not, Option, none, some, List, [], ◌∷◌, ◌++◌,
  if◌then◌else◌, keep, map, any, all, ◌==◌, nat_beq, nat_eq, list_eq, pair_eq, list_beq, or_else,
  is_some,
}
use dart_backend.Prelude.Int.{ℤ, int_of}
use dart_backend.Prelude.Csv.{read_csv}
use dart_backend.Prelude.Dict.{Dict, get, put}
use dart_backend.Prelude.Text.{Text, txt, is_empty, lower, strip, number_text}
use dart_backend.Prelude.Results.{Exception, Result, ok, raised, raise_if, ◌>>=◌, app_error}
use dart_backend.Security.{get_accessible_recon}
use dart_backend.Bridge.{
  BridgeMapping, MappingKey, Aliases, mapping_key, truthy_flag, is_amount_dimension,
  canonical_dimension_name,
}
use dart_backend.Bridge.Members.{
  Request, Table, StoredMapping, assert_app_not_signed_off, delete_app, commit, rows_of,
}
use dart_backend.Bridge.Members.Requests.{BridgeMappingRead, to_read}

abbrev pub csv_aliases : Dict Text Text
csv_aliases =
    (txt "dimension", txt "dimension_name")
    ∷ (txt "source member", txt "source_member")
    ∷ (txt "bridge member", txt "bridge_member")
    ∷ (txt "flip sign", txt "flip_sign")
    ∷ (txt "comments", txt "dim_comment")
    ∷ (txt "comment", txt "dim_comment")
    ∷ (txt "dimension comment", txt "dim_comment")
    ∷ (txt "bridge comment", txt "bridge_comment")
    ∷ (txt "journal entry comment", txt "je_comment")
    ∷ (txt "je comment", txt "je_comment")
    ∷ (txt "invalid flag", txt "is_invalid")
    ∷ (txt "invalid", txt "is_invalid")
    ∷ []

-- `s.replace(" ", "_")`
abbrev pub underscored : Text → Text
underscored s = map (λ c. if nat_beq c 32 then 95 else c) s

unfoldable pub normalize_csv_headers : List Text → List Text
unfolding get lower strip list_beq
normalize_csv_headers fieldnames =
    map (λ name. or_else (get (lower (strip name)) csv_aliases) (underscored (lower (strip name))))
      fieldnames

-- `dict(zip(keys, values, strict=True))`, where the lists have one length.
unfoldable pub dict_of : List Text → List Text → Dict Text Text → Dict Text Text
unfolding put list_beq
dict_of [] values d = d
dict_of (k ∷ keys) [] d = d
dict_of (k ∷ keys) (v ∷ values) d = dict_of keys values (put k v d)

-- A row of `csv.DictReader`: the columns that a short row has not are None. The list of the cells
-- behind the last header, at the key None, is not read.
abbrev pub Row : Type 0
Row = Dict Text (Option Text)

unfoldable pub row_of : List Text → List Text → Row → Row
unfolding put list_beq
row_of [] values d = d
row_of (k ∷ keys) [] d = row_of keys [] (put k none d)
row_of (k ∷ keys) (v ∷ values) d = row_of keys values (put k (some v) d)

-- The cell at the first header of the normalized name.
unfoldable pub cell_of : Dict Text Text → Row → Text → Text
unfolding get strip list_beq
cell_of [] row key = []
cell_of ((original, normalized) ∷ header_map) row key =
    if normalized == key
    then strip (or_else (or_else (get original row) none) [])
    else cell_of header_map row key

-- What the statements before the loop leave of the file.
pub record File : Type 0 where
  pub fieldnames : List Text
  pub header_map : Dict Text Text
  pub rows : List (List Text)

abbrev pub is_empty_row : List Text → Bool
is_empty_row [] = true
is_empty_row (c ∷ cs) = false

-- `csv.DictReader` passes over the empty records behind the header.
abbrev pub file_of : List (List Text) → File
file_of [] = record { fieldnames = []; header_map = []; rows = [] }
file_of (names ∷ rows) = record {
  fieldnames = names;
  header_map = dict_of names (normalize_csv_headers names) [];
  rows = keep (λ row. not (is_empty_row row)) rows;
}

abbrev pub required_message : Bool → Text
required_message true = txt "CSV must include columns: bridge_member, dimension_name, source_member"
required_message false =
    txt "CSV must include columns: app_number, bridge_member, dimension_name, source_member"

abbrev pub required : Bool → List Text
required true = txt "dimension_name" ∷ txt "source_member" ∷ txt "bridge_member" ∷ []
required false =
    txt "app_number" ∷ txt "dimension_name" ∷ txt "source_member" ∷ txt "bridge_member" ∷ []

-- `app_given` says whether the form has an app number.
unfoldable pub read_file : (app_given : Bool) → Text → Result File
unfolding list_beq
read_file app_given raw = do
  records ← read_csv 44 raw
  let file = file_of records
  complete ←
      raise_if
        (not (
          all (λ name. any (λ f. f == name) (normalize_csv_headers file.fieldnames))
            (required app_given)))
        (app_error (required_message app_given) (txt "invalid_import_format"))
  ok file

-- The local variables of the loop: the rows that the session holds, the index of them by key with
-- their identifiers, the keys of the file, and the identifiers of the rows touched.
pub record Import : Type 0 where
  pub rows : Table
  pub existing_keys : Dict MappingKey ℕ
  pub seen_in_file : List MappingKey
  pub touched : List ℕ
  pub next_id : ℕ

-- The two keys of each row.
unfoldable pub index_keys : Aliases → Table → Dict MappingKey ℕ → Dict MappingKey ℕ
unfolding list_beq put mapping_key
index_keys aliases [] d = d
index_keys aliases (s ∷ table) d =
    let m = s.mapping in
    let common = canonical_dimension_name m.dimension_name m.app_number aliases in
    index_keys aliases table (
      put (mapping_key m.app_number common m.source_member) s.id
        (put (mapping_key m.app_number m.dimension_name m.source_member) s.id d))

-- `text or None`
abbrev pub or_none : Text → Option Text
or_none [] = none
or_none (c ∷ s) = some (c ∷ s)

-- The bridge comment is the dimension's where it has none.
abbrev pub comment_of : Option Text → Option Text → Option Text
comment_of dim_comment (some c) = some c
comment_of dim_comment none = dim_comment

abbrev pub row_error : ℕ → Text → Result ℕ
row_error line_no why =
    raised
      (app_error (txt "Row " ++ number_text line_no ++ txt ": " ++ why) (txt "invalid_import_row"))

-- A number below zero is taken as 0: both are outside the range of the column.
abbrev natural : ℤ → ℕ
natural (ℤ.pos n) = n
natural (ℤ.negsuc n) = 0

-- `value_error` is the message of the ValueError that `int` raises.
unfoldable pub row_app_of : (value_error : Text → Text) → Option ℕ → ℕ → Text → Result ℕ
row_app_of value_error (some app_number) line_no text = ok app_number
row_app_of value_error none line_no text = elim (int_of text) [
  | some n ↦ ok (natural n)
  | none ↦ row_error line_no (value_error text)
]

-- The mapping that a row writes.
unfoldable pub mapping_of_row : Dict Text Text → Row → ℕ → Text → BridgeMapping
mapping_of_row header_map row row_app dimension_name =
    let cell = cell_of header_map row in
    let dim_comment = or_none (cell (txt "dim_comment")) in
    record {
      app_number = row_app;
      dimension_name = dimension_name;
      source_member = cell (txt "source_member");
      bridge_member = cell (txt "bridge_member");
      flip_sign = truthy_flag (some (cell (txt "flip_sign")));
      dim_comment = dim_comment;
      bridge_comment = comment_of dim_comment (or_none (cell (txt "bridge_comment")));
      je_comment = or_none (cell (txt "je_comment"));
      is_invalid = truthy_flag (some (cell (txt "is_invalid")));
    }

-- `existing` takes what the row says; its app and its source member stay.
abbrev pub overwrite_row : ℕ → BridgeMapping → StoredMapping → StoredMapping
overwrite_row id m s =
    if nat_beq s.id id
    then record s {
      mapping = record m {
        app_number = s.mapping.app_number;
        source_member = s.mapping.source_member;
      };
    }
    else s

-- The row of a key that the index has, and of one that it has not.
unfoldable pub place_row : ℕ → Bool → MappingKey → BridgeMapping → Option ℕ → Import → Import
unfolding list_beq put
place_row recon_id overwrite key m (some existing) st =
    if overwrite
    then record st {
      rows = map {A = StoredMapping} (overwrite_row existing m) st.rows;
      touched = st.touched ++ existing ∷ [];
    }
    else st
place_row recon_id overwrite key m none st = record {
  rows = st.rows ++ record { id = st.next_id; recon_id = recon_id; mapping = m } ∷ [];
  existing_keys = put key st.next_id st.existing_keys;
  seen_in_file = st.seen_in_file;
  touched = st.touched ++ st.next_id ∷ [];
  next_id = suc st.next_id;
}

-- The check of the app of the form.
abbrev pub assert_given : Request → Option ℕ → Result (Unit {0})
assert_given q none = ok tt
assert_given q (some app_number) = assert_app_not_signed_off q.signoffs q.recon_id app_number

-- The rows that an import starts from.
unfoldable pub wiped : ℕ → (overwrite : Bool) → Option ℕ → Table → Table
wiped recon_id overwrite none table = table
wiped recon_id overwrite (some app_number) table =
    if overwrite then delete_app recon_id app_number table else table

abbrev pub start_import : Request → ℕ → Table → Import
start_import q next_id kept = record {
  rows = kept;
  existing_keys = index_keys q.aliases (rows_of q.recon_id kept) [];
  seen_in_file = [];
  touched = [];
  next_id = next_id;
}

abbrev pub touched_rows : List ℕ → Table → Table
touched_rows [] saved = []
touched_rows (id ∷ ids) saved = keep (λ s. nat_beq s.id id) saved ++ touched_rows ids saved

abbrev pub overwrite_unscoped : Exception
overwrite_unscoped = app_error (txt "Overwrite requires app_number.") (txt "invalid_import_format")

module _ (value_error : Text → Text) (q : Request) (app_number : Option ℕ) (overwrite : Bool) where
  -- The statements of the loop from the key of the row.
  unfoldable pub import_mapping : BridgeMapping → Import → Import
  unfolding list_beq get mapping_key
  import_mapping m st =
      let key = mapping_key m.app_number m.dimension_name m.source_member in
      if any (λ k. k == key) st.seen_in_file
      then st
      else place_row q.recon_id overwrite key m (get key st.existing_keys)
          (record st { seen_in_file = st.seen_in_file ++ key ∷ [] })

  -- The statements behind the check of the three cells.
  unfoldable pub import_checked : BridgeMapping → Import → Result Import
  import_checked m st = if is_amount_dimension m.dimension_name then ok st else do
    allowed ←
        (if is_some app_number
          then ok tt
          else assert_app_not_signed_off q.signoffs q.recon_id m.app_number)
    ok (import_mapping m st)

  unfoldable pub import_row : Dict Text Text → ℕ → Row → Import → Result Import
  import_row header_map line_no row st = do
    row_app ← row_app_of value_error app_number line_no (cell_of header_map row (txt "app_number"))
    let dimension_name =
        canonical_dimension_name (cell_of header_map row (txt "dimension_name")) row_app q.aliases
    let m = mapping_of_row header_map row row_app dimension_name
    complete ←
        (if is_empty m.dimension_name || is_empty m.source_member || is_empty m.bridge_member
          then row_error line_no
              (txt "dimension_name, source_member, and bridge_member are required")
          else ok 0)
    import_checked m st

  unfoldable pub import_rows : File → ℕ → List (List Text) → Import → Result Import
  import_rows file line_no [] st = ok st
  import_rows file line_no (row ∷ rows) st = do
    next ← import_row file.header_map line_no (row_of file.fieldnames row []) st
    import_rows file (suc line_no) rows next

  unfoldable pub import_bridge_mappings :
      (next_id : ℕ) → Text → Table → Result (Table × List BridgeMappingRead)
  import_bridge_mappings next_id raw table = do
    recon ← get_accessible_recon q.tables q.user q.recon_id
    scoped ← raise_if (overwrite && not (is_some app_number)) overwrite_unscoped
    allowed ← assert_given q app_number
    file ← read_file (is_some app_number) raw
    let kept = wiped q.recon_id overwrite app_number table
    done ← import_rows file 2 file.rows (start_import q next_id kept)
    saved ← commit done.rows
    ok (saved, map {A = StoredMapping} (to_read q.app_names) (touched_rows done.touched saved))
