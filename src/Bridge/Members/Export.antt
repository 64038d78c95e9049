-- ===== src/Bridge/Members/Export.antt =====
-- `export_bridge_mappings` of app/api/v1/endpoints/bridge_mappings.py: the text of the file and its
-- name.
use dart_backend.Prelude.{
  ℕ, ◌≡◌, ap, sym, ◌∙◌, Bool, Option, none, some, List, [], ◌∷◌, ◌++◌, if◌then◌else◌, map,
}
use dart_backend.Prelude.Csv.{read_csv, write_rows}
use dart_backend.Prelude.Csv.Roundtrip.{IsWritten, read_csv-write_rows}
use dart_backend.Prelude.Text.{Text, txt, number_text}
use dart_backend.Prelude.Results.{Result, ok, ◌>>=◌, >>=-eq-ok, ok_inj}
use dart_backend.Security.{get_accessible_recon}
use dart_backend.Bridge.{BridgeMapping}
use dart_backend.Bridge.Members.{Request, Table, StoredMapping}
use dart_backend.Bridge.Members.Requests.{selected}

abbrev pub yes_no : Bool → Text
yes_no flag = if flag then txt "YES" else txt "NO"

-- `a or b`, where both may be null or empty
abbrev pub or_text : Option Text → Text → Text
or_text none other = other
or_text (some []) other = other
or_text (some (c ∷ s)) other = c ∷ s

abbrev pub comment_cell : BridgeMapping → Text
comment_cell m = or_text m.bridge_comment (or_text m.dim_comment [])

-- The header and the records, of all apps or of one.
unfoldable pub export_header : Option ℕ → List Text
export_header none =
    txt "App Number"
    ∷ txt "Dimension"
    ∷ txt "Source Member"
    ∷ txt "Flip Sign"
    ∷ txt "Bridge Member"
    ∷ txt "Comment"
    ∷ txt "Dimension Comment"
    ∷ txt "Journal Entry Comment"
    ∷ txt "Invalid Flag"
    ∷ []
export_header (some app_number) =
    txt "Dimension"
    ∷ txt "Source Member"
    ∷ txt "Flip Sign"
    ∷ txt "Bridge Member"
    ∷ txt "Comment"
    ∷ []

unfoldable pub export_record : Option ℕ → BridgeMapping → List Text
export_record none m =
    number_text m.app_number
    ∷ m.dimension_name
    ∷ m.source_member
    ∷ yes_no m.flip_sign
    ∷ m.bridge_member
    ∷ comment_cell m
    ∷ or_text m.dim_comment []
    ∷ or_text m.je_comment []
    ∷ yes_no m.is_invalid
    ∷ []
export_record (some app_number) m =
    m.dimension_name ∷ m.source_member ∷ yes_no m.flip_sign ∷ m.bridge_member ∷ comment_cell m ∷ []

abbrev export_name : Option ℕ → Text
export_name none = txt "Bridge_Members_Export.csv"
export_name (some app_number) = txt "App" ++ number_text app_number ++ txt "_Bridge_Export.csv"

unfoldable pub export_bridge_mappings :
    (Text → Text → Bool) → Request → Option ℕ → Table → Result (Text × Text)
export_bridge_mappings collate q app_number table = do
  recon ← get_accessible_recon q.tables q.user q.recon_id
  let rows = selected collate q.recon_id app_number table
  ok (
    export_name app_number,
    write_rows (
        export_header app_number
        ∷ map {A = StoredMapping} (λ s. export_record app_number s.mapping) rows),
  )

IsWritten-records :
    (app_number : Option ℕ) (rows : Table)
    → IsWritten (map {A = StoredMapping} (λ s. export_record app_number s.mapping) rows)
unfolding export_record
IsWritten-records app_number [] = tt
IsWritten-records none (s ∷ rows) = IsWritten-records none rows
IsWritten-records (some a) (s ∷ rows) = IsWritten-records (some a) rows

IsWritten-export :
    (app_number : Option ℕ) (rows : Table)
    → IsWritten (
        export_header app_number
        ∷ map {A = StoredMapping} (λ s. export_record app_number s.mapping) rows)
unfolding export_header
IsWritten-export none rows = IsWritten-records none rows
IsWritten-export (some a) rows = IsWritten-records (some a) rows

-- The text of an export is read back, by the reader of the csv module with its default delimiter, as
-- the header and one record of each selected mapping in their order, whatever commas, quotes and line
-- ends the members and comments hold.
pub read_csv-export :
    (collate : Text → Text → Bool) (q : Request) (app_number : Option ℕ) (table : Table)
    (name text : Text)
    → export_bridge_mappings collate q app_number table ≡ ok (name, text)
    → read_csv 44 text
      ≡ ok (
          export_header app_number
          ∷ map {A = StoredMapping}
              (λ s. export_record app_number s.mapping)
              (selected collate q.recon_id app_number table))
unfolding export_bridge_mappings
read_csv-export collate q app_number table name text h =
    let (recon, got, h1) = >>=-eq-ok (get_accessible_recon q.tables q.user q.recon_id) _ h in
    let rows = selected collate q.recon_id app_number table in
    let written : write_rows (
          export_header app_number
          ∷ map {A = StoredMapping} (λ s. export_record app_number s.mapping) rows)
        ≡ text =
      ap (λ x. x.1) (ok_inj _ _ h1) in
    ap (read_csv 44) (sym written) ∙ read_csv-write_rows _ (IsWritten-export app_number rows)
