-- ===== src/Bridge/Aliases.antt =====
-- `load_dimension_aliases` of app/services/bridge_resolve.py, over the rows that its queries return and
-- the storage of the uploaded files.
pub mod Names
use dart_backend.Prelude.{
  ℕ, zero, suc, ◌-◌, Bool, true, false, ◌&&◌, not, Option, none, some, List, [], ◌∷◌, ◌++◌,
  if◌then◌else◌, any, find, length, get_elem?, leb, nat_beq, nat_eq, list_eq, pair_eq, is_some,
  or_else,
}
use dart_backend.Prelude.Int.{ℤ, int_of}
use dart_backend.Prelude.Dict.{Dict, get, put}
use dart_backend.Prelude.Text.{Text, strip, lower, is_empty}
use dart_backend.Prelude.Results.{Result, ok, raised, ◌>>=◌, other_error}
use dart_backend.Bridge.{Aliases, is_amount_dimension}
use dart_backend.Import.{lines_from, read_rows}
use dart_backend.Import.Run.{Dimension, DimensionMapping, ImportRun, ImportStatus}

-- What the function reads of an app (`ReconApp`).
pub record AppHeader : Type 0 where
  pub app_number : ℕ
  pub has_header : Bool
  pub delimiter : Text

-- `read_upload_async` and the decoding of what it reads: none for an OSError.
abbrev pub Storage : Type 0
Storage = Text → Option (Result Text)

-- The first loop: the name of a dimension for each app that it has a mapping for.
unfoldable pub name_mappings : Text → List DimensionMapping → Aliases → Aliases
unfolding put lower strip
name_mappings name [] aliases = aliases
name_mappings name (m ∷ mappings) aliases =
    name_mappings name mappings (put (m.app_number, lower (strip name)) name aliases)

unfoldable pub name_dimensions : List Dimension → Aliases → Aliases
name_dimensions [] aliases = aliases
name_dimensions (d ∷ dims) aliases =
    name_dimensions dims
      (if is_amount_dimension d.name then aliases else name_mappings d.name d.mappings aliases)

abbrev pub first_record : List (List Text) → Result (List Text)
first_record [] = raised other_error
first_record (row ∷ rows) = ok row

-- The headers of one run; a run is passed over when its app is not there or has no header, when
-- its file is not read, and when the file has no line.
unfoldable pub headers_of : Storage → Option AppHeader → ImportRun → Result (Option (List Text))
headers_of storage none run = ok none
headers_of storage (some app) run =
    if app.has_header
    then elim (storage run.file_path) [
      | none ↦ ok none
      | some decoded ↦ do text ← decoded; first_headers app.delimiter (lines_from false text)
    ]
    else ok none
  where
    first_headers : Text → List Text → Result (Option (List Text))
    first_headers delimiter [] = ok none
    first_headers delimiter (line ∷ lines) = do
      records ← read_rows delimiter line
      headers ← first_record records
      ok (some headers)

-- The loop over the completed runs, the latest first: the first of each app counts.
unfoldable pub load_headers :
    Storage
    → List AppHeader
    → (seen_apps : List ℕ) → List ImportRun
    → Dict ℕ (List Text)
    → Result (Dict ℕ (List Text))
unfolding put
load_headers storage apps seen_apps [] headers = ok headers
load_headers storage apps seen_apps (run ∷ runs) headers = do
  found ←
      (if any (λ a. nat_beq a run.app_number) seen_apps
        then ok none
        else headers_of storage (find (λ a. nat_beq a.app_number run.app_number) apps) run)
  load_headers storage apps (run.app_number ∷ seen_apps) runs
      (add_headers run.app_number found headers)
  where
    add_headers : ℕ → Option (List Text) → Dict ℕ (List Text) → Dict ℕ (List Text)
    add_headers app none headers = headers
    add_headers app (some names) headers = put app names headers

-- The header at a number from 1; none where the loop goes on.
abbrev pub header_at : Option (List Text) → ℤ → Option Text
header_at none index = none
header_at (some headers) (ℤ.negsuc n) = none
header_at (some headers) (ℤ.pos zero) = none
header_at (some headers) (ℤ.pos (suc n)) = get_elem? headers n

-- The alias of a header, unless it is blank.
abbrev pub alias_header : Text → ℕ → Option Text → Aliases → Aliases
alias_header name app_number none aliases = aliases
alias_header name app_number (some raw) aliases =
    let header = strip raw in
    if is_empty header then aliases else put (app_number, lower header) name aliases

-- A location that is not a number is the name of the column.
abbrev pub alias_location : Dict ℕ (List Text) → Text → ℕ → Text → Aliases → Aliases
alias_location headers name app_number location aliases = elim (int_of location) [
  | none ↦ put (app_number, lower location) name aliases
  | some index ↦ alias_header name app_number (header_at (get app_number headers) index) aliases
]

-- The second loop, over the mappings of a dimension.
unfoldable pub alias_mappings :
    Dict ℕ (List Text) → Text → List DimensionMapping → Aliases → Aliases
unfolding put get lower strip
alias_mappings headers name [] aliases = aliases
alias_mappings headers name (m ∷ mappings) aliases =
    let location = or_else m.column_location [] in
    alias_mappings headers name mappings (
      if m.in_file && not (is_empty location)
      then alias_location headers name m.app_number (strip location) aliases
      else aliases)

unfoldable pub alias_dimensions : Dict ℕ (List Text) → List Dimension → Aliases → Aliases
alias_dimensions headers [] aliases = aliases
alias_dimensions headers (d ∷ dims) aliases = alias_dimensions headers dims (
    if is_amount_dimension d.name
    then aliases
    else alias_mappings headers d.name d.mappings aliases)

-- `runs` are the completed runs of the recon, the latest first.
unfoldable pub load_dimension_aliases :
    Storage → List Dimension → List AppHeader → List ImportRun → Result Aliases
load_dimension_aliases storage dims apps runs = do
  headers ← load_headers storage apps [] runs []
  ok (alias_dimensions headers dims (name_dimensions dims []))
