-- ===== src/Bridge/Members/Reimport.antt =====
-- What `import_bridge_mappings` of app/api/v1/endpoints/bridge_mappings.py reads in a file that
-- `export_bridge_mappings` wrote.
use dart_backend.Prelude.{
  ℕ, ◌≡◌, refl, false, Option, none, some, List, [], ◌∷◌, map, nat_eq, list_eq,
}
use dart_backend.Prelude.Dict.{Dict}
use dart_backend.Prelude.Text.{Text, txt, strip, lstrip, rstrip, number_text}
use dart_backend.Bridge.{BridgeMapping}
use dart_backend.Bridge.Members.{Table, StoredMapping}
use dart_backend.Bridge.Members.Importing.{File, row_of, cell_of, mapping_of_row, or_none}
use dart_backend.Bridge.Members.Export.{export_record, or_text, comment_cell}

-- The app number that the loop reads in a row, as text, and the mapping that it makes of the row.
abbrev pub row_read : File → ℕ → List Text → Text × BridgeMapping
row_read file app record_cells =
    let row = row_of file.fieldnames record_cells [] in
    (
      cell_of file.header_map row (txt "app_number"),
      mapping_of_row file.header_map row app (cell_of file.header_map row (txt "dimension_name")),
    )

-- A mapping without the white space around its texts, and with its comment, or else that of its
-- dimension, as both comments. The file of one app has no app number, no journal entry comment and
-- no flag for invalid mappings.
abbrev pub stripped : Option ℕ → ℕ → BridgeMapping → Text × BridgeMapping
stripped none app m = (
  strip (number_text m.app_number),
  record {
    app_number = app;
    dimension_name = strip m.dimension_name;
    source_member = strip m.source_member;
    bridge_member = strip m.bridge_member;
    flip_sign = m.flip_sign;
    dim_comment = or_none (strip (comment_cell m));
    bridge_comment = or_none (strip (comment_cell m));
    je_comment = or_none (strip (or_text m.je_comment []));
    is_invalid = m.is_invalid;
  },
)
stripped (some app_number) app m = (
  [],
  record {
    app_number = app;
    dimension_name = strip m.dimension_name;
    source_member = strip m.source_member;
    bridge_member = strip m.bridge_member;
    flip_sign = m.flip_sign;
    dim_comment = or_none (strip (comment_cell m));
    bridge_comment = or_none (strip (comment_cell m));
    je_comment = none;
    is_invalid = false;
  },
)

abbrev records : Option ℕ → Table → List (List Text)
records app_number rows = map {A = StoredMapping} (λ s. export_record app_number s.mapping) rows

-- The header of the file, as it stands and under the names of the columns.
header_map : Option ℕ → Dict Text Text
header_map none =
    (txt "App Number", txt "app_number")
    ∷ (txt "Dimension", txt "dimension_name")
    ∷ (txt "Source Member", txt "source_member")
    ∷ (txt "Flip Sign", txt "flip_sign")
    ∷ (txt "Bridge Member", txt "bridge_member")
    ∷ (txt "Comment", txt "dim_comment")
    ∷ (txt "Dimension Comment", txt "dim_comment")
    ∷ (txt "Journal Entry Comment", txt "je_comment")
    ∷ (txt "Invalid Flag", txt "is_invalid")
    ∷ []
header_map (some app_number) =
    (txt "Dimension", txt "dimension_name")
    ∷ (txt "Source Member", txt "source_member")
    ∷ (txt "Flip Sign", txt "flip_sign")
    ∷ (txt "Bridge Member", txt "bridge_member")
    ∷ (txt "Comment", txt "dim_comment")
    ∷ []

no_text : strip [] ≡ []
unfolding strip lstrip rstrip
no_text = refl
