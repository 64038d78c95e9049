-- ===== src/Prelude/Csv.antt =====
-- Python's `csv` module in the excel dialect with a delimiter: the reader over the lines of a text
-- that end at its line feeds (`io.StringIO`), and the writer.
pub mod Fields
pub mod Roundtrip
use Prim.Native.Nat.{ℕ}
use mathlib.Core.Bool.{Bool, true, false, ◌||◌, ◌&&◌, not}
use mathlib.Core.List.{List, [], ◌∷◌, ◌++◌}
use dart_backend.Prelude.Tests.{nat_beq, if◌then◌else◌}
use dart_backend.Prelude.Lists.{any}
use dart_backend.Prelude.Text.{Text, is_empty}
use dart_backend.Prelude.Results.{Result, ok, raised, other_error, ◌>>=◌}

pub data Mode : Type 0 where
  start_record start_field in_field in_quoted quote_in_quoted eat_crnl : Mode

-- The reader inside a record: the fields so far, and the characters of the one that is read.
pub record Reader : Type 0 where
  pub mode : Mode
  pub field : Text
  pub fields : List Text

abbrev pub fresh : Reader
fresh = record { mode = Mode.start_record; field = []; fields = [] }

abbrev pub quote : ℕ
quote = 34

abbrev pub is_newline : ℕ → Bool
is_newline c = nat_beq c 10 || nat_beq c 13

abbrev pub add_char : Reader → ℕ → Mode → Reader
add_char p c mode = record { mode = mode; field = p.field ++ c ∷ []; fields = p.fields }

abbrev pub save_field : Reader → Mode → Reader
save_field p mode = record { mode = mode; field = []; fields = p.fields ++ p.field ∷ [] }

-- One character at the start of a field.
abbrev pub feed_start : ℕ → Reader → ℕ → Reader
feed_start delimiter p c =
    if is_newline c
    then save_field p Mode.eat_crnl
    else if nat_beq c quote
    then record p { mode = Mode.in_quoted }
    else if nat_beq c delimiter
    then save_field p Mode.start_field
    else add_char p c Mode.in_field

abbrev pub feed_mode : Mode → ℕ → Reader → ℕ → Result Reader
feed_mode Mode.start_record delimiter p c =
    if is_newline c then ok (record p { mode = Mode.eat_crnl }) else ok (feed_start delimiter p c)
feed_mode Mode.start_field delimiter p c = ok (feed_start delimiter p c)
feed_mode Mode.in_field delimiter p c =
    if is_newline c
    then ok (save_field p Mode.eat_crnl)
    else if nat_beq c delimiter
    then ok (save_field p Mode.start_field)
    else ok (add_char p c Mode.in_field)
feed_mode Mode.in_quoted delimiter p c =
    if nat_beq c quote
    then ok (record p { mode = Mode.quote_in_quoted })
    else ok (add_char p c Mode.in_quoted)
feed_mode Mode.quote_in_quoted delimiter p c =
    if nat_beq c quote
    then ok (add_char p c Mode.in_quoted)
    else if nat_beq c delimiter
    then ok (save_field p Mode.start_field)
    else if is_newline c
    then ok (save_field p Mode.eat_crnl)
    else ok (add_char p c Mode.in_field)
feed_mode Mode.eat_crnl delimiter p c = if is_newline c then ok p else raised other_error

-- One character of a line.
abbrev pub feed : ℕ → Reader → ℕ → Result Reader
feed delimiter p c = feed_mode p.mode delimiter p c

-- The records that the end of a line completes, and the reader behind it.
abbrev pub end_mode : Mode → Reader → List (List Text) × Reader
end_mode Mode.start_record p = (p.fields ∷ [], fresh)
end_mode Mode.start_field p = ((p.fields ++ p.field ∷ []) ∷ [], fresh)
end_mode Mode.in_field p = ((p.fields ++ p.field ∷ []) ∷ [], fresh)
end_mode Mode.in_quoted p = ([], p)
end_mode Mode.quote_in_quoted p = ((p.fields ++ p.field ∷ []) ∷ [], fresh)
end_mode Mode.eat_crnl p = (p.fields ∷ [], fresh)

abbrev pub end_line : Reader → List (List Text) × Reader
end_line p = end_mode p.mode p

abbrev pub is_in_quoted : Mode → Bool
is_in_quoted Mode.in_quoted = true
is_in_quoted Mode.start_record = false
is_in_quoted Mode.start_field = false
is_in_quoted Mode.in_field = false
is_in_quoted Mode.quote_in_quoted = false
is_in_quoted Mode.eat_crnl = false

-- The end of the input inside a record gives what has been read of it.
abbrev pub end_input : Reader → List (List Text)
end_input p =
    if is_in_quoted p.mode || not (is_empty p.field) then (p.fields ++ p.field ∷ []) ∷ [] else []

-- `list(csv.reader(io.StringIO(text), delimiter=delimiter))`, where `open_line` says whether the
-- current line has begun.
unfoldable pub read_from : ℕ → Bool → Reader → Text → Result (List (List Text))
read_from delimiter open_line p [] =
    let (records, q) = end_line p in ok (if open_line then records ++ end_input q else end_input p)
read_from delimiter open_line p (c ∷ s) = do
  q ← feed delimiter p c
  let (records, r) = (if nat_beq c 10 then end_line q else ([], q))
  rest ← read_from delimiter (not (nat_beq c 10)) r s
  ok (records ++ rest)

unfoldable pub read_csv : ℕ → Text → Result (List (List Text))
read_csv delimiter text = read_from delimiter false fresh text

-- The text of a field between its quotes.
unfoldable pub doubled : Text → Text
doubled [] = []
doubled (c ∷ s) = let rest = doubled s in if nat_beq c quote then quote ∷ quote ∷ rest else c ∷ rest

abbrev pub is_special : ℕ → Bool
is_special c = nat_beq c 44 || nat_beq c quote || is_newline c

unfoldable pub write_field : Text → Text
write_field field = if any is_special field then quote ∷ doubled field ++ quote ∷ [] else field

-- The fields behind the first.
unfoldable pub write_more : List Text → Text
write_more [] = 13 ∷ 10 ∷ []
write_more (f ∷ fields) = 44 ∷ write_field f ++ write_more fields

-- `csv.writer(buffer).writerow(row)`: a row of one empty field is quoted, and the line ends with a
-- carriage return and a line feed.
unfoldable pub write_row : List Text → Text
write_row [] = 13 ∷ 10 ∷ []
write_row ([] ∷ []) = 34 ∷ 34 ∷ 13 ∷ 10 ∷ []
write_row (f ∷ fields) = write_field f ++ write_more fields

unfoldable pub write_rows : List (List Text) → Text
write_rows [] = []
write_rows (row ∷ rows) = write_row row ++ write_rows rows
