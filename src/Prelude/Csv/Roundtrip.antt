-- ===== src/Prelude/Csv/Roundtrip.antt =====
-- Reading what the writer writes.
use mathlib.Core.List.{append_assoc}
use dart_backend.Prelude.Csv.{
  Mode, fresh, read_from, read_csv, write_field, write_more, write_row, write_rows, doubled,
  is_special, is_newline, quote,
}
use Prim.Native.Nat.{ℕ}
use mathlib.Core.Path.{◌≡◌, refl, ap, ◌∙◌, sym}
use mathlib.Core.Logic.{inl, inr}
use mathlib.Core.Bool.{Bool, true, false}
use mathlib.Core.List.{List, [], ◌∷◌, ◌++◌}
use native.Mathlib.Omega.{arith}
use dart_backend.Prelude.Tests.{Bool-cases}
use dart_backend.Prelude.Lists.{any}
use dart_backend.Prelude.Text.{Text}
use dart_backend.Prelude.Results.{ok, ◌>>=◌}
use dart_backend.Prelude.Csv.Fields.{
  at, Records, step, read_quoted, plain_char, read_plain, Behind, record_then,
}

read_lf :
    (rest : Text) (fields : List Text)
    → read_from 44 true (at Mode.eat_crnl [] fields) (10 ∷ rest) ≡ record_then fields rest
unfolding read_from
read_lf rest fields = refl

read_cr :
    (mode : Mode) (field t : Text) (fields : List Text) (o : Bool)
    → Behind mode field
    → read_from 44 o (at mode field fields) (13 ∷ t)
      ≡ read_from 44 true (at Mode.eat_crnl [] (fields ++ field ∷ [])) t
read_cr Mode.start_record field t fields o h = absurd h
read_cr Mode.start_field field t fields o h =
    step (at Mode.start_field field fields) _ 13 t o refl refl
read_cr Mode.in_field field t fields o h = step (at Mode.in_field field fields) _ 13 t o refl refl
read_cr Mode.in_quoted field t fields o h = absurd h
read_cr Mode.quote_in_quoted field t fields o h =
    step (at Mode.quote_in_quoted field fields) _ 13 t o refl refl
read_cr Mode.eat_crnl field t fields o h = absurd h

read_comma :
    (mode : Mode) (field t : Text) (fields : List Text) (o : Bool)
    → Behind mode field
    → read_from 44 o (at mode field fields) (44 ∷ t)
      ≡ read_from 44 true (at Mode.start_field [] (fields ++ field ∷ [])) t
read_comma Mode.start_record field t fields o h = absurd h
read_comma Mode.start_field field t fields o h =
    step (at Mode.start_field field fields) _ 44 t o refl refl
read_comma Mode.in_field field t fields o h =
    step (at Mode.in_field field fields) _ 44 t o refl refl
read_comma Mode.in_quoted field t fields o h = absurd h
read_comma Mode.quote_in_quoted field t fields o h =
    step (at Mode.quote_in_quoted field fields) _ 44 t o refl refl
read_comma Mode.eat_crnl field t fields o h = absurd h

unquoted :
    (f t : Text) (d : ℕ) (fields : List Text) (o : Bool) (after : Records)
    → any is_special f ≡ false
    → ((mode : Mode) (field : Text) (o' : Bool)
        → Behind mode field
        → field ≡ f
        → read_from 44 o' (at mode field fields) (d ∷ t) ≡ after)
    → read_from 44 o (at Mode.start_field [] fields) (f ++ d ∷ t) ≡ after
unquoted [] t d fields o after plain next = next Mode.start_field [] o refl refl
unquoted (c ∷ s) t d fields o after plain next =
    let here : is_special c ≡ false = ground arith in
    let (comma, quoted, newline, inside) = plain_char c here in
    step (at Mode.start_field [] fields) (at Mode.in_field (c ∷ []) fields) c (s ++ d ∷ t) o
      (rw (newline, quoted, comma) refl) inside
    ∙ read_plain s t (c ∷ []) d fields true (ground arith)
    ∙ next Mode.in_field (c ∷ s) true tt refl

-- A field between its separators, before a text that starts with a character.
read_field :
    (f t : Text) (d : ℕ) (fields : List Text) (o : Bool) (after : Records)
    → ((mode : Mode) (field : Text) (o' : Bool)
        → Behind mode field
        → field ≡ f
        → read_from 44 o' (at mode field fields) (d ∷ t) ≡ after)
    → read_from 44 o (at Mode.start_field [] fields) (write_field f ++ d ∷ t) ≡ after
unfolding write_field
read_field f t d fields o after next = elim (Bool-cases (any is_special f)) [
  | inl special ↦ rw special (
      step (at Mode.start_field [] fields) (at Mode.in_quoted [] fields) quote _ o refl refl
      ∙ ap (λ x. read_from 44 true (at Mode.in_quoted [] fields) x)
          (append_assoc (doubled f) (quote ∷ []) (d ∷ t))
      ∙ read_quoted f (d ∷ t) [] fields true
      ∙ next Mode.quote_in_quoted f true tt refl)
  | inr plain ↦ rw plain (unquoted f t d fields o after plain next)
]

-- The text behind a field starts with a character.
more_head : (fs : List Text) (rest : Text) → (d : ℕ) × (t : Text) × (write_more fs ++ rest ≡ d ∷ t)
unfolding write_more
more_head [] rest = (13, 10 ∷ rest, refl)
more_head (f ∷ fs) rest = (44, (write_field f ++ write_more fs) ++ rest, refl)

-- A field and those behind it, when the latter are read from any mode behind the field.
read_field_then :
    (f : Text) (fs : List Text) (rest : Text) (fields : List Text) (o : Bool) (after : Records)
    → ((mode : Mode) (field : Text) (o' : Bool)
        → Behind mode field
        → field ≡ f
        → read_from 44 o' (at mode field fields) (write_more fs ++ rest) ≡ after)
    → read_from 44 o (at Mode.start_field [] fields) ((write_field f ++ write_more fs) ++ rest)
      ≡ after
read_field_then f fs rest fields o after next =
    let (d, t, same) = more_head fs rest in
    ap (λ x. read_from 44 o (at Mode.start_field [] fields) x)
      (append_assoc (write_field f) (write_more fs) rest ∙ ap (λ x. write_field f ++ x) same)
    ∙ read_field f t d fields o after (λ mode field o' behind is_f.
      ap (λ x. read_from 44 o' (at mode field fields) x) (sym same)
      ∙ next mode field o' behind is_f)

-- What follows a field is a carriage return or a comma.
read_more :
    (fs : List Text) (mode : Mode) (field rest : Text) (fields : List Text) (o : Bool)
    → Behind mode field
    → read_from 44 o (at mode field fields) (write_more fs ++ rest)
      ≡ record_then (fields ++ field ∷ fs) rest
unfolding write_more
read_more [] mode field rest fields o h =
    read_cr mode field (10 ∷ rest) fields o h ∙ read_lf rest (fields ++ field ∷ [])
read_more (f ∷ fs) mode field rest fields o h =
    read_comma mode field ((write_field f ++ write_more fs) ++ rest) fields o h
    ∙ read_field_then f fs rest (fields ++ field ∷ []) true
        (record_then (fields ++ field ∷ f ∷ fs) rest)
        (λ m x o' behind is_f.
          read_more fs m x rest (fields ++ field ∷ []) o' behind
          ∙ ap (λ r. record_then r rest)
              (append_assoc fields (field ∷ []) (x ∷ fs) ∙ ap (λ y. fields ++ field ∷ y ∷ fs) is_f))

-- At the first character of a record the reader is at the start of a field.
at_start :
    (c : ℕ) (s : Text)
    → is_newline c ≡ false
    → read_from 44 false fresh (c ∷ s) ≡ read_from 44 false (at Mode.start_field [] []) (c ∷ s)
unfolding read_from
at_start c s h = rw h refl

plain_head : (c : ℕ) (s : Text) → any is_special (c ∷ s) ≡ false → is_newline c ≡ false
plain_head c s h = ground arith

field_head :
    (f : Text) (t : Text) (c : ℕ) (s : Text)
    → f ≡ c ∷ s
    → (d : ℕ) × (u : Text) × (write_field f ++ t ≡ d ∷ u) × (is_newline d ≡ false)
unfolding write_field
field_head f t c s e = elim (Bool-cases (any is_special f)) [
  | inl special ↦ rw special (quote, (doubled f ++ quote ∷ []) ++ t, refl, refl)
  | inr plain ↦ rw plain (c, s ++ t, ap (λ x. x ++ t) e, plain_head c s (rw e at plain))
]

-- A record whose first field, or the comma behind it, starts a field.
read_from_head :
    (f : Text) (fs : List Text) (rest : Text) (d : ℕ) (u : Text)
    → (write_field f ++ write_more fs) ++ rest ≡ d ∷ u
    → is_newline d ≡ false
    → read_from 44 false fresh ((write_field f ++ write_more fs) ++ rest)
      ≡ record_then (f ∷ fs) rest
read_from_head f fs rest d u same head =
    ap (λ x. read_from 44 false fresh x) same
    ∙ at_start d u head
    ∙ ap (λ x. read_from 44 false (at Mode.start_field [] []) x) (sym same)
    ∙ read_field_then f fs rest [] false (record_then (f ∷ fs) rest) (λ mode field o behind is_f.
      read_more fs mode field rest [] o behind ∙ ap (λ x. record_then (x ∷ fs) rest) is_f)

first_comma :
    (g : Text) (gs : List Text) (rest : Text)
    → (write_field [] ++ write_more (g ∷ gs)) ++ rest
      ≡ 44 ∷ ((write_field g ++ write_more gs) ++ rest)
unfolding write_field write_more
first_comma g gs rest = refl

-- A record that is not empty is read back, before the records of the rest of the text.
pub read_row :
    (f : Text) (fs : List Text) (rest : Text)
    → read_from 44 false fresh (write_row (f ∷ fs) ++ rest) ≡ record_then (f ∷ fs) rest
unfolding write_row
read_row [] [] rest =
    step fresh (at Mode.in_quoted [] []) 34 _ false refl refl
    ∙ step (at Mode.in_quoted [] []) (at Mode.quote_in_quoted [] []) 34 _ true refl refl
    ∙ read_cr Mode.quote_in_quoted [] (10 ∷ rest) [] true tt
    ∙ read_lf rest ([] ∷ [])
read_row [] (g ∷ gs) rest =
    read_from_head [] (g ∷ gs) rest 44 ((write_field g ++ write_more gs) ++ rest)
      (first_comma g gs rest) refl
read_row (c ∷ s) fs rest =
    let (d, u, same, head) = field_head (c ∷ s) (write_more fs ++ rest) c s refl in
    read_from_head (c ∷ s) fs rest d u
      (append_assoc (write_field (c ∷ s)) (write_more fs) rest ∙ same) head

abbrev pub IsWritten : List (List Text) → Type 0
IsWritten [] = Unit
IsWritten ([] ∷ rows) = ⊥
IsWritten ((f ∷ fs) ∷ rows) = IsWritten rows

read_nil : read_from 44 false fresh [] ≡ ok []
unfolding read_from
read_nil = refl

-- Records that are written, none of them empty, are read back.
pub read_csv-write_rows :
    (rows : List (List Text)) → IsWritten rows → read_csv 44 (write_rows rows) ≡ ok rows
unfolding read_csv write_rows
read_csv-write_rows [] h = read_nil
read_csv-write_rows ([] ∷ rows) h = absurd h
read_csv-write_rows ((f ∷ fs) ∷ rows) h =
    read_row f fs (write_rows rows)
    ∙ ap (λ m. m >>= λ records. ok ((f ∷ fs) ∷ records)) (read_csv-write_rows rows h)
