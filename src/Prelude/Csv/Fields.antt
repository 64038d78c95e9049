-- ===== src/Prelude/Csv/Fields.antt =====
-- The reader on the characters of one field.
use mathlib.Core.List.{append_assoc, append-nil}
use dart_backend.Prelude.Csv.{
  Mode, Reader, fresh, read_from, doubled, is_special, is_newline, quote, feed,
}
use Prim.Native.Nat.{ℕ}
use mathlib.Core.Path.{◌≡◌, refl, ap, ◌∙◌, sym}
use mathlib.Core.Logic.{inl, inr}
use mathlib.Core.Bool.{Bool, true, false}
use mathlib.Core.List.{List, [], ◌∷◌, ◌++◌}
use native.Mathlib.Omega.{arith}
use dart_backend.Prelude.Tests.{nat_beq, nat_beq_iff, Bool-cases}
use dart_backend.Prelude.Lists.{any}
use dart_backend.Prelude.Text.{Text}
use dart_backend.Prelude.Results.{Result, ok, raised, ◌>>=◌}

-- The reader in a mode, with a field and fields.
abbrev pub at : Mode → Text → List Text → Reader
at mode field fields = record { mode = mode; field = field; fields = fields }

abbrev pub Records : Type 0
Records = Result (List (List Text))

bind_ok : {A : Type 0} (m : Result A) → (m >>= λ a. ok a) ≡ m
bind_ok (ok a) = refl
bind_ok (raised e) = refl

-- One character that keeps the line and the record open.
pub step :
    (p q : Reader) (c : ℕ) (s : Text) (o : Bool)
    → ◌≡◌ {A = Result Reader} (feed 44 p c) (ok q)
    → nat_beq c 10 ≡ false
    → read_from 44 o p (c ∷ s) ≡ read_from 44 true q s
unfolding read_from
step p q c s o fed inside = rw (fed, read_from, inside) (bind_ok _)

quoted_newline :
    (c : ℕ) (s field : Text) (fields : List Text) (o : Bool)
    → nat_beq c quote ≡ false
    → nat_beq c 10 ≡ true
    → read_from 44 o (at Mode.in_quoted field fields) (c ∷ s)
      ≡ read_from 44 false (at Mode.in_quoted (field ++ c ∷ []) fields) s
unfolding read_from
quoted_newline c s field fields o plain newline = rw (plain, newline) (bind_ok _)

-- The rest of a quoted field, up to its closing quote.
pub read_quoted :
    (s t field : Text) (fields : List Text) (o : Bool)
    → read_from 44 o (at Mode.in_quoted field fields) (doubled s ++ quote ∷ t)
      ≡ read_from 44 true (at Mode.quote_in_quoted (field ++ s) fields) t
unfolding doubled
read_quoted [] t field fields o = rw (append-nil field) (step _ _ quote t o refl refl)
read_quoted (c ∷ s) t field fields o = elim (Bool-cases (nat_beq c quote)) [
  | inl quoted ↦ rw quoted (
      step _ (at Mode.quote_in_quoted field fields) quote _ o refl refl
      ∙ step _ (at Mode.in_quoted (field ++ quote ∷ []) fields) quote _ true refl refl
      ∙ read_quoted s t (field ++ quote ∷ []) fields true
      ∙ ap (λ f. read_from 44 true (at Mode.quote_in_quoted f fields) t)
          (append_assoc field (quote ∷ []) s)
      ∙ ap (λ x. read_from 44 true (at Mode.quote_in_quoted (field ++ x ∷ s) fields) t)
          (sym ((nat_beq_iff c quote).0 quoted)))
  | inr plain ↦ rw plain (elim (Bool-cases (nat_beq c 10)) [
    | inl newline ↦
        quoted_newline c _ field fields o plain newline
        ∙ read_quoted s t (field ++ c ∷ []) fields false
        ∙ ap (λ f. read_from 44 true (at Mode.quote_in_quoted f fields) t)
            (append_assoc field (c ∷ []) s)
    | inr inside ↦
        step _ (at Mode.in_quoted (field ++ c ∷ []) fields) c _ o (rw plain refl) inside
        ∙ read_quoted s t (field ++ c ∷ []) fields true
        ∙ ap (λ f. read_from 44 true (at Mode.quote_in_quoted f fields) t)
            (append_assoc field (c ∷ []) s)
  ])
]

-- A character of a field that needs no quotes.
pub plain_char :
    (c : ℕ)
    → is_special c ≡ false
    → (nat_beq c 44 ≡ false)
      × (nat_beq c quote ≡ false)
      × (is_newline c ≡ false)
      × (nat_beq c 10 ≡ false)
plain_char c h = (ground arith, ground arith, ground arith, ground arith)

-- The rest of a field without quotes, up to a character.
pub read_plain :
    (s t field : Text) (d : ℕ) (fields : List Text) (o : Bool)
    → any is_special s ≡ false
    → read_from 44 o (at Mode.in_field field fields) (s ++ d ∷ t)
      ≡ read_from 44 true (at Mode.in_field (field ++ s) fields) (d ∷ t)
unfolding read_from
read_plain [] t field d fields o h = rw (append-nil field) refl
read_plain (c ∷ s) t field d fields o h =
    let here : is_special c ≡ false = ground arith in
    let (comma, quoted, newline, inside) = plain_char c here in
    step (at Mode.in_field field fields) (at Mode.in_field (field ++ c ∷ []) fields) c (s ++ d ∷ t)
      o (rw (newline, comma) refl) inside
    ∙ read_plain s t (field ++ c ∷ []) d fields true (ground arith)
    ∙ ap (λ f. read_from 44 true (at Mode.in_field f fields) (d ∷ t))
        (append_assoc field (c ∷ []) s)

-- The modes behind a field that has been read.
abbrev pub Behind : Mode → Text → Type 0
Behind Mode.start_record field = ⊥
Behind Mode.start_field field = field ≡ []
Behind Mode.in_field field = Unit
Behind Mode.in_quoted field = ⊥
Behind Mode.quote_in_quoted field = Unit
Behind Mode.eat_crnl field = ⊥

-- The record that `fields` begins, before those of the rest of the text.
abbrev pub record_then : List Text → Text → Records
record_then fields rest = read_from 44 false fresh rest >>= λ records. ok (fields ∷ records)
