-- ===== src/Bridge/Resolve/Amounts.antt =====
-- `resolve_imported_row` as a whole: every field of its result, and when it raises.
use dart_backend.Prelude.{
  ℕ, ◌≤◌, ◌<◌, ◌≡◌, refl, ◌∙◌, Bool, false, none, some, List, ◌++◌, arith, if◌then◌else◌, list_eq,
  nat_eq, any, ◌==◌,
}
use dart_backend.Prelude.Dict.{Dict, get, get-nil}
use dart_backend.Prelude.Text.{Text, txt, join}
use dart_backend.Prelude.Int.{ℤ}
use dart_backend.Prelude.Results.{ok, raised, invalid_operation}
use dart_backend.Decimal.{
  Decimal, finite, infinite, nan, signalling_nan, xor, multiply, quantize, cents_of,
  precision_limit,
}
use dart_backend.Decimal.Parse.{parse_amount}
use dart_backend.Decimal.Format.{format_decimal, cents_text}
use dart_backend.Decimal.Rounding.{multiply-unit}
use dart_backend.Bridge.{Lookup, data_value}
use dart_backend.Bridge.Lookup.{bridged_dimensions}
use dart_backend.Bridge.Resolve.{
  ResolvedBridgeRow, Progress, no_progress, resolve_dimensions, resolve_imported_row,
}
use dart_backend.Bridge.Resolve.Loop.{
  is_unresolved, bridge_of, mapping_for, parity, comments, Runs, runs,
}

format_within :
    (s : Bool) (c : ℕ) (e : ℤ)
    → cents_of c e < precision_limit
    → format_decimal (finite s c e) ≡ ok (cents_text s (cents_of c e))
unfolding format_decimal quantize
format_within s c e h = ground arith

format_too_wide :
    (s : Bool) (c : ℕ) (e : ℤ)
    → precision_limit ≤ cents_of c e
    → format_decimal (finite s c e) ≡ raised invalid_operation
unfolding format_decimal quantize
format_too_wide s c e h = ground arith

format-infinite : (s : Bool) → format_decimal (infinite s) ≡ raised invalid_operation
unfolding format_decimal quantize
format-infinite s = refl

format-signalling_nan : (s : Bool) → format_decimal (signalling_nan s) ≡ raised invalid_operation
unfolding format_decimal quantize
format-signalling_nan s = refl

-- Amounts that `quantize` refuses.
abbrev pub IsUnrepresentable : Decimal → Type 0
IsUnrepresentable (finite s c e) = precision_limit ≤ cents_of c e
IsUnrepresentable (infinite s) = Unit
IsUnrepresentable (nan s) = ⊥
IsUnrepresentable (signalling_nan s) = Unit

module _ (app_number : ℕ) (cells : Dict Text Text) (dim_names : List Text) (lookup : Lookup) where
  abbrev pub amount_of : Decimal
  amount_of = parse_amount (some (data_value cells (txt "AMOUNT")))

  abbrev dims : List Text
  dims = bridged_dimensions dim_names

  -- The result for an amount of `s` and `c` cents.
  pub record IsResolution (s : Bool) (c : ℕ) (r : ResolvedBridgeRow) : Type 0 where
    pub kickout : r.kickout ≡ any (λ d. is_unresolved (mapping_for app_number cells lookup d)) dims
    pub resolved :
        (k : Text)
        → get k r.resolved ≡ (
            if any (λ d. d == k) dims
            then some (bridge_of (mapping_for app_number cells lookup k))
            else none)
    pub amount : r.amount ≡ cents_text s c
    pub sign_reversed_amount :
        r.sign_reversed_amount ≡ cents_text (xor s (parity app_number cells lookup false dims)) c
    pub user_comment :
        r.user_comment
        ≡ join (txt "^") (comments app_number cells lookup (λ m. m.dim_comment) dims)
          ++ join (txt "^") (comments app_number cells lookup (λ m. m.bridge_comment) dims)
    pub je_comment :
        r.je_comment ≡ join (txt "^") (comments app_number cells lookup (λ m. m.je_comment) dims)

  abbrev finished : Progress → Text → Text → ResolvedBridgeRow
  finished p amount signed = record {
    resolved = p.resolved;
    kickout = p.kickout;
    amount = amount;
    sign_reversed_amount = signed;
    user_comment = join (txt "^") p.dim_comments ++ join (txt "^") p.bridge_comments;
    je_comment = join (txt "^") p.je_comments;
  }

  all-Runs : Runs app_number cells lookup no_progress false dim_names
  all-Runs = runs app_number cells lookup dim_names no_progress false refl

  after_loop :
      (p : Progress) (a b : Text) (signed : Decimal)
      → resolve_dimensions app_number cells lookup dim_names no_progress ≡ ok p
      → format_decimal amount_of ≡ ok a
      → multiply amount_of p.sign ≡ ok signed
      → format_decimal signed ≡ ok b
      → resolve_imported_row app_number cells dim_names lookup ≡ ok (finished p a b)
  unfolding resolve_imported_row
  after_loop p a b signed loop first product second = rw loop (rw first (rw product (rw second)))

  -- A row whose amount is a number that fits 28 digits in cents, and has at most 28 digits itself,
  -- is resolved. Each bridged dimension gets its mapping's bridge member, or the sentinel; the row
  -- is a kickout exactly if some dimension has no usable mapping; the amount is negated exactly if
  -- an odd number of the mappings flips the sign; the comments are joined in order of dimension.
  pub resolve_imported_row_lem :
      (s : Bool) (c : ℕ) (e : ℤ)
      → amount_of ≡ finite s c e
      → c < precision_limit
      → cents_of c e < precision_limit
      → (r : ResolvedBridgeRow) × (resolve_imported_row app_number cells dim_names lookup ≡ ok r)
        × IsResolution s (cents_of c e) r
  resolve_imported_row_lem s c e parsed small fits =
      let (p, loop, desc) = all-Runs in
      let flip = parity app_number cells lookup false dims in
      let product : multiply amount_of p.sign ≡ ok (finite (xor s flip) c e) =
        rw parsed (rw desc.sign (multiply-unit s flip c e small)) in
      (
        finished p (cents_text s (cents_of c e)) (cents_text (xor s flip) (cents_of c e)),
        after_loop p _ _ _ loop (rw parsed (format_within s c e fits)) product
            (format_within (xor s flip) c e fits),
        record {
          kickout = desc.kickout;
          resolved = λ k. desc.resolved k ∙ rw (get-nil k);
          amount = refl;
          sign_reversed_amount = refl;
          user_comment = rw (desc.dim_comments, desc.bridge_comments);
          je_comment = rw desc.je_comments;
        },
      )

  raises_with_format :
      format_decimal amount_of ≡ raised invalid_operation
      → resolve_imported_row app_number cells dim_names lookup ≡ raised invalid_operation
  unfolding resolve_imported_row
  raises_with_format h = rw (all-Runs.1) (rw h)

  raises_at :
      (d : Decimal)
      → amount_of ≡ d
      → IsUnrepresentable d
      → resolve_imported_row app_number cells dim_names lookup ≡ raised invalid_operation
  raises_at (finite s c e) h wide = raises_with_format (rw h (format_too_wide s c e wide))
  raises_at (infinite s) h u = raises_with_format (rw h (format-infinite s))
  raises_at (nan s) h none_such = absurd none_such
  raises_at (signalling_nan s) h u = raises_with_format (rw h (format-signalling_nan s))

  -- A row whose amount is read as an infinity, as a signalling NaN or as a number of more than 28
  -- digits in cents is not resolved: `decimal.InvalidOperation` escapes.
  pub resolve_imported_row_raises :
      IsUnrepresentable amount_of
      → resolve_imported_row app_number cells dim_names lookup ≡ raised invalid_operation
  resolve_imported_row_raises = raises_at amount_of refl
