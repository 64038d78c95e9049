-- ===== src/Bridge/Resolve.antt =====
-- `resolve_imported_row`: one imported row through the bridge.
pub mod Loop
pub mod Amounts
use dart_backend.Prelude.{
  ℕ, Bool, true, false, Option, none, some, List, [], ◌∷◌, ◌++◌, if◌then◌else◌, list_eq, nat_eq,
  pair_eq, or_else,
}
use dart_backend.Prelude.Dict.{Dict, get, put}
use dart_backend.Prelude.Text.{Text, txt, join, is_empty}
use dart_backend.Prelude.Results.{Result, ok, raised, ◌>>=◌}
use dart_backend.Decimal.{Decimal, decimal_one, decimal_minus_one, multiply}
use dart_backend.Decimal.Parse.{parse_amount}
use dart_backend.Decimal.Format.{format_decimal}
use dart_backend.Bridge.{
  BridgeMapping, Lookup, kickout_sentinel, is_amount_dimension, is_kickout_member, mapping_key,
  data_value,
}

pub record ResolvedBridgeRow : Type 0 where
  pub resolved : Dict Text Text
  pub kickout : Bool
  pub amount : Text
  pub sign_reversed_amount : Text
  pub user_comment : Text
  pub je_comment : Text

-- The local variables of the loop.
pub record Progress : Type 0 where
  pub resolved : Dict Text Text
  pub kickout : Bool
  pub sign : Decimal
  pub dim_comments : List Text
  pub bridge_comments : List Text
  pub je_comments : List Text

abbrev pub no_progress : Progress
no_progress = record {
  resolved = [];
  kickout = false;
  sign = decimal_one;
  dim_comments = [];
  bridge_comments = [];
  je_comments = [];
}

-- `lookup.get(mapping_key(app_number, dim_name, source)) if source else None`
unfoldable pub find_mapping : Lookup → ℕ → Text → Text → Option BridgeMapping
find_mapping lookup app_number dim_name source =
    if is_empty source then none else get (mapping_key app_number dim_name source) lookup

unfoldable pub kick_out : Progress → Text → Progress
kick_out p dim_name = record {
  resolved = put dim_name kickout_sentinel p.resolved;
  kickout = true;
  sign = p.sign;
  dim_comments = p.dim_comments ++ [] ∷ [];
  bridge_comments = p.bridge_comments ++ [] ∷ [];
  je_comments = p.je_comments ++ [] ∷ [];
}

unfoldable pub use_mapping : Progress → Text → BridgeMapping → Result Progress
use_mapping p dim_name m = do
  sign ← (if m.flip_sign then multiply p.sign decimal_minus_one else ok p.sign)
  ok (record {
    resolved = put dim_name m.bridge_member p.resolved;
    kickout = p.kickout;
    sign = sign;
    dim_comments = p.dim_comments ++ or_else m.dim_comment [] ∷ [];
    bridge_comments = p.bridge_comments ++ or_else m.bridge_comment [] ∷ [];
    je_comments = p.je_comments ++ or_else m.je_comment [] ∷ [];
  })

-- `if mapping is None or is_kickout_member(mapping.bridge_member)`, and what follows.
unfoldable pub record_dimension : Progress → Text → Option BridgeMapping → Result Progress
record_dimension p dim_name none = ok (kick_out p dim_name)
record_dimension p dim_name (some m) =
    if is_kickout_member m.bridge_member then ok (kick_out p dim_name) else use_mapping p dim_name m

unfoldable pub resolve_dimensions :
    ℕ → Dict Text Text → Lookup → List Text → Progress → Result Progress
resolve_dimensions app_number cells lookup [] p = ok p
resolve_dimensions app_number cells lookup (d ∷ ds) p = do
  next ←
      (if is_amount_dimension d
        then ok p
        else record_dimension p d (find_mapping lookup app_number d (data_value cells d)))
  resolve_dimensions app_number cells lookup ds next

unfoldable pub resolve_imported_row :
    ℕ → Dict Text Text → List Text → Lookup → Result ResolvedBridgeRow
resolve_imported_row app_number cells dim_names lookup = do
  p ← resolve_dimensions app_number cells lookup dim_names no_progress
  let amount = parse_amount (some (data_value cells (txt "AMOUNT")))
  amount_text ← format_decimal amount
  signed ← multiply amount p.sign
  signed_text ← format_decimal signed
  ok (record {
    resolved = p.resolved;
    kickout = p.kickout;
    amount = amount_text;
    sign_reversed_amount = signed_text;
    user_comment = join (txt "^") p.dim_comments ++ join (txt "^") p.bridge_comments;
    je_comment = join (txt "^") p.je_comments;
  })
