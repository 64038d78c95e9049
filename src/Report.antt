-- ===== src/Report.antt =====
-- Run Report matching: app/services/report_run.py, over the rows that its queries return.
-- `variance_percentage`, a float of the two counts, is not modelled.
pub mod Totals
pub mod Summary
use dart_backend.Prelude.{
  ℕ, zero, suc, ◌+◌, Bool, true, false, Option, none, some, List, [], ◌∷◌, ◌++◌, not, ◌&&◌, ◌||◌,
  map, if◌then◌else◌, ◌==◌, nat_eq, list_eq, pair_eq, nat_beq, any, all, keep, or_else, is_some,
  length,
}
use dart_backend.Prelude.Dict.{Dict, get, put}
use dart_backend.Prelude.Text.{Text, txt}
use dart_backend.Prelude.Results.{Result, ok, raised, ◌>>=◌, ◌>>◌, raise_if, app_error, map_result}
use dart_backend.Decimal.{
  Decimal, decimal_zero, decimal_one, decimal_minus_one, multiply, add, subtract, absolute, greater,
}
use dart_backend.Decimal.Parse.{parse_amount}
use dart_backend.Decimal.Format.{format_decimal}
use dart_backend.Bridge.{BridgeMapping, ImportedRow, Lookup, mapping_key}
use dart_backend.Sync.{SyncMapping}
use dart_backend.Sync.Resolve.{apply_sync_mappings}

-- `_MatchGroup`
pub record MatchGroup : Type 0 where
  pub cells : Option (Dict Text Text)
  pub amount : Decimal

abbrev pub fresh_group : MatchGroup
fresh_group = record { cells = none; amount = decimal_zero }

-- Match key to app number to group.
abbrev pub Groups : Type 0
Groups = Dict (List Text) (Dict ℕ MatchGroup)

-- `Dimension.name.notin_({"AMOUNT"})`: the name as it is stored.
unfoldable pub match_dimension_names : List Text → List Text
match_dimension_names names = keep (λ name. not (name == txt "AMOUNT")) names

-- `ImportedRow.data[dim_name].astext.in_(allowed_values)`: a missing cell is never in.
abbrev pub allowed : List Text → Option Text → Bool
allowed values none = false
allowed values (some v) = any (λ w. w == v) values

abbrev pub passes_criteria : Dict Text (List Text) → ImportedRow → Bool
passes_criteria criteria row = all (λ c. allowed (c.1) (get (c.0) row.cells)) criteria

unfoldable pub load_rows_for_matching :
    List ImportedRow → ℕ → ℕ → Option (Dict Text (List Text)) → List ImportedRow
load_rows_for_matching table recon_id app_number criteria =
    keep
      (λ row.
        nat_beq row.recon_id recon_id
        && nat_beq row.app_number app_number
        && not row.kickout
        && passes_criteria (or_else criteria []) row)
      table

-- The local variables of the loop of `resolve_key_and_amount`.
pub record Matching : Type 0 where
  pub key_parts : List Text
  pub resolved : Dict Text Text
  pub sign : Decimal

abbrev pub match_part : Matching → Text → Text → Option BridgeMapping → Result Matching
match_part p d raw_value none = ok (record {
  key_parts = p.key_parts ++ raw_value ∷ [];
  resolved = put d raw_value p.resolved;
  sign = p.sign;
})
match_part p d raw_value (some m) = do
  sign ← (if m.flip_sign then multiply p.sign decimal_minus_one else ok p.sign)
  ok (record {
    key_parts = p.key_parts ++ m.bridge_member ∷ [];
    resolved = put d m.bridge_member p.resolved;
    sign = sign;
  })

unfoldable pub match_parts : ImportedRow → Lookup → List Text → Matching → Result Matching
match_parts row lookup [] p = ok p
match_parts row lookup (d ∷ ds) p = do
  let raw_value = or_else (get d row.cells) []
  next ← match_part p d raw_value (get (mapping_key row.app_number d raw_value) lookup)
  match_parts row lookup ds next

unfoldable pub resolve_key_and_amount :
    ImportedRow → List Text → Lookup → List SyncMapping → Result (List Text × Decimal)
resolve_key_and_amount row dim_names lookup sync_mappings = do
  p ←
      match_parts row lookup dim_names
        (record { key_parts = []; resolved = []; sign = decimal_one })
  let amount = parse_amount (get (txt "AMOUNT") row.cells)
  signed ← multiply amount p.sign
  bridge_signed ← format_decimal signed
  amount_text ← format_decimal amount
  applied ←
      apply_sync_mappings row.app_number row.cells p.resolved sync_mappings amount_text
        bridge_signed
  ok (p.key_parts, parse_amount (some applied.sign_reversed_amount))

-- `groups.setdefault(key, {})` and `group.setdefault(app_number, _MatchGroup())`
abbrev pub group_at : Groups → List Text → ℕ → MatchGroup
group_at groups key app_number = or_else (get app_number (or_else (get key groups) [])) fresh_group

-- The body of the loop over one app's rows.
unfoldable pub add_to_group : Groups → List Text → ℕ → Dict Text Text → Decimal → Result Groups
add_to_group groups key app_number cells signed = do
  amount ← add (group_at groups key app_number).amount signed
  let entry : MatchGroup = record { cells = some cells; amount = amount }
  ok (put key (put app_number entry (or_else (get key groups) [])) groups)

module _ (dim_names : List Text) (lookup : Lookup) (sync_mappings : List SyncMapping) where
  unfoldable pub match_rows : ℕ → Groups → List ImportedRow → Result Groups
  match_rows app_number groups [] = ok groups
  match_rows app_number groups (row ∷ rows) = do
    (key, signed) ← resolve_key_and_amount row dim_names lookup sync_mappings
    next ← add_to_group groups key app_number row.cells signed
    match_rows app_number next rows

-- `ReportRowRead` (app/schemas/report.py)
pub record ReportRow : Type 0 where
  pub match_key : Dict Text Text
  pub app1_data : Option (Dict Text Text)
  pub app2_data : Option (Dict Text Text)
  pub app1_amount : Decimal
  pub app2_amount : Decimal
  pub variance : Decimal
  pub is_variance : Bool
  pub baseline_amount : Decimal
  pub comparison_amount : Decimal

pub record ReportRun : Type 0 where
  pub rows : List ReportRow
  pub baseline_app : ℕ
  pub comparison_app : ℕ
  pub variance_threshold : Decimal
  pub total_rows : ℕ
  pub variance_count : ℕ

abbrev pub data_of : Option MatchGroup → Option (Dict Text Text)
data_of none = none
data_of (some g) = g.cells

abbrev pub amount_of_group : Option MatchGroup → Decimal
amount_of_group none = decimal_zero
amount_of_group (some g) = g.amount

-- dict(zip(dim_names, key)), written into a dict from the left.
unfoldable pub zip_key : List Text → List Text → Dict Text Text → Dict Text Text
zip_key [] key d = d
zip_key (n ∷ ns) [] d = d
zip_key (n ∷ ns) (v ∷ vs) d = zip_key ns vs (put n v d)

module _ (dim_names : List Text) (threshold : Decimal) (baseline_app comparison_app : ℕ) where
  -- The body of the loop of `_rows_and_summary`.
  unfoldable pub report_row : List Text → Dict ℕ MatchGroup → Result ReportRow
  report_row key by_app = do
    let base = amount_of_group (get baseline_app by_app)
    let comp = amount_of_group (get comparison_app by_app)
    variance ← subtract base comp
    size ← absolute variance
    is_variance ← greater size threshold
    ok (record {
      match_key = zip_key dim_names key [];
      app1_data = data_of (get 1 by_app);
      app2_data = data_of (get 2 by_app);
      app1_amount = amount_of_group (get 1 by_app);
      app2_amount = amount_of_group (get 2 by_app);
      variance = variance;
      is_variance = is_variance;
      baseline_amount = base;
      comparison_amount = comp;
    })

  unfoldable pub report_rows : Groups → Result (List ReportRow × ℕ)
  report_rows [] = ok ([], 0)
  report_rows ((key, by_app) ∷ groups) = do
    row ← report_row key by_app
    (rows, count) ← report_rows groups
    ok (row ∷ rows, if row.is_variance then suc count else count)

  unfoldable pub rows_and_summary : Groups → Result ReportRun
  rows_and_summary groups = do
    (rows, count) ← report_rows groups
    ok (record {
      rows = rows;
      baseline_app = baseline_app;
      comparison_app = comparison_app;
      variance_threshold = threshold;
      total_rows = length rows;
      variance_count = count;
    })

-- `compute_report`, from what its queries return for the recon.
unfoldable pub compute_report :
    List Text
    → Lookup
    → List SyncMapping
    → List ImportedRow
    → ℕ
    → Decimal
    → Option (Dict Text (List Text))
    → (baseline_app comparison_app : ℕ) → Result ReportRun
compute_report dimensions lookup sync_mappings table recon_id threshold criteria baseline
      comparison =
    do
      raise_if (nat_beq baseline comparison)
          (app_error (txt "Baseline and comparison apps must differ.") (txt "same_app"))
      let names = match_dimension_names dimensions
      first ←
          match_rows names lookup sync_mappings baseline []
            (load_rows_for_matching table recon_id baseline criteria)
      both ←
          match_rows names lookup sync_mappings comparison first
            (load_rows_for_matching table recon_id comparison criteria)
      rows_and_summary names threshold baseline comparison both
