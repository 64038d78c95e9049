-- ===== src/Report/Summary.antt =====
-- `_rows_and_summary` (app/services/report_run.py): the rows of the report and their counts.
use dart_backend.Prelude.{◌≡◌, nat_eq}
use dart_backend.Prelude.Dict.{Dict}
use dart_backend.Prelude.Text.{Text}
use dart_backend.Prelude.Results.{ok, ◌>>=◌}
use dart_backend.Decimal.{Decimal, subtract, absolute, greater}
use dart_backend.Report.{ReportRow}

module _ (threshold : Decimal) where
  -- The variance of a row is the difference of its amounts, and its flag the test of its size.
  unfoldable pub HasVariance : ReportRow → Type 0
  HasVariance row =
      (subtract row.baseline_amount row.comparison_amount ≡ ok row.variance)
      × ((absolute row.variance >>= λ size. greater size threshold) ≡ ok row.is_variance)
