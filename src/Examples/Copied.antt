-- ===== src/Examples/Copied.antt =====
-- A recon with an app, two dimensions, a bridge mapping and a sync mapping, and its copy.
use dart_backend.Prelude.{
  list_beq, ℕ, ◌≡◌, refl, true, false, none, [], ◌∷◌, list_eq, nat_eq, pair_eq,
}
use dart_backend.Prelude.Dict.{get, put}
use dart_backend.Prelude.Text.{
  is_space, lower_char, upper_char, lower, upper, lstrip, rstrip, strip, join, without, starts_with,
  drop_prefix, remove_prefix, span_digits, number_from, digits_before, number_text, txt,
}
use dart_backend.Prelude.Results.{map_result, raised, integrity_error}
use dart_backend.Prelude.Sorting.{text_leb, insert_sorted, sort_by}
use dart_backend.Prelude.Int.{◌+ℤ◌, ◌-ℤ◌, min_ℤ, int_of}
use dart_backend.Copy.{copy_mappings, name_is_live, copy_recon, Database, ReconRow, DimensionRow}
use dart_backend.Copy.Clone.{copy_recon_lem}
use dart_backend.Copy.Rows.{Outcome}
use dart_backend.Examples.{flip_mapping, flip_sync}

program : Unit {0}
unfolding list_beq get put is_space lower_char upper_char lower upper lstrip rstrip strip join
    without starts_with drop_prefix remove_prefix span_digits number_from digits_before number_text
    map_result text_leb insert_sorted sort_by ◌+ℤ◌ ◌-ℤ◌ min_ℤ int_of copy_mappings name_is_live
    copy_recon
program = tt

abbrev source : ReconRow
source = record {
  id = 7;
  name = txt "Ledger";
  description = none;
  owner_id = 3;
  status = txt "Running";
  archived = false;
  deleted_at = none;
  groups = 5 ∷ [];
}

abbrev placed : ℕ → ℕ → DimensionRow
placed recon position = record {
  recon_id = recon;
  name = txt "Account";
  position = position;
  mappings = [];
}

abbrev database : Database
database = record {
  recons = source ∷ [];
  apps =
      record {
        recon_id = 7;
        app_number = 1;
        name = txt "Books";
        description = none;
        delimiter = txt ",";
        currency_delimiter = none;
        currency_symbol = none;
        thousands_separator = txt ",";
        has_header = true;
        global_variable_id = none;
      }
      ∷ [];
  dimensions = placed 7 2 ∷ placed 7 1 ∷ placed 6 1 ∷ [];
  bridge_mappings = record { id = 1; recon_id = 7; mapping = flip_mapping } ∷ [];
  sync_mappings = flip_sync ∷ [];
}

copy_recon_lem_example :
    Outcome source 8
      (txt "Ledger 2")
      database
      (copy_recon source 8 20 (txt "Ledger 2") 4 5 database)
copy_recon_lem_example =
    copy_recon_lem source 8 20 (txt "Ledger 2") 4 5 database (refl, refl, refl, refl)

-- The name of the source is taken.
taken : copy_recon source 8 20 (txt "Ledger") 4 5 database ≡ raised integrity_error
unfolding program
taken = refl
