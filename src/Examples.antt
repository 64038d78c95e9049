-- ===== src/Examples.antt =====
-- Sample rows and mappings, on which the modules below run the program and its theorems.
mod Numbers
mod Bridged
mod Transformed
mod Reported
mod Guarded
mod Secured
mod Mapped
mod Filed
mod Aliased
mod Copied
mod Granted
mod Scheduled
use dart_backend.Prelude.{ℕ, true, false, some, none, List, [], ◌∷◌}
use dart_backend.Prelude.Dict.{Dict}
use dart_backend.Prelude.Text.{Text, txt}
use dart_backend.Bridge.{BridgeMapping, ImportedRow, Lookup}
use dart_backend.Sync.{SyncMapping}
use dart_backend.Sync.Run.{Settings}

abbrev pub flip_mapping : BridgeMapping
flip_mapping = record {
  app_number = 1;
  dimension_name = txt "Account";
  source_member = txt "1000";
  bridge_member = txt "Cash";
  flip_sign = true;
  dim_comment = some (txt "till");
  bridge_comment = none;
  je_comment = none;
  is_invalid = false;
}

abbrev pub bridge_index : Lookup
bridge_index = ((1, (txt "account", txt "1000")), flip_mapping) ∷ []

abbrev pub imported : ℕ → Text → Text → ImportedRow
imported id account amount = record {
  id = id;
  recon_id = 7;
  app_number = 1;
  row_number = id;
  cells = (txt "Account", account) ∷ (txt "AMOUNT", amount) ∷ [];
  kickout = false;
  deleted_flag = false;
}

abbrev pub mapped_row : ImportedRow
mapped_row = imported 1 (txt " 1000 ") (txt "-12.345")

abbrev pub unmapped_row : ImportedRow
unmapped_row = imported 2 (txt "2000") (txt "5")

abbrev pub infinite_row : ImportedRow
infinite_row = imported 3 (txt "1000") (txt "Infinity")

abbrev pub rows : List ImportedRow
rows = mapped_row ∷ unmapped_row ∷ []

abbrev pub dimensions : List Text
dimensions = txt "Account" ∷ txt "AMOUNT" ∷ []

abbrev pub flip_sync : SyncMapping
flip_sync = record {
  recon_id = 7;
  app_number = 1;
  dimension_names = txt "Account" ∷ [];
  concat_delimiter = txt "|";
  source_sync = txt "Cash";
  target_sync = txt "CASH";
  flip_sign = true;
}

abbrev pub settings : Settings
settings = record {
  dimensions = dimensions;
  bridge_mappings = flip_mapping ∷ [];
  aliases = [];
  sync_mappings = flip_sync ∷ [];
  app_names = [];
}
