-- ===== src/Sync.antt =====
-- Transformation (sync mappings): app/services/sync_resolve.py and app/services/sync_run.py.
pub mod Resolve
pub mod Run
use dart_backend.Prelude.{ℕ, Bool, List, Option}
use dart_backend.Prelude.Dict.{Dict}
use dart_backend.Prelude.Text.{Text}

-- A row of `sync_mappings` (app/models/sync.py).
pub record SyncMapping : Type 0 where
  pub recon_id : ℕ
  pub app_number : ℕ
  pub dimension_names : List Text
  pub concat_delimiter : Text
  pub source_sync : Text
  pub target_sync : Text
  pub flip_sign : Bool

pub record SyncedResolution : Type 0 where
  pub synced : Dict Text Text
  pub amount : Text
  pub sign_reversed_amount : Text
  pub flip_sign : Bool
