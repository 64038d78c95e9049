-- ===== src/Sync/Run/Transform.antt =====
-- One row through bridge and transformation (app/services/sync_run.py): its cells and amounts.
use dart_backend.Prelude.{ℕ, ◌<◌, ◌≡◌, refl, Bool, false, List}
use dart_backend.Prelude.Text.{Text}
use dart_backend.Prelude.Int.{ℤ}
use dart_backend.Prelude.Results.{ok}
use dart_backend.Decimal.{finite, xor, cents_of, precision_limit}
use dart_backend.Decimal.Format.{cents_text}
use dart_backend.Bridge.{Lookup, ImportedRow}
use dart_backend.Bridge.Lookup.{bridged_dimensions}
use dart_backend.Bridge.Resolve.{ResolvedBridgeRow, resolve_imported_row}
use dart_backend.Bridge.Resolve.Loop.{parity}
use dart_backend.Bridge.Resolve.Amounts.{amount_of, resolve_imported_row_lem}
use dart_backend.Sync.{SyncedResolution}
use dart_backend.Sync.Resolve.{apply_sync_mappings}
use dart_backend.Sync.Resolve.Signs.{applying, sign_after, apply_sync_mappings_lem}
use dart_backend.Sync.Run.{Settings, SyncedRow, to_synced_row, transform_row}

module _ (s : Settings) (lookup : Lookup) (row : ImportedRow) where
  abbrev names : List Text
  names = bridged_dimensions s.dimensions

  abbrev pub bridge_flip : Bool
  bridge_flip = parity row.app_number row.cells lookup false (bridged_dimensions names)

  transform_row-parts :
      (bridged : ResolvedBridgeRow) (applied : SyncedResolution)
      → resolve_imported_row row.app_number row.cells names lookup ≡ ok bridged
      → apply_sync_mappings row.app_number row.cells bridged.resolved s.sync_mappings bridged.amount
          bridged.sign_reversed_amount
        ≡ ok applied
      → transform_row s lookup row ≡ ok (to_synced_row row s.app_names bridged applied)
  unfolding transform_row
  transform_row-parts bridged applied e h = rw e (rw h)

  -- A row whose amount has at most 28 digits, also in cents, goes through the bridge and the
  -- transformation: it keeps its cells and its cents, and its amount is negated exactly if an odd
  -- number of the bridge and the sync mappings that apply to it flips the sign.
  pub transform_row_amount :
      (negative : Bool) (c : ℕ) (e : ℤ)
      → amount_of row.app_number row.cells names lookup ≡ finite negative c e
      → c < precision_limit
      → cents_of c e < precision_limit
      → (r : SyncedRow) × (transform_row s lookup row ≡ ok r)
        × (r.cells ≡ row.cells)
        × (r.amount ≡ cents_text negative (cents_of c e))
        × (r.sign_reversed_amount
            ≡ cents_text
                (xor
                  (xor negative bridge_flip)
                  (sign_after false (applying row.app_number row.cells r.resolved s.sync_mappings)))
                (cents_of c e))
  unfolding to_synced_row
  transform_row_amount negative c e parsed small fits =
      let (b, resolved, is) =
        resolve_imported_row_lem row.app_number row.cells names lookup negative c e parsed small
          fits in
      let (a, synced, as_synced) =
        apply_sync_mappings_lem row.app_number row.cells b.resolved s.sync_mappings negative
          (xor negative bridge_flip) (cents_of c e) fits in
      (
        to_synced_row row s.app_names b a,
        transform_row-parts b a resolved (rw (is.amount, is.sign_reversed_amount) synced),
        refl,
        as_synced.amount,
        as_synced.sign_reversed_amount,
      )
