-- ===== src/Security/ReconAccess.antt =====
-- The recon that `get_accessible_recon` (app/core/recon_access.py) returns.
use dart_backend.Prelude.{
  ℕ, ◌≡◌, refl, Bool, true, false, some, List, [], ◌∷◌, ◌&&◌, not, find, In, is_some, nat_beq, inl,
  inr, arith, Bool-cases,
}
use dart_backend.Prelude.Text.{txt}
use dart_backend.Prelude.Results.{Result, ok, raised, not_found_error}
use dart_backend.Security.{
  Tables, Account, Recon, can_manage_recon, checked_recon, get_accessible_recon,
}

-- What the query and the check say of the recon, or of the error.
abbrev pub Accessed : Tables → Account → ℕ → Result Recon → Type 0
Accessed db user recon_id (ok recon) =
    In recon db.recons
    × (recon.id ≡ recon_id)
    × (is_some recon.deleted_at ≡ false)
    × (can_manage_recon db user recon ≡ true)
Accessed db user recon_id (raised e) = e ≡ not_found_error (txt "Recon not found")

module _ (db : Tables) (user : Account) (recon_id : ℕ) where
  abbrev is_live : Recon → Bool
  is_live r = nat_beq r.id recon_id && not (is_some r.deleted_at)

  checked_recon-Accessed :
      (r : Recon)
      → In r db.recons
      → is_live r ≡ true
      → Accessed db user recon_id (checked_recon db user (some r))
  checked_recon-Accessed r there live = elim (Bool-cases (can_manage_recon db user r)) [
    | inl allowed ↦ rw allowed (there, ground arith, ground arith, allowed)
    | inr refused ↦ rw refused refl
  ]

  -- The recon that is found among some rows.
  found-Accessed :
      (rows : List Recon)
      → ((r : Recon) → In r rows → In r db.recons)
      → Accessed db user recon_id (checked_recon db user (find is_live rows))
  found-Accessed [] sub = refl
  found-Accessed (r ∷ rows) sub = elim (Bool-cases (is_live r)) [
    | inl live ↦ rw live (checked_recon-Accessed r (sub r (inl refl)) live)
    | inr other ↦ rw other (found-Accessed rows (λ x i. sub x (inr i)))
  ]

  -- A recon that is returned is one of the table with the id that was asked for, it is not deleted,
  -- and the user may manage it. Otherwise the error is the same not-found error, whether there is
  -- no such recon or the user may not manage it.
  pub get_accessible_recon_lem : Accessed db user recon_id (get_accessible_recon db user recon_id)
  unfolding get_accessible_recon
  get_accessible_recon_lem = found-Accessed db.recons (λ r i. i)
