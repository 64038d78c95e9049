-- ===== src/Security.antt =====
-- Who may reach a recon: app/core/scope_access.py, permissions.py and recon_access.py, over the tables
-- that they query.
pub mod Reach
pub mod ReconAccess
pub mod Grants
use dart_backend.Prelude.{
  ℕ, Bool, true, false, Option, none, some, List, [], ◌∷◌, ◌++◌, ◌&&◌, ◌||◌, not, map, any, keep,
  find, nat_beq, if◌then◌else◌, is_some,
}
use dart_backend.Prelude.Text.{Text, txt}
use dart_backend.Prelude.Results.{Result, ok, raised, not_found_error}
use Prim.Native.String.{String}
use dart_backend.Prelude.{◌==◌, string_eq}

pub data ScopeType : Type 0 where
  lob team group : ScopeType

pub record Membership : Type 0 where
  pub user_id : ℕ
  pub scope_type : ScopeType
  pub scope_id : ℕ
  pub role_id : Option ℕ

pub record Recon : Type 0 where
  pub id : ℕ
  pub owner_id : ℕ
  pub deleted_at : Option ℕ

pub record Account : Type 0 where
  pub id : ℕ
  pub is_superuser : Bool
  pub user_types : List String

-- The tables: pairs of (group, lob), (group, team), (group, role), (recon, group), and the names of
-- the privileges that a role has.
pub record Tables : Type 0 where
  pub memberships : List Membership
  pub group_lobs : List (ℕ × ℕ)
  pub group_teams : List (ℕ × ℕ)
  pub group_roles : List (ℕ × ℕ)
  pub role_privileges : List (ℕ × String)
  pub recon_groups : List (ℕ × ℕ)
  pub recons : List Recon

abbrev pub is_group : ScopeType → Bool
is_group group = true
is_group lob = false
is_group team = false

abbrev pub is_lob : ScopeType → Bool
is_lob lob = true
is_lob group = false
is_lob team = false

abbrev pub is_team : ScopeType → Bool
is_team team = true
is_team lob = false
is_team group = false

abbrev pub contains : ℕ → List ℕ → Bool
contains n ids = any (λ i. nat_beq i n) ids

-- The scopes of one type among the user's memberships.
abbrev pub scope_ids : (ScopeType → Bool) → ℕ → List Membership → List ℕ
scope_ids of_type user memberships =
    map (λ m. m.scope_id) (keep (λ m. nat_beq m.user_id user && of_type m.scope_type) memberships)

-- The groups of the ids in a table of pairs.
abbrev pub groups_of : List ℕ → List (ℕ × ℕ) → List ℕ
groups_of ids table = map (λ p. p.0) (keep (λ p. contains (p.1) ids) table)

unfoldable pub accessible_group_ids : Tables → ℕ → List ℕ
accessible_group_ids db user =
    scope_ids is_group user db.memberships
    ++ (groups_of (scope_ids is_lob user db.memberships) db.group_lobs
        ++ groups_of (scope_ids is_team user db.memberships) db.group_teams)

abbrev pub role_grants : Tables → String → ℕ → Bool
role_grants db privilege role = any (λ p. nat_beq (p.0) role && p.1 == privilege) db.role_privileges

-- A membership without a role grants nothing.
abbrev pub membership_grants : Tables → String → Option ℕ → Bool
membership_grants db privilege none = false
membership_grants db privilege (some role) = role_grants db privilege role

unfoldable pub user_has_privilege : Tables → ℕ → String → Bool
user_has_privilege db user privilege =
    any (λ m. nat_beq m.user_id user && membership_grants db privilege m.role_id) db.memberships
    || any (λ p. contains (p.0) (accessible_group_ids db user) && role_grants db privilege (p.1))
        db.group_roles

unfoldable pub can_manage_recon : Tables → Account → Recon → Bool
can_manage_recon db user recon =
    user.is_superuser
    || nat_beq recon.owner_id user.id
    || user_has_privilege db user.id "recon:manage_all"
    || (any (λ t. t == "Recon User") user.user_types
        && any (λ p. nat_beq (p.0) recon.id && contains (p.1) (accessible_group_ids db user.id))
            db.recon_groups)

unfoldable pub can_link_recon_group : Tables → Account → Recon → Bool
can_link_recon_group db user recon =
    can_manage_recon db user recon || user_has_privilege db user.id "security:manage"

-- The recon of the query, when there is one, with the check of the access.
abbrev pub checked_recon : Tables → Account → Option Recon → Result Recon
checked_recon db user none = raised (not_found_error (txt "Recon not found"))
checked_recon db user (some recon) =
    if can_manage_recon db user recon
    then ok recon
    else raised (not_found_error (txt "Recon not found"))

unfoldable pub get_accessible_recon : Tables → Account → ℕ → Result Recon
get_accessible_recon db user recon_id =
    checked_recon db user
      (find (λ r. nat_beq r.id recon_id && not (is_some r.deleted_at)) db.recons)
