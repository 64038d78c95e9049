-- ===== src/Security/Grants.antt =====
-- The memberships that stand for the types of a user: app/core/user_type_grants.py. A role's name and
-- a privilege's are unique, and so is a membership of a user, a scope and a role.
pub mod Parts
pub mod Settled
pub mod Sync
use Prim.Native.String.{String}
use dart_backend.Prelude.{
  ℕ, suc, Bool, true, false, ◌||◌, ◌&&◌, not, Option, none, some, List, [], ◌∷◌, ◌++◌,
  if◌then◌else◌, keep, map, any, find, nat_beq, ◌==◌, string_eq,
}
use dart_backend.Security.{Tables, Membership, ScopeType, Account, is_group, role_grants}

pub record Role : Type 0 where
  pub id : ℕ
  pub name : String

-- The tables that a synchronisation reads and writes, and the identifier of the next role.
pub record Store : Type 0 where
  pub roles : List Role
  pub privileges : List String
  pub tables : Tables
  pub next_id : ℕ

abbrev pub security_user_types : List String
security_user_types = "Group Owner" ∷ "Department Admin" ∷ "Team Admin" ∷ []

abbrev pub recon_user_type : String
recon_user_type = "Recon User"

abbrev pub security_role_name : String
security_role_name = "_user_type:security"

abbrev pub recon_role_name : String
recon_role_name = "_user_type:recon"

-- The number of the identifier 00000000-0000-4000-8000-000000000001.
abbrev pub type_grant_scope_id : ℕ
type_grant_scope_id = 302240678275694148452353

abbrev pub has_name : String → List String → Bool
has_name name names = any (λ n. n == name) names

-- The names of the privileges of a role.
abbrev pub privileges_of : ℕ → List (ℕ × String) → List String
privileges_of role pairs = map (λ p. p.1) (keep (λ p. nat_beq (p.0) role) pairs)

abbrev pub grant_privilege : ℕ → String → Store → Store
grant_privilege role name s = record s {
  privileges = if has_name name s.privileges then s.privileges else s.privileges ++ name ∷ [];
  tables = record s.tables { role_privileges = s.tables.role_privileges ++ (role, name) ∷ [] };
}

-- The loop over the names, for a role that has some already.
unfoldable pub add_privileges : ℕ → List String → List String → Store → Store
add_privileges role have [] s = s
add_privileges role have (name ∷ names) s =
    add_privileges role have names (if has_name name have then s else grant_privilege role name s)

unfoldable pub find_role : String → List Role → Option Role
find_role role_name roles = find (λ r. r.name == role_name) roles

-- The role of a name, in the store that has it.
abbrev pub role_or_new : String → Store → Option Role → Role × Store
role_or_new role_name s (some role) = (role, s)
role_or_new role_name s none =
    let role : Role = record { id = s.next_id; name = role_name } in
    (role, record s { roles = s.roles ++ role ∷ []; next_id = suc s.next_id })

unfoldable pub get_or_create_role : String → List String → Store → ℕ × Store
get_or_create_role role_name privilege_names s =
    let (role, t) = role_or_new role_name s (find_role role_name s.roles) in
    (
      role.id,
      add_privileges role.id (privileges_of role.id t.tables.role_privileges) privilege_names t,
    )

abbrev pub is_role : Option ℕ → ℕ → Bool
is_role none role = false
is_role (some r) role = nat_beq r role

-- The query for the membership.
abbrev pub is_grant : ℕ → ℕ → Membership → Bool
is_grant user role m =
    nat_beq m.user_id user
    && is_role m.role_id role
    && is_group m.scope_type
    && nat_beq m.scope_id type_grant_scope_id

abbrev pub new_grant : ℕ → ℕ → Membership
new_grant user role = record {
  user_id = user;
  scope_type = ScopeType.group;
  scope_id = type_grant_scope_id;
  role_id = some role;
}

-- The insert or the delete of the membership.
unfoldable pub set_grant :
    (user role : ℕ) → (should_have : Bool) → List Membership → List Membership
set_grant user role should_have memberships =
    let existing = any (is_grant user role) memberships in
    if should_have && not existing
    then memberships ++ new_grant user role ∷ []
    else if not should_have && existing
    then keep (λ m. not (is_grant user role m)) memberships
    else memberships

unfoldable pub sync_named_grant :
    (user : ℕ) → String → List String → (should_have : Bool) → Store → Store
sync_named_grant user role_name privilege_names should_have s =
    let (role, t) = get_or_create_role role_name privilege_names s in
    record t {
      tables = record t.tables {
        memberships = set_grant user role should_have t.tables.memberships;
      };
    }

-- The user and the store behind the types of the user.
unfoldable pub sync_user_type_grants : Account → Store → Account × Store
sync_user_type_grants user s =
    let secured =
      sync_named_grant user.id security_role_name ("security:manage" ∷ [])
        (any (λ t. has_name t security_user_types) user.user_types) s in
    (
      record user { is_superuser = has_name "Account Admin" user.user_types },
      sync_named_grant user.id recon_role_name ("execute_recon" ∷ "read_recon" ∷ [])
          (has_name recon_user_type user.user_types) secured,
    )
