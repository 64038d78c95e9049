-- ===== src/Examples/Granted.antt =====
-- The grants of a user who is an administrator of a team and runs recons.
use dart_backend.Prelude.{
  list_beq, ◌≡◌, refl, true, [], ◌∷◌, arith, inl, inr, any, length, list_eq, nat_eq, pair_eq,
  string_eq,
}
use dart_backend.Prelude.Dict.{get, put}
use dart_backend.Prelude.Text.{
  is_space, lower_char, upper_char, lower, upper, lstrip, rstrip, strip, join, without, starts_with,
  drop_prefix, remove_prefix, span_digits, number_from, digits_before, number_text,
}
use dart_backend.Prelude.Results.{map_result}
use dart_backend.Prelude.Sorting.{text_leb, insert_sorted, sort_by}
use dart_backend.Prelude.Int.{◌+ℤ◌, ◌-ℤ◌, min_ℤ, int_of}
use dart_backend.Security.{
  accessible_group_ids, user_has_privilege, can_manage_recon, can_link_recon_group,
  get_accessible_recon, Account,
}
use dart_backend.Security.Grants.{
  has_name, security_user_types, add_privileges, find_role, get_or_create_role, set_grant,
  sync_named_grant, sync_user_type_grants, Store,
}
use dart_backend.Security.Grants.Parts.{IsFresh}
use dart_backend.Security.Grants.Sync.{
  sync_user_type_grants_again, user_has_privilege-sync_user_type_grants,
}

program : Unit {0}
unfolding list_beq get put is_space lower_char upper_char lower upper lstrip rstrip strip join
    without starts_with drop_prefix remove_prefix span_digits number_from digits_before number_text
    map_result text_leb insert_sorted sort_by ◌+ℤ◌ ◌-ℤ◌ min_ℤ int_of accessible_group_ids
    user_has_privilege can_manage_recon can_link_recon_group get_accessible_recon add_privileges
    find_role get_or_create_role set_grant sync_named_grant sync_user_type_grants
program = tt

abbrev store : Store
store = record {
  roles = record { id = 0; name = "viewer" } ∷ [];
  privileges = "read_recon" ∷ [];
  tables = record {
    memberships = [];
    group_lobs = [];
    group_teams = [];
    group_roles = [];
    role_privileges = (0, "read_recon") ∷ [];
    recon_groups = [];
    recons = [];
  };
  next_id = 1;
}

abbrev admin : Account
admin = record { id = 3; is_superuser = true; user_types = "Team Admin" ∷ "Recon User" ∷ [] }

store-IsFresh : IsFresh store
store-IsFresh = (
  ((λ i. i), tt),
  (λ r there. elim there [ inl same ↦ (rw (← same) (omega arith)) | inr nowhere ↦ absurd nowhere ]),
)

-- Two roles and two memberships are made.
two_grants : length (sync_user_type_grants admin store).1.tables.memberships ≡ 2
unfolding program
two_grants = refl

sync_user_type_grants_again_example :
    sync_user_type_grants
      (sync_user_type_grants admin store).0
      (sync_user_type_grants admin store).1
    ≡ sync_user_type_grants admin store
sync_user_type_grants_again_example = sync_user_type_grants_again admin store store-IsFresh

security_type : any (λ t. has_name t security_user_types) admin.user_types ≡ true
unfolding program
security_type = refl

user_has_privilege-sync_user_type_grants_example :
    user_has_privilege (sync_user_type_grants admin store).1.tables 3 "security:manage" ≡ true
user_has_privilege-sync_user_type_grants_example =
    user_has_privilege-sync_user_type_grants admin store "security:manage" store-IsFresh
      (inl (security_type, refl))
