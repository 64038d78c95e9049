-- ===== src/Examples/Secured.antt =====
-- Recon access: the theorems at a user who reaches a recon through a team.
use dart_backend.Prelude.{
  list_beq, false, none, some, [], ◌∷◌, In, list_eq, nat_eq, pair_eq, ◌↔◌, string_eq,
}
use dart_backend.Prelude.Dict.{get, put}
use dart_backend.Prelude.Text.{
  is_space, lower_char, upper_char, lower, upper, lstrip, rstrip, strip, join, without, starts_with,
  drop_prefix, remove_prefix, span_digits, number_from, digits_before, number_text,
}
use dart_backend.Prelude.Results.{map_result}
use dart_backend.Prelude.Sorting.{text_leb, insert_sorted, sort_by}
use dart_backend.Prelude.Int.{◌+ℤ◌, ◌-ℤ◌, min_ℤ}
use dart_backend.Security.{
  accessible_group_ids, user_has_privilege, can_manage_recon, can_link_recon_group,
  get_accessible_recon, Tables, Account, ScopeType,
}
use dart_backend.Security.Reach.{Reaches, In-accessible_group_ids}
use dart_backend.Security.ReconAccess.{Accessed, get_accessible_recon_lem}

program : Unit {0}
unfolding list_beq get put is_space lower_char upper_char lower upper lstrip rstrip strip join
    without starts_with drop_prefix remove_prefix span_digits number_from digits_before number_text
    map_result text_leb insert_sorted sort_by ◌+ℤ◌ ◌-ℤ◌ min_ℤ accessible_group_ids
    user_has_privilege can_manage_recon can_link_recon_group get_accessible_recon
program = tt

abbrev tables : Tables
tables = record {
  memberships =
      record { user_id = 3; scope_type = ScopeType.team; scope_id = 20; role_id = some 1 } ∷ [];
  group_lobs = [];
  group_teams = (5, 20) ∷ (6, 21) ∷ [];
  group_roles = [];
  role_privileges = [];
  recon_groups = (7, 5) ∷ [];
  recons = record { id = 7; owner_id = 1; deleted_at = none } ∷ [];
}

abbrev member_of_team : Account
member_of_team = record { id = 3; is_superuser = false; user_types = "Recon User" ∷ [] }

In-accessible_group_ids_example : In 5 (accessible_group_ids tables 3) ↔ Reaches tables 3 5
In-accessible_group_ids_example = In-accessible_group_ids tables 3 5

get_accessible_recon_lem_example :
    Accessed tables member_of_team 7 (get_accessible_recon tables member_of_team 7)
get_accessible_recon_lem_example = get_accessible_recon_lem tables member_of_team 7
