-- ===== src/Tests/Team.antt =====
-- The owner and the receptionist of one property.
use property_os.Common.{◌≡◌, ◌≤◌, refl, String, true, none, [], ◌∷◌, In, arith}
use property_os.Staff.Permissions.{
  PropertyUser, owner, staff, manager, bookings_view, bookings_manage, default_permissions,
  all_permissions, can_activate, has_permission, every, same_permission,
}
use property_os.Staff.{
  Team, InviteStaffDto, UpdateStaffRoleDto, Draw, invite_staff, update_role, update_permissions,
  toggle_active, remove_staff, owner_count,
}
use property_os.Staff.Guard.{guard_lem}
use property_os.Staff.Owners.{owner_kept, here, next, removes, changes_role}
use property_os.Staff.Seniors.{NoneRisen, seniors_stay}

abbrev boss : PropertyUser
boss = record {
  id = 1;
  property_id = 1;
  user_id = 10;
  role = owner;
  permissions = [];
  is_active = true;
}

abbrev clerk : PropertyUser
clerk = record {
  id = 2;
  property_id = 1;
  user_id = 11;
  role = staff;
  permissions = default_permissions staff;
  is_active = true;
}

abbrev team : Team
team = record { members = boss ∷ clerk ∷ []; users = []; invites = [] }

abbrev promotion : UpdateStaffRoleDto
promotion = record { role = manager; permissions = none }

abbrev newcomer : InviteStaffDto
newcomer = record {
  email = "sipho@example.com";
  first_name = "Sipho";
  last_name = "Dlamini";
  phone = none;
  role = manager;
  permissions = none;
}

abbrev draw : Draw
draw = record { now = 5; member_id = 3; user_id = 12; token = "t0k" }

abbrev same : String → String
same s = s

owner_kept_example :
    1 ≤ owner_count 1 (update_role 1 2 promotion boss (remove_staff 1 1 boss team).1).1
owner_kept_example =
    owner_kept {lower = same} {sha256 = same} 1
      (record { distinct = (((λ e. omega (arith, e)), tt), (tt, tt)); owned = omega arith })
      (next (next here (removes 1 1 boss)) (changes_role 1 2 promotion boss))

seniors_stay_example :
    NoneRisen team (invite_staff same same 1 draw newcomer clerk team).1
    × NoneRisen team (update_role 1 2 promotion clerk team).1
    × NoneRisen team (update_permissions 1 2 all_permissions clerk team).1
    × NoneRisen team (toggle_active 1 2 clerk team).1
seniors_stay_example =
    seniors_stay clerk refl team same same 1 2 draw newcomer promotion all_permissions

guard_lem_example :
    In clerk team.members
    × (clerk.property_id ≡ 1)
    × (clerk.user_id ≡ 11)
    × (clerk.is_active ≡ true)
    × (every (has_permission clerk) (bookings_view ∷ bookings_manage ∷ []) ≡ true)
unfolding can_activate has_permission same_permission
guard_lem_example = guard_lem team.members 11 1 (bookings_view ∷ bookings_manage ∷ []) clerk refl
