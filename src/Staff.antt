-- ===== src/Staff.antt =====
-- modules/properties/staff.service.ts: who works for a property, and in which role. `trimmed_lower` and
-- `sha256` are the runtime's; identifiers and the invite token are drawn by the caller.
pub mod Permissions
pub mod Guard
pub mod Owners
pub mod Seniors
use text.Mathlib.Text.{◌==◌ as ◌≟◌}
use property_os.Common.{
  ℕ, ◌+◌, String, Bool, true, false, not, ◌&&◌, ◌||◌, Option, none, some, List, [], ◌∷◌, any,
  filter, find_one, save, remove, push, count_where, leb, ◌==◌, or_else, is_some, if◌then◌else◌,
}
use property_os.Service.{
  Exec, pure, or_throw, throw_if, gets, modify, ◌>>=◌, ◌>>◌, forbidden, not_found, conflict,
}
use property_os.Auth.{User, UserRole, user_key}
use Permissions.{
  Permission, PropertyUser, PropertyUserRole, owner, manager, staff, is_owner, is_manager, includes,
  all_permissions, default_permissions, effective_permissions,
}

pub record Invite : Type 0 where
  pub to : String
  pub token : String

pub record Team : Type 0 where
  pub members : List PropertyUser
  pub users : List User
  pub invites : List Invite

pub record InviteStaffDto : Type 0 where
  pub email : String
  pub first_name : String
  pub last_name : String
  pub phone : Option String
  pub role : PropertyUserRole
  pub permissions : Option (List Permission)

pub record UpdateStaffRoleDto : Type 0 where
  pub role : PropertyUserRole
  pub permissions : Option (List Permission)

abbrev pub member_key : PropertyUser → ℕ
member_key m = m.id

abbrev pub is_senior : PropertyUserRole → Bool
is_senior role = is_owner role || is_manager role

-- `assertCanAssignRole`
abbrev pub assert_can_assign_role : PropertyUser → PropertyUserRole → Exec Team (Unit {0})
assert_can_assign_role requester target =
    throw_if (is_senior target && not (is_owner requester.role))
      (forbidden "Only an owner can grant owner or manager roles")

abbrev pub find_member : ℕ → ℕ → Team → Option PropertyUser
find_member property id t = find_one (λ m. m.id == id && m.property_id == property) t.members

abbrev pub save_member : PropertyUser → Team → Team
save_member m t = record t { members = save member_key m t.members }

-- the owners of a property, active or not
abbrev pub owns : ℕ → PropertyUser → Bool
owns property m = m.property_id == property && is_owner m.role

abbrev pub owner_count : ℕ → Team → ℕ
owner_count property t = count_where (owns property) t.members

abbrev user_role : PropertyUserRole → UserRole
user_role owner = UserRole.owner
user_role manager = UserRole.manager
user_role staff = UserRole.staff

-- three days in milliseconds
abbrev invite_ttl : ℕ
invite_ttl = 259_200_000

-- what a call that invites draws: the keys of the new rows and the token
pub record Draw : Type 0 where
  pub now : ℕ
  pub member_id : ℕ
  pub user_id : ℕ
  pub token : String

module _ (trimmed_lower sha256 : String → String) where
  -- a new user, saved with the hash of the invite token
  abbrev new_user : Draw → InviteStaffDto → User
  new_user draw dto = record {
    id = draw.user_id;
    email = trimmed_lower dto.email;
    password_hash = none;
    google_id = none;
    first_name = dto.first_name;
    last_name = dto.last_name;
    phone = dto.phone;
    avatar_url = none;
    is_active = true;
    email_verified = false;
    role = user_role dto.role;
    last_login_at = none;
    password_reset_token = none;
    password_reset_expires = none;
    invite_token = some (sha256 draw.token);
    invite_expires = some (draw.now + invite_ttl);
  }

  -- the invited user's key: of the user with the address, who must not be a member, or of a new one
  abbrev invited : ℕ → Draw → InviteStaffDto → Option User → Exec Team ℕ
  invited property draw dto (some user) = do
    existing ← gets (λ t.
        find_one (λ (m : PropertyUser). m.property_id == property && m.user_id == user.id)
          t.members)
    throw_if (is_some existing) (conflict "User is already a member of this property")
    pure user.id
  invited property draw dto none = do
    modify (λ t. record t {
      users = save user_key (new_user draw dto) t.users;
      invites = push t.invites (record { to = trimmed_lower dto.email; token = draw.token });
    })
    pure draw.user_id

  unfoldable pub invite_staff : ℕ → Draw → InviteStaffDto → PropertyUser → Exec Team PropertyUser
  invite_staff property draw dto requester = do
    assert_can_assign_role requester dto.role
    found ← gets (λ t. find_one (λ (u : User). u.email ≟ trimmed_lower dto.email) t.users)
    user ← invited property draw dto found
    let member : PropertyUser = record {
      id = draw.member_id;
      property_id = property;
      user_id = user;
      role = dto.role;
      permissions = or_else dto.permissions (default_permissions dto.role);
      is_active = true;
    }
    modify (save_member member)
    pure member

-- The role is written first, so that the code's second test compares it with itself: without new
-- permissions the old ones stay.
abbrev pub with_role : UpdateStaffRoleDto → PropertyUser → PropertyUser
with_role dto m = record m { role = dto.role; permissions = or_else dto.permissions m.permissions }

unfoldable pub update_role : ℕ → ℕ → UpdateStaffRoleDto → PropertyUser → Exec Team PropertyUser
update_role property id dto requester = do
  found ← gets (find_member property id)
  m ← or_throw found (not_found "Staff member not found")
  throw_if (m.user_id == requester.user_id) (forbidden "You cannot change your own role")
  throw_if (is_senior m.role && not (is_owner requester.role))
      (forbidden "Only an owner can change an owner or manager role")
  assert_can_assign_role requester dto.role
  owners ← gets (owner_count property)
  throw_if (is_owner m.role && not (is_owner dto.role) && leb owners 1)
      (forbidden "Cannot remove the last owner")
  modify (save_member (with_role dto m))
  pure (with_role dto m)

unfoldable pub update_permissions : ℕ → ℕ → List Permission → PropertyUser → Exec Team PropertyUser
update_permissions property id permissions requester = do
  found ← gets (find_member property id)
  m ← or_throw found (not_found "Staff member not found")
  throw_if (is_owner m.role) (forbidden "Owner permissions cannot be restricted")
  throw_if (not (is_senior requester.role))
      (forbidden "Only owners and managers can edit permissions")
  throw_if
      (is_manager requester.role
        && any (λ p. not (includes (effective_permissions requester) p)) permissions)
      (forbidden "Cannot grant permissions you do not have")
  let changed : PropertyUser = record m {
    permissions = filter (includes all_permissions) permissions;
  }
  modify (save_member changed)
  pure changed

unfoldable pub toggle_active : ℕ → ℕ → PropertyUser → Exec Team PropertyUser
toggle_active property id requester = do
  found ← gets (find_member property id)
  m ← or_throw found (not_found "Staff member not found")
  throw_if (is_owner m.role && not (is_owner requester.role))
      (forbidden "Only an owner can deactivate an owner")
  active ← gets (λ t. count_where (λ n. owns property n && n.is_active) t.members)
  throw_if (is_owner m.role && m.is_active && leb active 1)
      (forbidden "Cannot deactivate the last active owner")
  let changed : PropertyUser = record m { is_active = not m.is_active }
  modify (save_member changed)
  pure changed

unfoldable pub remove_staff : ℕ → ℕ → PropertyUser → Exec Team (Unit {0})
remove_staff property id requester = do
  found ← gets (find_member property id)
  m ← or_throw found (not_found "Staff member not found")
  throw_if (is_senior m.role && not (is_owner requester.role))
      (forbidden "Only an owner can remove an owner or manager")
  owners ← gets (owner_count property)
  throw_if (is_owner m.role && leb owners 1) (forbidden "Cannot remove the last owner")
  modify (λ t. record t { members = remove member_key m.id t.members })
