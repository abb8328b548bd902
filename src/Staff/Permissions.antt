-- ===== src/Staff/Permissions.antt =====
-- common/permissions/permissions.enum.ts, modules/properties/entities/property-user.entity.ts and the
-- guard of common/guards/property.guard.ts.
use property_os.Common.{
  ℕ, Bool, true, false, ◌&&◌, Option, none, some, List, [], ◌∷◌, any, find_one, ◌==◌, if◌then◌else◌,
}
use property_os.Service.{Result, ok, thrown, forbidden}

pub data Permission : Type 0 where
  bookings_view bookings_manage : Permission
  inventory_view inventory_manage : Permission
  guests_view guests_manage : Permission
  payments_view payments_manage : Permission
  accounting_view accounting_manage : Permission
  reports_view : Permission
  housekeeping_view housekeeping_manage : Permission
  channels_view channels_manage : Permission
  pricing_view pricing_manage : Permission
  settings_view settings_manage : Permission
  staff_view staff_manage : Permission
  audit_view : Permission
  frontdesk_view frontdesk_manage : Permission
  notifications_view notifications_manage : Permission

-- the place in the enumeration
pub place : Permission → ℕ
place bookings_view = 0
place bookings_manage = 1
place inventory_view = 2
place inventory_manage = 3
place guests_view = 4
place guests_manage = 5
place payments_view = 6
place payments_manage = 7
place accounting_view = 8
place accounting_manage = 9
place reports_view = 10
place housekeeping_view = 11
place housekeeping_manage = 12
place channels_view = 13
place channels_manage = 14
place pricing_view = 15
place pricing_manage = 16
place settings_view = 17
place settings_manage = 18
place staff_view = 19
place staff_manage = 20
place audit_view = 21
place frontdesk_view = 22
place frontdesk_manage = 23
place notifications_view = 24
place notifications_manage = 25

unfoldable pub same_permission : Permission → Permission → Bool
unfolding place
same_permission p q = place p == place q

-- `list.includes(p)`
abbrev pub includes : List Permission → Permission → Bool
includes list p = any (λ q. same_permission q p) list

abbrev pub all_permissions : List Permission
all_permissions =
    bookings_view ∷ bookings_manage ∷ inventory_view ∷ inventory_manage ∷ guests_view
    ∷ guests_manage ∷ payments_view ∷ payments_manage ∷ accounting_view ∷ accounting_manage
    ∷ reports_view ∷ housekeeping_view ∷ housekeeping_manage ∷ channels_view ∷ channels_manage
    ∷ pricing_view ∷ pricing_manage ∷ settings_view ∷ settings_manage ∷ staff_view ∷ staff_manage
    ∷ audit_view ∷ frontdesk_view ∷ frontdesk_manage ∷ notifications_view ∷ notifications_manage
    ∷ []

pub data PropertyUserRole : Type 0 where
  owner manager staff : PropertyUserRole

-- `DEFAULT_PERMISSIONS` of the roles that a member can have
abbrev pub default_permissions : PropertyUserRole → List Permission
default_permissions owner = all_permissions
default_permissions manager =
    bookings_view ∷ bookings_manage ∷ inventory_view ∷ inventory_manage ∷ guests_view
    ∷ guests_manage ∷ payments_view ∷ payments_manage ∷ accounting_view ∷ accounting_manage
    ∷ reports_view ∷ housekeeping_view ∷ housekeeping_manage ∷ channels_view ∷ channels_manage
    ∷ pricing_view ∷ pricing_manage ∷ settings_view ∷ frontdesk_view ∷ frontdesk_manage
    ∷ notifications_view ∷ notifications_manage ∷ staff_view ∷ audit_view ∷ []
default_permissions staff =
    bookings_view ∷ bookings_manage ∷ inventory_view ∷ guests_view ∷ housekeeping_view
    ∷ housekeeping_manage ∷ frontdesk_view ∷ frontdesk_manage ∷ notifications_view ∷ []

pub record PropertyUser : Type 0 where
  pub id : ℕ
  pub property_id : ℕ
  pub user_id : ℕ
  pub role : PropertyUserRole
  pub permissions : List Permission
  pub is_active : Bool

abbrev pub is_owner : PropertyUserRole → Bool
is_owner owner = true
is_owner _ = false

abbrev pub is_manager : PropertyUserRole → Bool
is_manager manager = true
is_manager _ = false

unfoldable pub has_permission : PropertyUser → Permission → Bool
has_permission m p = if is_owner m.role then true else includes m.permissions p

unfoldable pub effective_permissions : PropertyUser → List Permission
effective_permissions m = if is_owner m.role then all_permissions else m.permissions

-- `list.every(p)`
abbrev pub every : (Permission → Bool) → List Permission → Bool
every f [] = true
every f (p ∷ list) = f p && every f list

abbrev pub active_link : List PropertyUser → ℕ → ℕ → Option PropertyUser
active_link members property user =
    find_one (λ m. m.property_id == property && m.user_id == user && m.is_active) members

abbrev check_link : List Permission → Option PropertyUser → Result PropertyUser
check_link required none = thrown (forbidden "No access to this property")
check_link required (some link) =
    if every (has_permission link) required
    then ok link
    else thrown (forbidden "You do not have permission to perform this action")

-- `canActivate`: the link that the request goes on with
unfoldable pub can_activate :
    List PropertyUser → Option ℕ → Option ℕ → List Permission → Result PropertyUser
can_activate members (some user) (some property) required =
    check_link required (active_link members property user)
can_activate members _ _ required = thrown (forbidden "Missing user or property context")
