-- ===== src/Staff/Guard.antt =====
-- What the property guard of common/guards/property.guard.ts lets through.
use property_os.Common.{
  ℕ, ◌≡◌, inl, inr, Bool, true, ◌&&◌, some, List, In, arith, find_one-In, Bool-cases, Option-cases,
  ◌==◌, if◌then◌else◌, ==_iff,
}
use property_os.Service.{ok}
use property_os.Staff.Permissions.{
  Permission, PropertyUser, has_permission, every, active_link, can_activate,
}

same_link : {a b : PropertyUser} → ok a ≡ ok b → a ≡ b
same_link h = cc h

and_both : (a b : Bool) → (a && b) ≡ true → (a ≡ true) × (b ≡ true)
and_both a b h = ground (arith, h)

-- A request that the guard lets through goes on with a stored, active link of its user to its
-- property, and that link holds every permission that the handler asks for.
pub guard_lem :
    (members : List PropertyUser) (user property : ℕ) (required : List Permission)
    (link : PropertyUser)
    → can_activate members (some user) (some property) required ≡ ok link
    → In link members
      × (link.property_id ≡ property)
      × (link.user_id ≡ user)
      × (link.is_active ≡ true)
      × (every (has_permission link) required ≡ true)
unfolding can_activate
guard_lem members user property required link h =
    elim (Option-cases (active_link members property user)) [
      | inl e ↦ absurd (cc (rw e at h))
      | inr (found, e) ↦ elim (Bool-cases (every (has_permission found) required)) [
        | inr f ↦ absurd (cc (rw (e, f, if◌then◌else◌) at h))
        | inl f ↦
            let same = same_link (rw (e, f, if◌then◌else◌) at h) in
            let stored = find_one-In _ members e in
            let both =
              and_both (found.property_id == property && found.user_id == user) found.is_active
                stored.1 in
            let keys = and_both (found.property_id == property) (found.user_id == user) both.0 in
            rw (← same) (stored.0, (==_iff _ _).0 keys.0, (==_iff _ _).0 keys.1, both.1, f)
      ]
    ]
