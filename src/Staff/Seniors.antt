-- ===== src/Staff/Seniors.antt =====
-- Who becomes an owner or a manager.
use text.Mathlib.Text.{◌==◌ as ◌≟◌}
use property_os.Common.{
  ℕ, ◌≡◌, refl, inl, inr, String, Bool, true, false, not, ◌&&◌, List, In, All, All-save, All-of_In,
  arith, any, find_one, find_one-In, Bool-cases, Option-cases, save, count_where, leb, ◌==◌,
  is_some,
}
use property_os.Auth.{User}
use property_os.Staff.Permissions.{
  Permission, PropertyUser, is_owner, is_manager, includes, effective_permissions,
}
use property_os.Staff.{
  Team, InviteStaffDto, UpdateStaffRoleDto, Draw, member_key, is_senior, find_member, owns,
  owner_count, invite_staff, update_role, update_permissions, toggle_active,
}

-- an owner or manager who was one before, with the same role
abbrev pub WasSenior : Team → PropertyUser → Type 0
WasSenior t r =
    is_senior r.role ≡ true
    → (m : PropertyUser) × In m t.members × (m.id ≡ r.id) × (m.role ≡ r.role)

abbrev pub NoneRisen : Team → Team → Type 0
NoneRisen before after = All (WasSenior before) after.members

unchanged : (t : Team) → NoneRisen t t
unchanged t = All-of_In (WasSenior t) t.members (λ m i senior. (m, i, refl, refl))

saved :
    (t : Team) (new : PropertyUser)
    → WasSenior t new
    → All (WasSenior t) (save member_key new t.members)
saved t new h = All-save member_key (WasSenior t) new t.members h (unchanged t)

not_senior : (senior owner : Bool) → (senior && not owner) ≡ false → owner ≡ false → senior ≡ false
not_senior senior owner h e = ground (arith, h, e)

module _ (requester : PropertyUser) (no_owner : is_owner requester.role ≡ false) (t : Team) where
  invite_staff-NoneRisen :
      (lower sha256 : String → String) (at : ℕ) (draw : Draw) (dto : InviteStaffDto)
      → NoneRisen t (invite_staff lower sha256 at draw dto requester t).1
  unfolding invite_staff
  invite_staff-NoneRisen lower sha256 at draw dto =
      elim (Bool-cases (is_senior dto.role && not (is_owner requester.role))) [
        | inl e ↦ simp e (unchanged t)
        | inr e ↦
            let junior = not_senior _ _ e no_owner in
            elim (Option-cases (find_one (λ (u : User). u.email ≟ lower dto.email) t.users)) [
              | inl f ↦ simp (e, f) (saved t _ (λ s. absurd (cc (junior, s))))
              | inr (u, f) ↦
                  elim (Bool-cases (
                    is_some (
                      find_one (λ (m : PropertyUser). m.property_id == at && m.user_id == u.id)
                        t.members))) [
                          | inl g ↦ simp (e, f, g) (unchanged t)
                          | inr g ↦ simp (e, f, g) (saved t _ (λ s. absurd (cc (junior, s))))
                        ]
            ]
      ]

  update_role-NoneRisen :
      (at id : ℕ) (dto : UpdateStaffRoleDto) → NoneRisen t (update_role at id dto requester t).1
  unfolding update_role
  update_role-NoneRisen at id dto = elim (Option-cases (find_member at id t)) [
    | inl e ↦ simp e (unchanged t)
    | inr (m, e) ↦ elim (Bool-cases (m.user_id == requester.user_id)) [
      | inl f ↦ simp (e, f) (unchanged t)
      | inr f ↦ elim (Bool-cases (is_senior m.role && not (is_owner requester.role))) [
        | inl g ↦ simp (e, f, g) (unchanged t)
        | inr g ↦ elim (Bool-cases (is_senior dto.role && not (is_owner requester.role))) [
          | inl h ↦ simp (e, f, g, h) (unchanged t)
          | inr h ↦
              let junior = not_senior _ _ h no_owner in
              elim (Bool-cases
                (is_owner m.role && not (is_owner dto.role) && leb (owner_count at t) 1)) [
                  | inl k ↦ simp (e, f, g, h, k) (unchanged t)
                  | inr k ↦ simp (e, f, g, h, k) (saved t _ (λ s. absurd (cc (junior, s))))
                ]
        ]
      ]
    ]
  ]

  update_permissions-NoneRisen :
      (at id : ℕ) (permissions : List Permission)
      → NoneRisen t (update_permissions at id permissions requester t).1
  unfolding update_permissions
  update_permissions-NoneRisen at id permissions = elim (Option-cases (find_member at id t)) [
    | inl e ↦ simp e (unchanged t)
    | inr (m, e) ↦ elim (Bool-cases (is_owner m.role)) [
      | inl f ↦ simp (e, f) (unchanged t)
      | inr f ↦ elim (Bool-cases (is_senior requester.role)) [
        | inr g ↦ simp (e, f, g) (unchanged t)
        | inl g ↦
            elim (Bool-cases (
              is_manager requester.role
              && any (λ p. not (includes (effective_permissions requester) p)) permissions)) [
                | inl h ↦ simp (e, f, g, h) (unchanged t)
                | inr h ↦
                    simp (e, f, g, h)
                      (saved t _ (λ s. (m, (find_one-In _ t.members e).0, refl, refl)))
              ]
      ]
    ]
  ]

  toggle_active-NoneRisen : (at id : ℕ) → NoneRisen t (toggle_active at id requester t).1
  unfolding toggle_active
  toggle_active-NoneRisen at id = elim (Option-cases (find_member at id t)) [
    | inl e ↦ simp e (unchanged t)
    | inr (m, e) ↦ elim (Bool-cases (is_owner m.role && not (is_owner requester.role))) [
      | inl f ↦ simp (e, f) (unchanged t)
      | inr f ↦
          elim (Bool-cases (
            is_owner m.role
            && m.is_active
            && leb (count_where (λ n. owns at n && n.is_active) t.members) 1)) [
              | inl g ↦ simp (e, f, g) (unchanged t)
              | inr g ↦
                  simp (e, f, g) (saved t _ (λ s. (m, (find_one-In _ t.members e).0, refl, refl)))
            ]
    ]
  ]

  -- Only owners make owners and managers: when the requester is not an owner, then after inviting,
  -- changing a role, changing permissions or toggling a member, every owner and manager is a member
  -- who was stored before with the same role.
  pub seniors_stay :
      (lower sha256 : String → String) (at id : ℕ) (draw : Draw) (invite : InviteStaffDto)
      (change : UpdateStaffRoleDto) (permissions : List Permission)
      → NoneRisen t (invite_staff lower sha256 at draw invite requester t).1
        × NoneRisen t (update_role at id change requester t).1
        × NoneRisen t (update_permissions at id permissions requester t).1
        × NoneRisen t (toggle_active at id requester t).1
  seniors_stay lower sha256 at id draw invite change permissions = (
    invite_staff-NoneRisen lower sha256 at draw invite,
    update_role-NoneRisen at id change,
    update_permissions-NoneRisen at id permissions,
    toggle_active-NoneRisen at id,
  )
