-- ===== src/Staff/Owners.antt =====
-- The owners of a property under the operations of the staff service.
use text.Mathlib.Text.{◌==◌ as ◌≟◌}
use property_os.Common.{
  ℕ, ◌≤◌, ◌≡◌, refl, inl, inr, String, Bool, true, false, not, ◌&&◌, List, In, arith, any, find_one,
  find_one-In, Bool-cases, Option-cases, Distinct, Distinct-save, Distinct-filter, Unused, save,
  remove, count_where, count_where-save, count_where-save_new, count_where-remove, leb, ◌==◌,
  ==_iff, is_some,
}
use property_os.Auth.{User}
use property_os.Staff.Permissions.{
  Permission, PropertyUser, is_owner, is_manager, includes, effective_permissions,
}
use property_os.Staff.{
  Team, InviteStaffDto, UpdateStaffRoleDto, Draw, member_key, is_senior, find_member, owns,
  owner_count, with_role, invite_staff, update_role, update_permissions, toggle_active,
  remove_staff,
}

-- The members have distinct keys and the property has an owner.
pub record IsOwned (property : ℕ) (t : Team) : Type 0 where
  pub distinct : Distinct member_key t.members
  pub owned : 1 ≤ owner_count property t

ground_last :
    (was will few same : Bool)
    → (same && was) ≡ true
    → (same && will) ≡ false
    → (was && not will && few) ≡ false
    → few ≡ false
ground_last was will few same a b c = ground (arith, a, b, c)

module _ (property : ℕ) where
  -- a member is changed who stays in the same property, and an owner only if another is left
  replaced-IsOwned :
      (t : Team) (m new : PropertyUser)
      → In m t.members
      → m.id ≡ new.id
      → (owns property m ≡ true → owns property new ≡ false → 2 ≤ owner_count property t)
      → IsOwned property t
      → IsOwned property (record t { members = save member_key new t.members })
  replaced-IsOwned t m new i same kept v = record {
    distinct = Distinct-save member_key new t.members v.distinct;
    owned = ground (
      arith,
      v.owned,
      kept,
      count_where-save member_key (owns property) new m t.members v.distinct i same,
    );
  }

  -- the check that another owner is left, for the property of the member
  another :
      (at of : ℕ) (was will : Bool) (t : Team)
      → (of == at) ≡ true
      → (of == property && was) ≡ true
      → (of == property && will) ≡ false
      → (was && not will && leb (owner_count at t) 1) ≡ false
      → 2 ≤ owner_count property t
  another at of was will t same before after check =
      let here : of ≡ at = (==_iff _ _).0 same in
      let there : of ≡ property = ground (arith, before) in
      let count =
        ground_last was will (leb (owner_count at t) 1) (of == property) before after check in
      rw (← there, here) (ground (arith, count))

  added-IsOwned :
      (t : Team) (new : PropertyUser)
      → Unused member_key new.id t.members
      → IsOwned property t
      → IsOwned property (record t { members = save member_key new t.members })
  added-IsOwned t new fresh v = record {
    distinct = Distinct-save member_key new t.members v.distinct;
    owned =
        ground
          (arith, v.owned, count_where-save_new member_key (owns property) new t.members fresh);
  }

  invite_staff-IsOwned :
      (lower sha256 : String → String) (at : ℕ) (draw : Draw) (dto : InviteStaffDto)
      (requester : PropertyUser) (t : Team)
      → Unused member_key draw.member_id t.members
      → IsOwned property t
      → IsOwned property (invite_staff lower sha256 at draw dto requester t).1
  unfolding invite_staff
  invite_staff-IsOwned lower sha256 at draw dto requester t fresh v =
      elim (Bool-cases (is_senior dto.role && not (is_owner requester.role))) [
        | inl e ↦ simp e v
        | inr e ↦ elim (Option-cases (find_one (λ (u : User). u.email ≟ lower dto.email) t.users)) [
          | inl f ↦
              simp (e, f)
                (added-IsOwned _ _ fresh (record { distinct = v.distinct; owned = v.owned }))
          | inr (u, f) ↦
              elim (Bool-cases (
                is_some (
                  find_one (λ (m : PropertyUser). m.property_id == at && m.user_id == u.id)
                    t.members))) [
                      | inl g ↦ simp (e, f, g) v
                      | inr g ↦ simp (e, f, g) (added-IsOwned t _ fresh v)
                    ]
        ]
      ]

  update_role-IsOwned :
      (at id : ℕ) (dto : UpdateStaffRoleDto) (requester : PropertyUser) (t : Team)
      → IsOwned property t
      → IsOwned property (update_role at id dto requester t).1
  unfolding update_role
  update_role-IsOwned at id dto requester t v = elim (Option-cases (find_member at id t)) [
    | inl e ↦ simp e v
    | inr (m, e) ↦ elim (Bool-cases (m.user_id == requester.user_id)) [
      | inl f ↦ simp (e, f) v
      | inr f ↦ elim (Bool-cases (is_senior m.role && not (is_owner requester.role))) [
        | inl g ↦ simp (e, f, g) v
        | inr g ↦ elim (Bool-cases (is_senior dto.role && not (is_owner requester.role))) [
          | inl h ↦ simp (e, f, g, h) v
          | inr h ↦
              elim (Bool-cases
                (is_owner m.role && not (is_owner dto.role) && leb (owner_count at t) 1)) [
                  | inl k ↦ simp (e, f, g, h, k) v
                  | inr k ↦
                      let found = find_one-In _ t.members e in
                      simp (e, f, g, h, k)
                        (replaced-IsOwned t m (with_role dto m) found.0 refl
                          (λ a b.
                            another at m.property_id (is_owner m.role) (is_owner dto.role) t
                              (ground (arith, found.1)) a b k)
                          v)
                ]
        ]
      ]
    ]
  ]

  update_permissions-IsOwned :
      (at id : ℕ) (permissions : List Permission) (requester : PropertyUser) (t : Team)
      → IsOwned property t
      → IsOwned property (update_permissions at id permissions requester t).1
  unfolding update_permissions
  update_permissions-IsOwned at id permissions requester t v =
      elim (Option-cases (find_member at id t)) [
        | inl e ↦ simp e v
        | inr (m, e) ↦ elim (Bool-cases (is_owner m.role)) [
          | inl f ↦ simp (e, f) v
          | inr f ↦ elim (Bool-cases (is_senior requester.role)) [
            | inr g ↦ simp (e, f, g) v
            | inl g ↦
                elim (Bool-cases (
                  is_manager requester.role
                  && any (λ p. not (includes (effective_permissions requester) p)) permissions)) [
                    | inl h ↦ simp (e, f, g, h) v
                    | inr h ↦
                        simp (e, f, g, h)
                          (replaced-IsOwned t m _ (find_one-In _ t.members e).0 refl
                            (λ a b. absurd (cc (a, b))) v)
                  ]
          ]
        ]
      ]

  toggle_active-IsOwned :
      (at id : ℕ) (requester : PropertyUser) (t : Team)
      → IsOwned property t
      → IsOwned property (toggle_active at id requester t).1
  unfolding toggle_active
  toggle_active-IsOwned at id requester t v = elim (Option-cases (find_member at id t)) [
    | inl e ↦ simp e v
    | inr (m, e) ↦ elim (Bool-cases (is_owner m.role && not (is_owner requester.role))) [
      | inl f ↦ simp (e, f) v
      | inr f ↦
          elim (Bool-cases (
            is_owner m.role
            && m.is_active
            && leb (count_where (λ n. owns at n && n.is_active) t.members) 1)) [
              | inl g ↦ simp (e, f, g) v
              | inr g ↦
                  simp (e, f, g)
                    (replaced-IsOwned t m _ (find_one-In _ t.members e).0 refl
                      (λ a b. absurd (cc (a, b))) v)
            ]
    ]
  ]

  removed_left :
      (t : Team) (m : PropertyUser) (at : ℕ)
      → In m t.members
      → (m.property_id == at) ≡ true
      → (is_owner m.role && leb (owner_count at t) 1) ≡ false
      → IsOwned property t
      → 1 ≤ count_where (owns property) (remove member_key m.id t.members)
  removed_left t m at i same check v =
      let counted = count_where-remove member_key (owns property) m t.members v.distinct i in
      elim (Bool-cases (owns property m)) [
        | inr e ↦ ground (arith, counted, e, v.owned)
        | inl e ↦
            let two =
              another at m.property_id (is_owner m.role) false t same e (ground arith)
                (ground (arith, check)) in
            ground (arith, counted, e, two)
      ]

  remove_staff-IsOwned :
      (at id : ℕ) (requester : PropertyUser) (t : Team)
      → IsOwned property t
      → IsOwned property (remove_staff at id requester t).1
  unfolding remove_staff
  remove_staff-IsOwned at id requester t v = elim (Option-cases (find_member at id t)) [
    | inl e ↦ simp e v
    | inr (m, e) ↦ elim (Bool-cases (is_senior m.role && not (is_owner requester.role))) [
      | inl f ↦ simp (e, f) v
      | inr f ↦ elim (Bool-cases (is_owner m.role && leb (owner_count at t) 1)) [
        | inl g ↦ simp (e, f, g) v
        | inr g ↦
            let found = find_one-In _ t.members e in
            simp (e, f, g)
              (record {
                distinct = Distinct-filter member_key _ t.members v.distinct;
                owned = removed_left t m at found.0 (ground (arith, found.1)) g v;
              })
      ]
    ]
  ]

-- A request to the staff service, whatever it returns or throws; an invitation draws a new key.
pub data StaffStep (lower sha256 : String → String) (t : Team) : Team → Type 0 where
  invites :
      (at : ℕ) (draw : Draw) (dto : InviteStaffDto) (requester : PropertyUser)
      → Unused member_key draw.member_id t.members
      → StaffStep lower sha256 t (invite_staff lower sha256 at draw dto requester t).1
  changes_role :
      (at id : ℕ) (dto : UpdateStaffRoleDto) (requester : PropertyUser)
      → StaffStep lower sha256 t (update_role at id dto requester t).1
  changes_permissions :
      (at id : ℕ) (permissions : List Permission) (requester : PropertyUser)
      → StaffStep lower sha256 t (update_permissions at id permissions requester t).1
  toggles :
      (at id : ℕ) (requester : PropertyUser)
      → StaffStep lower sha256 t (toggle_active at id requester t).1
  removes :
      (at id : ℕ) (requester : PropertyUser)
      → StaffStep lower sha256 t (remove_staff at id requester t).1

pub data Reach (lower sha256 : String → String) (t : Team) : Team → Type 0 where
  here : Reach lower sha256 t t
  next : {u v : Team} → Reach lower sha256 t u → StaffStep lower sha256 u v → Reach lower sha256 t v

StaffStep-IsOwned :
    {lower sha256 : String → String} (property : ℕ) {t u : Team}
    → IsOwned property t
    → StaffStep lower sha256 t u
    → IsOwned property u
StaffStep-IsOwned {lower} {sha256} p {t} v (invites at draw dto requester fresh) =
    invite_staff-IsOwned p lower sha256 at draw dto requester t fresh v
StaffStep-IsOwned p {t} v (changes_role at id dto requester) =
    update_role-IsOwned p at id dto requester t v
StaffStep-IsOwned p {t} v (changes_permissions at id permissions requester) =
    update_permissions-IsOwned p at id permissions requester t v
StaffStep-IsOwned p {t} v (toggles at id requester) = toggle_active-IsOwned p at id requester t v
StaffStep-IsOwned p {t} v (removes at id requester) = remove_staff-IsOwned p at id requester t v

-- A property that has an owner keeps one, whatever requests are made to the staff service for it or
-- for another property, and by whom: its last owner is never removed nor given another role. An owner
-- counts here also while inactive. The members have distinct keys, and invitations draw new ones.
pub owner_kept :
    {lower sha256 : String → String} (property : ℕ) {t u : Team}
    → IsOwned property t
    → Reach lower sha256 t u
    → 1 ≤ owner_count property u
owner_kept {lower} {sha256} property {t} v run = (Reach-IsOwned run).owned
  where
    Reach-IsOwned : {w : Team} → Reach lower sha256 t w → IsOwned property w
    Reach-IsOwned here = v
    Reach-IsOwned (next r s) = StaffStep-IsOwned property (Reach-IsOwned r) s
