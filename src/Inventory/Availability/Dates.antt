-- ===== src/Inventory/Availability/Dates.antt =====
-- `dateRange` of modules/bookings/bookings.service.ts, which lists the nights of a stay.
use property_os.Common.{
  ℕ, zero, suc, ◌+◌, ◌-◌, ◌≤◌, ◌<◌, ◌≡◌, ◌↔◌, inl, inr, In, length, ltb, arith, ◌==◌, Bool-cases,
}
use property_os.Inventory.Availability.{days_from, date_range}

length-days_from : (fuel d last : ℕ) → last ≤ d + fuel → length (days_from fuel d last) ≡ last - d
unfolding days_from
length-days_from zero d last enough = omega arith
length-days_from (suc fuel) d last enough =
    ground (arith, length-days_from fuel (d + 1) last (omega arith))

In-days_from :
    (fuel start end day : ℕ)
    → end ≤ start + fuel
    → In day (days_from fuel start end) ↔ ((start ≤ day) × (day < end))
unfolding days_from
In-days_from zero start end day enough = (λ i. absurd i, λ h. absurd (omega arith))
In-days_from (suc fuel) start end day enough =
    let rest = In-days_from fuel (start + 1) end day (omega arith) in
    elim (Bool-cases (ltb start end)) [
      | inr over ↦ rw over (λ i. absurd i, λ h. absurd (ground arith))
      | inl more ↦ rw more (
        λ i. ground (arith, rest.0),
        λ h. elim (Bool-cases (day == start)) [
          | inl e ↦ inl (ground arith)
          | inr e ↦ inr (rest.1 (ground arith))
        ],
      )
    ]

-- The nights of a stay are the days from its first on and before its last: each of them, no other, and
-- as many as the stay has nights.
pub date_range_lem :
    (start end : ℕ)
    → ((day : ℕ) → In day (date_range start end) ↔ ((start ≤ day) × (day < end)))
      × (length (date_range start end) ≡ end - start)
unfolding date_range
date_range_lem start end = (
  λ day. (
    λ i. (In-days_from (end - start) start end day (omega arith)).0 i,
    λ h. (In-days_from (end - start) start end day (omega arith)).1 h,
  ),
  length-days_from (end - start) start end (omega arith),
)
