-- ===== src/Bookings/Quote/Reference.antt =====
-- The reference numbers of new bookings: `generateRefNumber` of modules/bookings/bookings.service.ts.
use text.Mathlib.Text.{◌==◌ as ◌≟◌}
use property_os.Common.{
  ℕ, zero, suc, ◌+◌, ◌≤◌, ◌<◌, ◌≡◌, String, Bool, true, false, List, any, ◌==◌, arith, Bool-cases,
  inl, inr, refl,
}
use property_os.Service.{ok, thrown, Exception}
use property_os.Entities.{Booking}
use property_os.Bookings.Quote.{generate_reference}

module _ {N : Type 0} where
  -- a booking has the reference
  abbrev pub is_used : List (Booking N) → String → Bool
  is_used bookings reference = any (λ b. b.reference_number ≟ reference) bookings

  -- The reference is the first of its draws that no booking has.
  abbrev pub IsFirstUnused : (attempt left : ℕ) → (ℕ → String) → List (Booking N) → String → Type 0
  IsFirstUnused attempt left draw bookings reference =
      (i : ℕ) × (attempt ≤ i)
      × (i < attempt + left)
      × (reference ≡ draw i)
      × (is_used bookings reference ≡ false)
      × ((j : ℕ) → attempt ≤ j → j < i → is_used bookings (draw j) ≡ true)

  -- The loop returns the first of its draws that no booking has, and it throws only when each of its
  -- draws is the reference of a booking.
  pub generate_reference_lem :
      (left attempt : ℕ) (draw : ℕ → String) (bookings : List (Booking N))
      → ((reference : String)
          → generate_reference left attempt draw bookings ≡ ok reference
          → IsFirstUnused attempt left draw bookings reference)
        × ((x : Exception)
            → generate_reference left attempt draw bookings ≡ thrown x
            → (i : ℕ) → attempt ≤ i
            → i < attempt + left
            → is_used bookings (draw i) ≡ true)
  unfolding generate_reference
  generate_reference_lem zero attempt draw bookings =
      (λ reference h. absurd (cc), λ x h i lo hi. absurd (omega arith))
  generate_reference_lem (suc left) attempt draw bookings =
      let rest = generate_reference_lem left (attempt + 1) draw bookings in
      elim (Bool-cases (is_used bookings (draw attempt))) [
        | inl e ↦ (
          λ reference h.
              (let (i, lo, hi, drawn, unused, earlier) =
                  rest.0 reference (rw (e, generate_reference) at h) in
                (
                  i,
                  omega arith,
                  omega arith,
                  drawn,
                  unused,
                  λ j from below. elim (Bool-cases (j == attempt)) [
                    | inl same ↦
                        (let at_first : j ≡ attempt = ground arith in rw (at_first, e) refl)
                    | inr other ↦ earlier j (ground arith) below
                  ],
                )),
          λ x h i lo hi. elim (Bool-cases (i == attempt)) [
            | inl same ↦ (let at_first : i ≡ attempt = ground arith in rw (at_first, e) refl)
            | inr other ↦ rest.1 x (rw (e, generate_reference) at h) i (ground arith) (omega arith)
          ],
        )
        | inr e ↦ (
          λ reference h.
              (let drawn : ok (draw attempt) ≡ ok reference = rw (e, generate_reference) at h in
                let same : draw attempt ≡ reference = cc in
                rw (← same) (
                  attempt,
                  omega arith,
                  omega arith,
                  refl,
                  e,
                  λ j from below. absurd (omega arith),
                )),
          λ x h.
              (let drawn : ok (draw attempt) ≡ thrown x = rw (e, generate_reference) at h in
                absurd (cc)),
        )
      ]
