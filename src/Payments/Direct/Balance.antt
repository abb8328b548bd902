-- ===== src/Payments/Direct/Balance.antt =====
-- The payments that the owner records, in the summary of a booking.
use property_os.Common.{
  ℕ, ◌≡◌, refl, true, false, ◌&&◌, some, List, [], ◌∷◌, ◌++◌, arith, find_one, find_one-In, filter,
  filter-append, save, save_fresh, Unused, ◌==◌,
}
use property_os.Numeric.{Number, nought, sum_from}
use property_os.Service.{ok}
use property_os.Entities.{Booking}
use property_os.Payments.Model.{Payment, PaymentStatus, Ledger, is_refund_type, same_payment_status}
use property_os.Payments.Direct.{
  ManualPaymentDto, record_manual_payment, Summary, get_booking_payment_summary, total_paid,
  total_refunded, of_booking, summary_of, manual_payment, is_paid, is_refunded,
}

module _ {N : Type 0} ⦃num : Number N⦄ where
  sum_from-append :
      (s : N) (xs ys : List (Payment N))
      → sum_from s (λ p. p.amount) (xs ++ ys)
        ≡ sum_from (sum_from s (λ p. p.amount) xs) (λ p. p.amount) ys
  sum_from-append s [] ys = refl
  sum_from-append s (x ∷ xs) ys = sum_from-append (num.add s x.amount) xs ys

  totals-save :
      (id property_id : ℕ) (p : Payment N) (rows : List (Payment N))
      → Unused (λ (q : Payment N). q.id) p.id rows
      → (p.booking_id == id && p.property_id == property_id) ≡ true
      → same_payment_status p.status PaymentStatus.completed ≡ true
      → is_refund_type p.payment_type ≡ false
      → let saved = of_booking id property_id (save (λ (q : Payment N). q.id) p rows) in
        (total_paid saved ≡ num.add (total_paid (of_booking id property_id rows)) p.amount)
        × (total_refunded saved ≡ total_refunded (of_booking id property_id rows))
  unfolding total_paid total_refunded
  totals-save id property_id p rows fresh mine done kind =
      rw (save_fresh (λ (q : Payment N). q.id) p rows fresh, filter-append _ rows (p ∷ []), mine)
        (
          rw (filter-append _ (of_booking id property_id rows) (p ∷ []), done, kind)
              (sum_from-append nought (filter is_paid (of_booking id property_id rows)) (p ∷ [])),
          rw (filter-append _ (of_booking id property_id rows) (p ∷ []), kind)
              (sum_from-append nought (filter is_refunded (of_booking id property_id rows)) []),
        )

  -- the summary with another amount paid
  abbrev pub with_paid : N → Summary N → Summary N
  with_paid paid s = record s {
    paid = paid;
    balance = num.add (num.sub s.owed paid) s.returned;
    fully_paid = num.le (num.add (num.sub s.owed paid) s.returned) nought;
  }

  -- A manual payment of a booking, with a new key and not of the type refund, adds the amount that the
  -- column keeps of it, its amount in whole cents, to what the summary of the booking says is paid, and
  -- nothing to what it says is refunded.
  pub manual_payment_counts :
      (new_id property_id user_id now : ℕ) (dto : ManualPaymentDto N) (l : Ledger N) (b : Booking N)
      (before : Summary N) (kept : N)
      → find_one
          (λ (c : Booking N). c.id == dto.booking_id && c.property_id == property_id)
          l.bookings
        ≡ some b
      → Unused (λ (p : Payment N). p.id) new_id l.payments
      → is_refund_type dto.payment_type ≡ false
      → num.column dto.amount ≡ some kept
      → (get_booking_payment_summary dto.booking_id property_id l).0 ≡ ok before
      → (get_booking_payment_summary dto.booking_id property_id
          (record_manual_payment new_id property_id user_id dto now l).1).0
        ≡ ok (with_paid (num.add before.paid kept) before)
  unfolding get_booking_payment_summary record_manual_payment
  manual_payment_counts new_id property_id user_id now dto l b before kept f fresh kind fits h =
      let mine = (find_one-In _ l.bookings f).1 in
      let rows = of_booking dto.booking_id property_id l.payments in
      let read : ok (summary_of b rows) ≡ ok before = rw f at h in
      let same : summary_of b rows ≡ before = cc in
      rw (f, ← same)
        (let new : Payment N = record (manual_payment new_id property_id user_id dto now b) {
          amount = kept;
        } in
          let own : (b.id == dto.booking_id && property_id == property_id) ≡ true =
            ground (arith, mine) in
          let sums = totals-save dto.booking_id property_id new l.payments fresh own refl kind in
          rw (fits, f, sums.0, sums.1) refl)
