-- ===== src/Payments/Refunds/Payouts.antt =====
-- Each completed refund of modules/payments/refunds.service.ts pays out once.
use property_os.Common.{
  In, ap, tally, Distinct-save, ℕ, String, ◌+◌, ◌≡◌, refl, sym, inl, inr, Bool, true, false, not,
  ◌&&◌, Option, some, arith, find_one, find_one-In, Bool-cases, Option-cases, Unused, Distinct,
  save, count_where, count_where-save, count_where-save_new,
}
use property_os.Numeric.{Number}
use property_os.Payments.Model.{
  PaymentStatus, same_payment_status, Refund, Payment, Ledger, requested, approved,
  same_refund_status, RefundStatus, is_refund_type,
}
use property_os.Payments.Refunds.{
  CreateRefundDto, approve_refund, reject_refund, complete_refund, process_refund, create_refund,
  refund_payment, already_refunded,
}
use property_os.Payments.Refunds.Requests.{named, of_booking, of_payment, refund_key, payment_key}

abbrev is_completed : {N : Type 0} → Refund N → Bool
is_completed r = same_refund_status r.status RefundStatus.completed

abbrev pays_out : {N : Type 0} → Payment N → Bool
pays_out p = is_refund_type p.payment_type && same_payment_status p.status PaymentStatus.completed

-- a choice of bookings, properties, amounts and currencies
abbrev pub Terms : Type 0 → Type 0
Terms N = (booking_id property_id : ℕ) → (amount : N) → (currency : String) → Bool

-- how many refunds on the terms are completed, and how many completed payments on them are refunds
abbrev refund_on : {N : Type 0} → Terms N → Refund N → Bool
refund_on t r = is_completed r && t r.booking_id r.property_id r.amount r.currency

abbrev payment_on : {N : Type 0} → Terms N → Payment N → Bool
payment_on t p = pays_out p && t p.booking_id p.property_id p.amount p.currency

abbrev pub completed_refunds : {N : Type 0} → Terms N → Ledger N → ℕ
completed_refunds t l = count_where (refund_on t) l.refunds

abbrev pub payouts : {N : Type 0} → Terms N → Ledger N → ℕ
payouts t l = count_where (payment_on t) l.payments

-- Completions and payouts grow alike from `l` to `m`, on any terms.
abbrev pub Balanced : {N : Type 0} → Ledger N → Ledger N → Type 0
Balanced {N} l m =
    (t : Terms N) → payouts t m + completed_refunds t l ≡ payouts t l + completed_refunds t m

module _ {N : Type 0} where
  -- A stored refund that is not completed is replaced by another: no completion, no payout.
  same_completed :
      (l : Ledger N) (t : Terms N) (y r : Refund N)
      → Distinct refund_key l.refunds
      → In y l.refunds
      → y.id ≡ r.id
      → is_completed y ≡ false
      → is_completed r ≡ false
      → completed_refunds t (record l { refunds = save refund_key r l.refunds })
        ≡ completed_refunds t l
  same_completed l t y r d i id before after =
      let moved = count_where-save refund_key (refund_on t) r y l.refunds d i id in
      let same : refund_on t y ≡ refund_on t r = ground (arith, before, after) in
      omega (arith, moved, ap tally same)

  completed_of_status :
      (y : Refund N) (s : RefundStatus)
      → same_refund_status s RefundStatus.completed ≡ false
      → same_refund_status y.status s ≡ true
      → is_completed y ≡ false
  completed_of_status y s n h = ground arith

  open_of_processable :
      (y : Refund N)
      → not (same_refund_status y.status RefundStatus.processing)
          && not (same_refund_status y.status approved)
        ≡ false
      → is_completed y ≡ false
  open_of_processable y h = ground arith

  pub approve-Balanced :
      (id property_id user_id : ℕ) (notes : Option String) (now : ℕ) (l : Ledger N)
      → Distinct refund_key l.refunds
      → Balanced l (approve_refund id property_id user_id notes now l).1
  unfolding approve_refund
  approve-Balanced id property_id user_id notes now l d t =
      elim (Option-cases (find_one (named id property_id) l.refunds)) [
        | inl e ↦ rw e (refl)
        | inr (y, e) ↦ rw e (elim (Bool-cases (same_refund_status y.status requested)) [
          | inr s ↦ rw s (refl)
          | inl s ↦ rw s (
              ap (λ n. payouts t l + n)
                (sym (
                  same_completed l t y _ d (find_one-In _ l.refunds e).0 refl
                    (completed_of_status y requested refl s) refl)))
        ])
      ]

  pub reject-Balanced :
      (id property_id user_id : ℕ) (reason : String) (l : Ledger N)
      → Distinct refund_key l.refunds
      → Balanced l (reject_refund id property_id user_id reason l).1
  unfolding reject_refund
  reject-Balanced id property_id user_id reason l d t =
      elim (Option-cases (find_one (named id property_id) l.refunds)) [
        | inl e ↦ rw e (refl)
        | inr (y, e) ↦ rw e (elim (Bool-cases (same_refund_status y.status requested)) [
          | inr s ↦ rw s (refl)
          | inl s ↦ rw s (
              ap (λ n. payouts t l + n)
                (sym (
                  same_completed l t y _ d (find_one-In _ l.refunds e).0 refl
                    (completed_of_status y requested refl s) refl)))
        ])
      ]

  pub complete-Balanced :
      (describe : Refund N → String) (id property_id payment_id now : ℕ) (l : Ledger N)
      → Distinct refund_key l.refunds
      → Unused payment_key payment_id l.payments
      → Balanced l (complete_refund describe id property_id payment_id now l).1
  unfolding complete_refund
  complete-Balanced describe id property_id payment_id now l d new t =
      elim (Option-cases (find_one (named id property_id) l.refunds)) [
        | inl e ↦ rw e (refl)
        | inr (y, e) ↦
            rw e
              (elim (Bool-cases (
                not (same_refund_status y.status RefundStatus.processing)
                && not (same_refund_status y.status approved))) [
                  | inl s ↦ rw s (refl)
                  | inr s ↦ rw s (
                      let done : Refund N = record y {
                        status = RefundStatus.completed;
                        completed_at = some now;
                      } in
                      ground (
                        arith,
                        count_where-save refund_key (refund_on t) done y l.refunds d
                            (find_one-In _ l.refunds e).0 refl,
                        count_where-save_new payment_key (payment_on t)
                            (refund_payment payment_id now (describe done) done) l.payments new,
                        open_of_processable y s,
                      ))
                ])
      ]

  pub process-Balanced :
      (describe : Refund N → String) (id property_id user_id payment_id now : ℕ) (l : Ledger N)
      → Distinct refund_key l.refunds
      → Unused payment_key payment_id l.payments
      → Balanced l (process_refund describe id property_id user_id payment_id now l).1
  unfolding process_refund
  process-Balanced describe id property_id user_id payment_id now l d new t =
      elim (Option-cases (find_one (named id property_id) l.refunds)) [
        | inl e ↦ rw e (refl)
        | inr (y, e) ↦ rw e (elim (Bool-cases (same_refund_status y.status approved)) [
          | inr s ↦ rw s (refl)
          | inl s ↦ rw s (
              let busy : Refund N = record y {
                status = RefundStatus.processing;
                processed_by = some user_id;
                processed_at = some now;
              } in
              let kept =
                same_completed l t y busy d (find_one-In _ l.refunds e).0 refl
                  (completed_of_status y approved refl s) refl in
              let rest =
                complete-Balanced describe id property_id payment_id now
                  (record l { refunds = save refund_key busy l.refunds })
                  (Distinct-save refund_key busy l.refunds d) new t in
              rw kept at rest)
        ])
      ]

module _ {N : Type 0} ⦃num : Number N⦄ where
  pub create-Balanced :
      (new_id property_id user_id : ℕ) (dto : CreateRefundDto N) (l : Ledger N)
      → Unused refund_key new_id l.refunds
      → Balanced l (create_refund new_id property_id user_id dto l).1
  unfolding create_refund
  create-Balanced new_id property_id user_id dto l fresh t =
      elim (Option-cases (find_one (of_booking dto.booking_id property_id) l.bookings)) [
        | inl e ↦ rw e (refl)
        | inr (b, e) ↦
            rw e
              (elim (Option-cases
                (find_one (of_payment dto.original_payment_id property_id) l.payments)) [
                  | inl e' ↦ rw e' (refl)
                  | inr (p, e') ↦
                      rw e'
                        (elim (Bool-cases (same_payment_status p.status PaymentStatus.completed)) [
                          | inr s ↦ rw s (refl)
                          | inl s ↦
                              rw s
                                (elim (Bool-cases (
                                  num.lt p.amount
                                    (num.add (already_refunded p.id l.refunds) dto.amount))) [
                                      | inl over ↦ rw over (refl)
                                      | inr fits ↦ rw fits (
                                          omega (
                                            arith,
                                            count_where-save_new refund_key (refund_on t) _
                                                l.refunds fresh,
                                          ))
                                    ])
                        ])
                ])
      ]
