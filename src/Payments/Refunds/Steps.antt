-- ===== src/Payments/Refunds/Steps.antt =====
-- The requests to modules/payments/refunds.service.ts, one by one, and the soundness of the ledger.
use property_os.Common.{
  ℕ, String, ◌≡◌, refl, inl, inr, true, false, not, ◌&&◌, Option, All, arith, find_one, find_one-In,
  Bool-cases, Option-cases, Unused, save, All-save, All-In, some,
}
use property_os.Numeric.{Number, IsDouble, ◌≼◌, nought}
use property_os.Payments.Model.{
  same_payment_status, PaymentStatus, Refund, Ledger, requested, approved, rejected,
  same_refund_status, RefundStatus,
}
use property_os.Payments.Refunds.{
  is_live, CreateRefundDto, already_refunded, refund_payment, approve_refund, reject_refund,
  complete_refund, process_refund, create_refund,
}
use property_os.Payments.Refunds.Requests.{named, of_booking, of_payment, NotOf, refund_key}
use property_os.Payments.Refunds.Cap.{
  IsSound, replace-IsSound, add_payment-IsSound, add_refund-IsSound,
}

module _ {N : Type 0} ⦃num : Number N⦄ (laws : IsDouble N) where
  open num use {add, lt}

  live_of_requested :
      (r : Refund N) → same_refund_status r.status requested ≡ true → is_live r ≡ true
  unfolding is_live
  live_of_requested r h = ground arith

  pub approve-IsSound :
      (id property_id user_id : ℕ) (notes : Option String) (now : ℕ) (l : Ledger N)
      → IsSound l
      → IsSound (approve_refund id property_id user_id notes now l).1
  unfolding approve_refund
  approve-IsSound id property_id user_id notes now l v =
      elim (Option-cases (find_one (named id property_id) l.refunds)) [
        | inl e ↦ rw e v
        | inr (y, e) ↦ rw e (elim (Bool-cases (same_refund_status y.status requested)) [
          | inl s ↦ rw s (
              replace-IsSound laws l y _ (find_one-In _ l.refunds e).0 refl refl refl
                (λ _. live_of_requested y s) v)
          | inr s ↦ rw s v
        ])
      ]

  not-live_of_rejected :
      (y : Refund N) (user : Option ℕ) (notes : Option String)
      → is_live (record y { status = rejected; approved_by = user; notes = notes }) ≡ true
      → is_live y ≡ true
  unfolding is_live
  not-live_of_rejected y user notes h = cc

  pub reject-IsSound :
      (id property_id user_id : ℕ) (reason : String) (l : Ledger N)
      → IsSound l
      → IsSound (reject_refund id property_id user_id reason l).1
  unfolding reject_refund
  reject-IsSound id property_id user_id reason l v =
      elim (Option-cases (find_one (named id property_id) l.refunds)) [
        | inl e ↦ rw e v
        | inr (y, e) ↦ rw e (elim (Bool-cases (same_refund_status y.status requested)) [
          | inl s ↦ rw s (
              replace-IsSound laws l y _ (find_one-In _ l.refunds e).0 refl refl refl
                (λ _. live_of_requested y s) v)
          | inr s ↦ rw s v
        ])
      ]

  live_of_processable :
      (y : Refund N)
      → not (same_refund_status y.status RefundStatus.processing)
          && not (same_refund_status y.status approved)
        ≡ false
      → is_live y ≡ true
  unfolding is_live
  live_of_processable y h = ground arith

  pub complete-IsSound :
      (describe : Refund N → String) (id property_id payment_id now : ℕ) (l : Ledger N)
      → All (NotOf payment_id) l.refunds
      → IsSound l
      → IsSound (complete_refund describe id property_id payment_id now l).1
  unfolding complete_refund
  complete-IsSound describe id property_id payment_id now l fresh v =
      elim (Option-cases (find_one (named id property_id) l.refunds)) [
        | inl e ↦ rw e v
        | inr (y, e) ↦
            rw e
              (elim (Bool-cases (
                not (same_refund_status y.status RefundStatus.processing)
                && not (same_refund_status y.status approved))) [
                  | inl s ↦ rw s v
                  | inr s ↦ rw s (
                      let i = (find_one-In _ l.refunds e).0 in
                      let done : Refund N = record y {
                        status = RefundStatus.completed;
                        completed_at = some now;
                      } in
                      add_payment-IsSound laws
                        (record l { refunds = save refund_key done l.refunds })
                        (refund_payment payment_id now (describe done) done) _
                        (All-save refund_key (NotOf payment_id) done l.refunds
                          (All-In (NotOf payment_id) l.refunds fresh i) fresh)
                        (All-In (λ (r : Refund N). nought ≼ r.amount) l.refunds v.nonneg i)
                        (replace-IsSound laws l y done i refl refl refl
                          (λ _. live_of_processable y s) v))
                ])
      ]

  live_of_approved : (r : Refund N) → same_refund_status r.status approved ≡ true → is_live r ≡ true
  unfolding is_live
  live_of_approved r h = ground arith

  pub process-IsSound :
      (describe : Refund N → String) (id property_id user_id payment_id now : ℕ) (l : Ledger N)
      → All (NotOf payment_id) l.refunds
      → IsSound l
      → IsSound (process_refund describe id property_id user_id payment_id now l).1
  unfolding process_refund
  process-IsSound describe id property_id user_id payment_id now l fresh v =
      elim (Option-cases (find_one (named id property_id) l.refunds)) [
        | inl e ↦ rw e v
        | inr (y, e) ↦ rw e (elim (Bool-cases (same_refund_status y.status approved)) [
          | inr s ↦ rw s v
          | inl s ↦ rw s (
              let i = (find_one-In _ l.refunds e).0 in
              let busy : Refund N = record y {
                status = RefundStatus.processing;
                processed_by = some user_id;
                processed_at = some now;
              } in
              complete-IsSound describe id property_id payment_id now
                (record l { refunds = save refund_key busy l.refunds })
                (All-save refund_key (NotOf payment_id) busy l.refunds
                  (All-In (NotOf payment_id) l.refunds fresh i) fresh)
                (replace-IsSound laws l y busy i refl refl refl (λ _. live_of_approved y s) v))
        ])
      ]

  pub create-IsSound :
      (new_id property_id user_id : ℕ) (dto : CreateRefundDto N) (l : Ledger N)
      → Unused refund_key new_id l.refunds
      → nought ≼ dto.amount
      → IsSound l
      → IsSound (create_refund new_id property_id user_id dto l).1
  unfolding create_refund is_live
  create-IsSound new_id property_id user_id dto l fresh real v =
      elim (Option-cases (find_one (of_booking dto.booking_id property_id) l.bookings)) [
        | inl e ↦ rw e v
        | inr (b, e) ↦
            rw e
              (elim (Option-cases
                (find_one (of_payment dto.original_payment_id property_id) l.payments)) [
                  | inl e' ↦ rw e' v
                  | inr (p, e') ↦
                      rw e'
                        (elim (Bool-cases (same_payment_status p.status PaymentStatus.completed)) [
                          | inr s ↦ rw s v
                          | inl s ↦
                              rw s
                                (elim (Bool-cases (
                                  lt p.amount (add (already_refunded p.id l.refunds) dto.amount))) [
                                    | inl over ↦ rw over v
                                    | inr fits ↦ rw fits (
                                        let found =
                                          find_one-In
                                            (of_payment dto.original_payment_id property_id)
                                            l.payments e' in
                                        add_refund-IsSound laws l p _ found.0
                                          (ground (arith, found.1)) fresh refl real fits v)
                                  ])
                        ])
                ])
      ]
