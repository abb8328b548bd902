-- ===== src/Payments/Refunds.antt =====
-- modules/payments/refunds.service.ts: requesting, approving, rejecting, processing and completing a
-- refund. Generated keys and the clock are arguments.
pub mod Requests
pub mod Cap
pub mod Steps
pub mod Payouts
pub mod Reach
use Prim.Native.String.{◌++◌}
use property_os.Common.{
  ℕ, String, Bool, not, ◌&&◌, Option, none, some, List, find_one, filter, save, push, ◌==◌,
  if◌then◌else◌,
}
use property_os.Numeric.{Number, nought, sum_from}
use property_os.Service.{
  bad_request, not_found, Exec, pure, or_throw, throw_if, gets, modify, ◌>>=◌, ◌>>◌, is_truthy_text,
}
use property_os.Entities.{Booking}
use property_os.Payments.Model.{
  Payment, Refund, RefundReason, RefundStatus, PaymentStatus, requested, approved, rejected, Ledger,
  payment_refunded, same_payment_status, same_refund_status, PaymentType,
}

pub record CreateRefundDto (N : Type 0) : Type 0 where
  pub booking_id : ℕ
  pub original_payment_id : ℕ
  pub amount : N
  pub reason : RefundReason
  pub reason_details : Option String
  pub notes : Option String

-- neither rejected nor failed
unfoldable pub is_live : {N : Type 0} → Refund N → Bool
is_live r =
    not (same_refund_status r.status rejected)
    && not (same_refund_status r.status RefundStatus.failed)

-- `(notes ? notes + '\n' : '') + more`
abbrev pub add_note : Option String → String → Option String
add_note none more = some more
add_note (some notes) more =
    if is_truthy_text (some notes) then some (notes ++ "\n" ++ more) else some more

-- `if (dto.notes) refund.notes = …`
abbrev pub add_notes : Option String → Option String → Option String
add_notes notes none = notes
add_notes notes (some more) = if is_truthy_text (some more) then add_note notes more else notes

module _ {N : Type 0} where
  abbrev save_refund : Refund N → Exec (Ledger N) (Unit {0})
  save_refund r = modify λ l. record l { refunds = save (λ (x : Refund N). x.id) r l.refunds }

  -- the private `getRefund`
  get_refund : ℕ → ℕ → Exec (Ledger N) (Refund N)
  get_refund refund_id property_id = do
    rows ← gets (λ l. l.refunds)
    or_throw (find_one (λ r. r.id == refund_id && r.property_id == property_id) rows)
        (not_found "Refund not found")

  unfoldable pub approve_refund : ℕ → ℕ → ℕ → Option String → ℕ → Exec (Ledger N) (Refund N)
  unfolding get_refund
  approve_refund refund_id property_id user_id notes now = do
    refund ← get_refund refund_id property_id
    throw_if (not (same_refund_status refund.status requested))
        (bad_request "Refund is not in requested state")
    let saved : Refund N = record refund {
      status = approved;
      approved_by = some user_id;
      approved_at = some now;
      notes = add_notes refund.notes notes;
    }
    save_refund saved
    pure saved

  pub reject_refund : ℕ → ℕ → ℕ → String → Exec (Ledger N) (Refund N)
  unfolding get_refund
  reject_refund refund_id property_id user_id reason = do
    refund ← get_refund refund_id property_id
    throw_if (not (same_refund_status refund.status requested))
        (bad_request "Refund is not in requested state")
    let saved : Refund N = record refund {
      status = rejected;
      approved_by = some user_id;
      notes = add_note refund.notes ("Rejected: " ++ reason);
    }
    save_refund saved
    pure saved

  -- the row that a completed refund adds to `payments`
  abbrev pub refund_payment : ℕ → ℕ → String → Refund N → Payment N
  refund_payment payment_id now note r = record {
    id = payment_id;
    booking_id = r.booking_id;
    property_id = r.property_id;
    amount = r.amount;
    currency = r.currency;
    payment_type = PaymentType.refund;
    status = PaymentStatus.completed;
    provider = none;
    provider_ref = none;
    eft_reference = none;
    eft_confirmed_by = none;
    paid_at = some now;
    failed_at = none;
    refunded_at = some now;
    notes = some note;
  }

  -- `payment_id` is the key of the new payment row, and `describe` fills the template of its note.
  pub complete_refund : (Refund N → String) → ℕ → ℕ → ℕ → ℕ → Exec (Ledger N) (Refund N)
  unfolding get_refund
  complete_refund describe refund_id property_id payment_id now = do
    refund ← get_refund refund_id property_id
    throw_if
        (not (same_refund_status refund.status RefundStatus.processing)
          && not (same_refund_status refund.status approved))
        (bad_request "Refund is not in a processable state")
    let saved : Refund N = record refund {
      status = RefundStatus.completed;
      completed_at = some now;
    }
    save_refund saved
    let row : Payment N = refund_payment payment_id now (describe saved) saved
    modify λ l. record l { payments = save (λ (p : Payment N). p.id) row l.payments }
    modify λ l. record l {
      events = push l.events (payment_refunded saved.booking_id saved.amount saved.reason);
    }
    pure saved

  unfoldable pub process_refund :
      (Refund N → String) → ℕ → ℕ → ℕ → ℕ → ℕ → Exec (Ledger N) (Refund N)
  unfolding get_refund complete_refund
  process_refund describe refund_id property_id user_id payment_id now = do
    refund ← get_refund refund_id property_id
    throw_if (not (same_refund_status refund.status approved))
        (bad_request "Refund must be approved before processing")
    let processing : Refund N = record refund {
      status = RefundStatus.processing;
      processed_by = some user_id;
      processed_at = some now;
    }
    save_refund processing
    complete_refund describe refund_id property_id payment_id now

module _ {N : Type 0} ⦃num : Number N⦄ where
  open num use {add, lt}

  -- what is already refunded, or asked for, of a payment
  abbrev pub already_refunded : ℕ → List (Refund N) → N
  already_refunded payment_id rows =
      sum_from nought (λ r. r.amount)
        (filter is_live (filter (λ r. r.original_payment_id == payment_id) rows))

  unfoldable pub create_refund : ℕ → ℕ → ℕ → CreateRefundDto N → Exec (Ledger N) (Refund N)
  create_refund new_id property_id user_id dto = do
    bookings ← gets (λ (l : Ledger N). l.bookings)
    booking ←
        or_throw (find_one (λ b. b.id == dto.booking_id && b.property_id == property_id) bookings)
          (not_found "Booking not found")
    payments ← gets (λ l. l.payments)
    payment ←
        or_throw
          (find_one (λ p. p.id == dto.original_payment_id && p.property_id == property_id) payments)
          (not_found "Original payment not found")
    throw_if (not (same_payment_status payment.status PaymentStatus.completed))
        (bad_request "Can only refund completed payments")
    rows ← gets (λ l. l.refunds)
    throw_if (lt payment.amount (add (already_refunded payment.id rows) dto.amount))
        (bad_request "Refund amount exceeds available balance")
    let refund : Refund N = record {
      id = new_id;
      booking_id = dto.booking_id;
      property_id = property_id;
      original_payment_id = dto.original_payment_id;
      amount = dto.amount;
      currency = booking.currency;
      status = requested;
      reason = dto.reason;
      reason_details = dto.reason_details;
      requested_by = user_id;
      approved_by = none;
      processed_by = none;
      approved_at = none;
      processed_at = none;
      completed_at = none;
      notes = dto.notes;
    }
    save_refund refund
    pure refund
