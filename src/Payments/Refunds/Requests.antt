-- ===== src/Payments/Refunds/Requests.antt =====
-- The requests to modules/payments/refunds.service.ts as steps of the ledger, and the ledgers that
-- sequences of them reach.
use property_os.Common.{ℕ, String, Bool, ◌≢◌, ◌&&◌, Option, All, ◌==◌, Unused}
use property_os.Numeric.{Number, ◌≼◌, nought}
use property_os.Entities.{Booking}
use property_os.Payments.Model.{Payment, Refund, Ledger}
use property_os.Payments.Refunds.{
  CreateRefundDto, approve_refund, reject_refund, complete_refund, process_refund, create_refund,
}

abbrev pub refund_key : {N : Type 0} → Refund N → ℕ
refund_key r = r.id

abbrev pub payment_key : {N : Type 0} → Payment N → ℕ
payment_key p = p.id

-- the `where` of `getRefund`
abbrev pub named : {N : Type 0} → ℕ → ℕ → Refund N → Bool
named id property_id r = r.id == id && r.property_id == property_id

-- the `where` of the booking and of the original payment of `createRefund`
abbrev pub of_booking : {N : Type 0} → ℕ → ℕ → Booking N → Bool
of_booking id property_id b = b.id == id && b.property_id == property_id

abbrev pub of_payment : {N : Type 0} → ℕ → ℕ → Payment N → Bool
of_payment id property_id p = p.id == id && p.property_id == property_id

-- the refund is of another payment
abbrev pub NotOf : {N : Type 0} → ℕ → Refund N → Type 0
NotOf payment_id r = r.original_payment_id ≢ payment_id

-- One request to the refund service, with the keys that the database generates for it.
pub data RefundStep {N : Type 0} ⦃num : Number N⦄ (l : Ledger N) : Ledger N → Type 0 where
  create :
      (new_id property_id user_id : ℕ) (dto : CreateRefundDto N)
      → Unused refund_key new_id l.refunds
      → nought ≼ dto.amount
      → RefundStep l (create_refund new_id property_id user_id dto l).1
  approve :
      (id property_id user_id : ℕ) (notes : Option String) (now : ℕ)
      → RefundStep l (approve_refund id property_id user_id notes now l).1
  reject :
      (id property_id user_id : ℕ) (reason : String)
      → RefundStep l (reject_refund id property_id user_id reason l).1
  process :
      (describe : Refund N → String) (id property_id user_id payment_id now : ℕ)
      → Unused payment_key payment_id l.payments
      → All (NotOf payment_id) l.refunds
      → RefundStep l (process_refund describe id property_id user_id payment_id now l).1
  complete :
      (describe : Refund N → String) (id property_id payment_id now : ℕ)
      → Unused payment_key payment_id l.payments
      → All (NotOf payment_id) l.refunds
      → RefundStep l (complete_refund describe id property_id payment_id now l).1

pub data Reach {N : Type 0} ⦃num : Number N⦄ (l : Ledger N) : Ledger N → Type 0 where
  here : Reach l l
  next : {m n : Ledger N} → Reach l m → RefundStep m n → Reach l n
