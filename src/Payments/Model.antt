-- ===== src/Payments/Model.antt =====
-- The entities of modules/payments: rows of the tables `payments`, `refunds`, `payment_settings` and
-- `invoices`, and the events of modules/payments/events. `Ledger` is what the services of the module
-- read and write.
use property_os.Common.{ℕ, String, Bool, true, false, Option, List}
use property_os.Entities.{Booking}

pub data PaymentType : Type 0 where
  deposit full balance refund : PaymentType

pub data PaymentStatus : Type 0 where
  pending processing completed failed refunded : PaymentStatus

pub data PaymentProvider : Type 0 where
  payfast eft cash card_manual : PaymentProvider

pub data RefundStatus : Type 0 where
  requested approved processing completed rejected failed : RefundStatus

pub data RefundReason : Type 0 where
  guest_cancellation owner_cancellation overcharge service_issue duplicate_payment other :
      RefundReason

pub record Payment (N : Type 0) : Type 0 where
  pub id : ℕ
  pub booking_id : ℕ
  pub property_id : ℕ
  pub amount : N
  pub currency : String
  pub payment_type : PaymentType
  pub status : PaymentStatus
  pub provider : Option PaymentProvider
  pub provider_ref : Option String
  pub eft_reference : Option String
  pub eft_confirmed_by : Option ℕ
  pub paid_at : Option ℕ
  pub failed_at : Option ℕ
  pub refunded_at : Option ℕ
  pub notes : Option String

pub record Refund (N : Type 0) : Type 0 where
  pub id : ℕ
  pub booking_id : ℕ
  pub property_id : ℕ
  pub original_payment_id : ℕ
  pub amount : N
  pub currency : String
  pub status : RefundStatus
  pub reason : RefundReason
  pub reason_details : Option String
  pub requested_by : ℕ
  pub approved_by : Option ℕ
  pub processed_by : Option ℕ
  pub approved_at : Option ℕ
  pub processed_at : Option ℕ
  pub completed_at : Option ℕ
  pub notes : Option String

pub record PaymentSettings : Type 0 where
  pub property_id : ℕ
  pub payfast_passphrase : Option String
  pub payfast_sandbox : Bool
  pub payfast_enabled : Bool
  pub snapscan_enabled : Bool
  pub eft_enabled : Bool

pub data PaymentEvent (N : Type 0) : Type 0 where
  payment_completed : (booking_id : ℕ) → (amount : N) → (payment_method : String) → PaymentEvent N
  payment_failed : (booking_id : ℕ) → (amount : N) → (reason : String) → PaymentEvent N
  payment_refunded : (booking_id : ℕ) → (amount : N) → (reason : RefundReason) → PaymentEvent N

pub record Ledger (N : Type 0) : Type 0 where
  pub bookings : List (Booking N)
  pub payments : List (Payment N)
  pub refunds : List (Refund N)
  pub settings : List PaymentSettings
  -- the events emitted so far, the first one first
  pub events : List (PaymentEvent N)

abbrev pub same_payment_status : PaymentStatus → PaymentStatus → Bool
same_payment_status PaymentStatus.pending PaymentStatus.pending = true
same_payment_status PaymentStatus.processing PaymentStatus.processing = true
same_payment_status PaymentStatus.completed PaymentStatus.completed = true
same_payment_status PaymentStatus.failed PaymentStatus.failed = true
same_payment_status refunded refunded = true
same_payment_status _ _ = false

abbrev pub is_refund_type : PaymentType → Bool
is_refund_type refund = true
is_refund_type _ = false

abbrev pub same_refund_status : RefundStatus → RefundStatus → Bool
same_refund_status requested requested = true
same_refund_status approved approved = true
same_refund_status RefundStatus.processing RefundStatus.processing = true
same_refund_status RefundStatus.completed RefundStatus.completed = true
same_refund_status rejected rejected = true
same_refund_status RefundStatus.failed RefundStatus.failed = true
same_refund_status _ _ = false
