-- ===== src/Payments/Direct.antt =====
-- The payments that the owner records: `initiateEft`, `confirmEft` and `recordManualPayment` of
-- modules/payments/payments.service.ts, with `getBookingPaymentSummary` and `calcAmount`. What `initiateEft` answers is the
-- payment; the bank details of its answer are left out.
pub mod Balance
use property_os.Common.{
  ℕ, String, Bool, true, false, not, ◌&&◌, Option, none, some, List, filter, find_one, save, push,
  ◌==◌, if◌then◌else◌, or_else,
}
use property_os.Common.Int.{pos}
use property_os.Numeric.{Number, nought, hundred, sum_from}
use property_os.Service.{
  Exec, bad_request, not_found, failed, pure, or_throw, throw_if, gets, modify, ◌>>=◌, ◌>>◌,
  is_truthy_text,
}
use property_os.Entities.{Booking}
use property_os.Payments.Model.{
  Payment, PaymentType, PaymentStatus, PaymentProvider, deposit, eft, cash, card_manual, payfast,
  Ledger, payment_completed, same_payment_status, is_refund_type,
}
use property_os.Payments.Itn.{get_settings}

pub record InitiateEftDto (N : Type 0) : Type 0 where
  pub booking_id : ℕ
  pub payment_type : PaymentType
  pub amount : Option N

pub record ConfirmEftDto : Type 0 where
  pub eft_reference : Option String
  pub notes : Option String

pub record ManualPaymentDto (N : Type 0) : Type 0 where
  pub booking_id : ℕ
  pub amount : N
  pub payment_type : PaymentType
  pub provider : PaymentProvider
  pub notes : Option String

abbrev provider_name : PaymentProvider → String
provider_name payfast = "payfast"
provider_name eft = "eft"
provider_name cash = "cash"
provider_name card_manual = "card_manual"

-- `if (text) field = text`
abbrev overwrite : Option String → Option String → Option String
overwrite old new = if is_truthy_text new then new else old

abbrev is_deposit : PaymentType → Bool
is_deposit deposit = true
is_deposit _ = false

pub record Summary (N : Type 0) : Type 0 where
  pub owed : N
  pub paid : N
  pub returned : N
  pub balance : N
  pub fully_paid : Bool

module _ {N : Type 0} where
  -- `getBookingForProperty`
  abbrev get_booking_for_property : ℕ → ℕ → Exec (Ledger N) (Booking N)
  get_booking_for_property id property_id = do
    rows ← gets (λ (l : Ledger N). l.bookings)
    or_throw (find_one (λ b. b.id == id && b.property_id == property_id) rows)
        (not_found "Booking not found")

  abbrev store : Payment N → Exec (Ledger N) (Unit {0})
  store p = modify λ l. record l { payments = save (λ (x : Payment N). x.id) p l.payments }

  abbrev emit_completed : Payment N → String → Exec (Ledger N) (Unit {0})
  emit_completed p how =
      modify λ l. record l { events = push l.events (payment_completed p.booking_id p.amount how) }

  unfoldable pub confirm_eft : ℕ → ℕ → ℕ → ConfirmEftDto → ℕ → Exec (Ledger N) (Payment N)
  confirm_eft id property_id user_id dto now = do
    rows ← gets (λ (l : Ledger N). l.payments)
    payment ←
        or_throw (find_one (λ p. p.id == id && p.property_id == property_id) rows)
          (not_found "Payment not found")
    throw_if (not (same_payment_status payment.status PaymentStatus.pending))
        (bad_request "Payment is not in pending state")
    let saved : Payment N = record payment {
      status = PaymentStatus.completed;
      paid_at = some now;
      eft_confirmed_by = some user_id;
      eft_reference = overwrite payment.eft_reference dto.eft_reference;
      notes = overwrite payment.notes dto.notes;
    }
    store saved
    emit_completed saved "EFT"
    pure saved

  -- the payment that `recordManualPayment` saves
  abbrev pub manual_payment : ℕ → ℕ → ℕ → ManualPaymentDto N → ℕ → Booking N → Payment N
  manual_payment new_id property_id user_id dto now booking = record {
    id = new_id;
    booking_id = booking.id;
    property_id = property_id;
    amount = dto.amount;
    currency = booking.currency;
    payment_type = dto.payment_type;
    status = PaymentStatus.completed;
    provider = some dto.provider;
    provider_ref = none;
    eft_reference = none;
    eft_confirmed_by = some user_id;
    paid_at = some now;
    failed_at = none;
    refunded_at = none;
    notes = dto.notes;
  }

module _ {N : Type 0} ⦃num : Number N⦄ where
  open num use {of_int, add, sub, mul, div, ceil, le}

  -- The column rounds the amount, or refuses it; the event has the amount that was asked for.
  unfoldable pub record_manual_payment :
      ℕ → ℕ → ℕ → ManualPaymentDto N → ℕ → Exec (Ledger N) (Payment N)
  record_manual_payment new_id property_id user_id dto now = do
    booking ← get_booking_for_property dto.booking_id property_id
    let saved : Payment N = manual_payment new_id property_id user_id dto now booking
    kept ← or_throw (num.column saved.amount) (failed "numeric field overflow")
    store (record saved { amount = kept })
    emit_completed saved (provider_name dto.provider)
    pure saved

  -- `Math.ceil(total * 0.5 * 100) / 100` for a deposit
  unfoldable pub calc_amount : Booking N → PaymentType → N
  calc_amount b type =
      if is_deposit type
      then div (ceil (mul (mul b.total_price (div (of_int (pos 1)) (of_int (pos 2)))) hundred))
          hundred
      else b.total_price

  unfoldable pub initiate_eft : ℕ → ℕ → InitiateEftDto N → Exec (Ledger N) (Payment N)
  unfolding get_settings
  initiate_eft new_id property_id dto = do
    booking ← get_booking_for_property dto.booking_id property_id
    settings ← get_settings property_id
    throw_if (not settings.eft_enabled) (bad_request "EFT is not enabled for this property")
    let saved : Payment N = record {
      id = new_id;
      booking_id = booking.id;
      property_id = property_id;
      amount = or_else dto.amount (calc_amount booking dto.payment_type);
      currency = booking.currency;
      payment_type = dto.payment_type;
      status = PaymentStatus.pending;
      provider = some eft;
      provider_ref = none;
      eft_reference = some booking.reference_number;
      eft_confirmed_by = none;
      paid_at = none;
      failed_at = none;
      refunded_at = none;
      notes = none;
    }
    store saved
    pure saved

  abbrev pub is_paid : Payment N → Bool
  is_paid p =
      same_payment_status p.status PaymentStatus.completed && not (is_refund_type p.payment_type)

  abbrev pub is_refunded : Payment N → Bool
  is_refunded p =
      is_refund_type p.payment_type && same_payment_status p.status PaymentStatus.completed

  -- the sums of a list of payments
  unfoldable pub total_paid : List (Payment N) → N
  total_paid rows = sum_from nought (λ p. p.amount) (filter is_paid rows)

  unfoldable pub total_refunded : List (Payment N) → N
  total_refunded rows = sum_from nought (λ p. p.amount) (filter is_refunded rows)

  abbrev pub of_booking : ℕ → ℕ → List (Payment N) → List (Payment N)
  of_booking id property_id = filter (λ p. p.booking_id == id && p.property_id == property_id)

  abbrev pub summary_of : Booking N → List (Payment N) → Summary N
  summary_of booking rows =
      let balance = add (sub booking.total_price (total_paid rows)) (total_refunded rows) in
      record {
        owed = booking.total_price;
        paid = total_paid rows;
        returned = total_refunded rows;
        balance = balance;
        fully_paid = le balance nought;
      }

  unfoldable pub get_booking_payment_summary : ℕ → ℕ → Exec (Ledger N) (Summary N)
  get_booking_payment_summary id property_id = do
    booking ← get_booking_for_property id property_id
    payments ← gets (λ (l : Ledger N). l.payments)
    pure (summary_of booking (of_booking id property_id payments))
