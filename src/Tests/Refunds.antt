-- ===== src/Tests/Refunds.antt =====
-- Refunds on the ledger of the fixtures.
use property_os.Common.{◌≡◌, refl, inl, arith, none, In, false}
use property_os.Numeric.Fixed.{Fixed, fixed_number, Fixed-IsDouble}
use property_os.Payments.Model.{Ledger, guest_cancellation}
use property_os.Payments.Refunds.{
  CreateRefundDto, create_refund, approve_refund, process_refund, already_refunded,
}
use property_os.Payments.Refunds.Requests.{Reach, here, next, create, approve, process}
use property_os.Payments.Refunds.Cap.{IsSound}
use property_os.Payments.Refunds.Reach.{refunds_capped}
use property_os.Tests.Fixtures.{ledger, payment, money}

ledger-IsSound : IsSound ledger
ledger-IsSound = record {
  payments_distinct = (tt, tt);
  refunds_distinct = tt;
  nonneg = tt;
  capped = (refl, tt);
}

-- half of the payment
abbrev half : CreateRefundDto Fixed
half = record {
  booking_id = 1;
  original_payment_id = 5;
  amount = money 10_000_000;
  reason = guest_cancellation;
  reason_details = none;
  notes = none;
}

abbrev asked : Ledger Fixed
asked = (create_refund 9 1 7 half ledger).1

abbrev agreed : Ledger Fixed
agreed = (approve_refund 9 1 7 none 100 asked).1

abbrev paid : Ledger Fixed
paid = (process_refund (λ r. "Refund") 9 1 7 6 200 agreed).1

run : Reach ledger paid
unfolding create_refund approve_refund process_refund
run = next (next (next here (create 9 1 7 half tt refl)) (approve 9 1 7 none 100)) (
    process (λ r. "Refund") 9 1 7 6 200 ((λ e. omega (arith, e)), tt) ((λ e. omega (arith, e)), tt))

paid-In : In payment paid.payments
unfolding create_refund approve_refund process_refund
paid-In = inl refl

refunds_capped_example : fixed_number.lt payment.amount (already_refunded 5 paid.refunds) ≡ false
refunds_capped_example = refunds_capped Fixed-IsDouble payment ledger-IsSound run paid-In
