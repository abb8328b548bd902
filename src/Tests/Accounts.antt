-- ===== src/Tests/Accounts.antt =====
-- Payments, promo codes and folios of the fixtures.
use property_os.Common.{◌≡◌, ◌≤◌, ◌+◌, refl, arith, ℕ, suc, true, none, some, [], ◌∷◌, In}
use property_os.Numeric.Fixed.{Fixed, fixed_number}
use property_os.Service.{ok}
use property_os.Payments.Model.{balance, cash}
use property_os.Payments.Direct.{
  ManualPaymentDto, Summary, record_manual_payment, get_booking_payment_summary, total_paid,
  total_refunded,
}
use property_os.Payments.Direct.Balance.{with_paid, manual_payment_counts}
use property_os.Promos.Model.{PromoCode, fixed}
use property_os.Promos.Service.{validate, apply_discount}
use property_os.Promos.Limits.{applied_within_limit}
use property_os.Frontdesk.Folio.{Desk, auto_post_room_charges}
use property_os.Frontdesk.Folio.Balance.{charge_once}
use property_os.Tests.Fixtures.{ledger, first_booking, money}

-- the payment of the ledger covers the booking
abbrev covered : Summary Fixed
covered = record {
  owed = money 20_000_000;
  paid = money 20_000_000;
  returned = money 0;
  balance = money 0;
  fully_paid = true;
}

abbrev tip : ManualPaymentDto Fixed
tip = record {
  booking_id = 1;
  amount = money 500_000;
  payment_type = balance;
  provider = cash;
  notes = none;
}

manual_payment_counts_example :
    (get_booking_payment_summary 1 1 (record_manual_payment 8 1 7 tip 100 ledger).1).0
    ≡ ok (with_paid (money 20_500_000) covered)
unfolding get_booking_payment_summary total_paid total_refunded
manual_payment_counts_example =
    manual_payment_counts 8 1 7 100 tip ledger first_booking covered (money 500_000) refl
      ((λ e. omega (arith, e)), tt) refl refl refl

-- the third and last use of a code
abbrev welcome : PromoCode Fixed
welcome = record {
  id = 3;
  property_id = 1;
  code = "WELCOME";
  description = none;
  discount_type = fixed;
  discount_value = money 1_000_000;
  valid_from = some 19_000;
  valid_to = none;
  usage_limit = some 3;
  usage_count = 2;
  min_nights = none;
  min_amount = none;
  is_active = true;
}

applied_within_limit_example :
    In
      (record welcome { usage_count = 2 + 1 })
      (apply_discount (λ s. s) 1 "WELCOME" (money 20_000_000) (welcome ∷ [])).1
    × ((limit : ℕ) → some 3 ≡ some (suc limit) → 2 + 1 ≤ suc limit)
unfolding validate
applied_within_limit_example =
    applied_within_limit (λ s. s) (welcome ∷ []) 1 "WELCOME" 20_000 (some 2) (money 20_000_000)
      (money 20_000_000) welcome fixed (money 1_000_000) refl refl

abbrev desk : Desk Fixed
desk = record { bookings = first_booking ∷ []; items = [] }

charge_once_example :
    (auto_post_room_charges 9
      (λ b. "Room")
      1
      1
      (auto_post_room_charges 8 (λ b. "Double") 1 1 desk).1).1
    ≡ (auto_post_room_charges 8 (λ b. "Double") 1 1 desk).1
charge_once_example = charge_once 8 9 1 1 (λ b. "Double") (λ b. "Room") desk
