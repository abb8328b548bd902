-- ===== src/Tests/Notifications.antt =====
-- A notification of PayFast for the payment of the fixtures, not yet completed.
use property_os.Common.{
  ◌≡◌, ◌≤◌, ◌+◌, refl, String, true, some, List, [], ◌∷◌, push, length, count_where,
}
use property_os.Numeric.Fixed.{Fixed, fixed_number}
use property_os.Payments.Model.{Payment, PaymentStatus, Ledger, payment_completed}
use property_os.Payments.Itn.{
  Body, Runtime, is_open, handle_payfast_itn, is_valid_payfast_host, verify_signature, validate_itn,
}
use property_os.Payments.Itn.Once.{
  Completion, complete_each, complete_once, itn_guarded, itn_completes,
}
use property_os.Tests.Fixtures.{ledger, payment, money}

abbrev runtime : Runtime Fixed
runtime = record {
  encode = λ s. s;
  trim = λ s. s;
  md5 = λ s. "digest";
  sort_entries = λ body. body;
  to_number = λ s. money 20_000_000;
  is_finite = λ x. true;
  key_of = λ s. 5;
  answer = λ body sandbox. some "VALID";
}

abbrev waiting : Payment Fixed
waiting = record payment { status = PaymentStatus.pending }

abbrev unpaid : Ledger Fixed
unpaid = record ledger { payments = waiting ∷ [] }

-- a notification with a status and a signature
abbrev note : String → String → Body
note status signature =
    ("m_payment_id", "five")
    ∷ ("amount_gross", "2000.00")
    ∷ ("payment_status", status)
    ∷ ("signature", signature)
    ∷ []

itn_completes_example :
    ((handle_payfast_itn runtime true "197.97.145.144" 100
        (note "COMPLETE" "digest")
        unpaid).1.events
      ≡ push [] (payment_completed 1 (money 20_000_000) "PayFast"))
    × (count_where
          (is_open 5)
          (handle_payfast_itn runtime true "197.97.145.144" 100
            (note "COMPLETE" "digest")
            unpaid).1.payments
        ≡ 0)
unfolding is_valid_payfast_host verify_signature validate_itn
itn_completes_example =
    itn_completes runtime true "197.97.145.144" "five" 100 (note "COMPLETE" "digest") unpaid waiting
      refl refl refl refl refl refl

-- with another signature
itn_guarded_example :
    ((handle_payfast_itn runtime true "197.97.145.144" 100
        (note "COMPLETE" "forged")
        unpaid).1.payments
      ≡ unpaid.payments)
    × ((handle_payfast_itn runtime true "197.97.145.144" 100
          (note "COMPLETE" "forged")
          unpaid).1.events
        ≡ unpaid.events)
unfolding is_valid_payfast_host verify_signature validate_itn
itn_guarded_example =
    itn_guarded runtime true "197.97.145.144" "five" 100 (note "COMPLETE" "forged") unpaid waiting
      refl refl refl

-- two notifications that read the payment before either completed it
abbrev racing : List (Completion Fixed)
racing = (waiting, some "first", 100) ∷ (waiting, some "second", 101) ∷ []

complete_once_example :
    (length (complete_each racing unpaid).events ≤ length unpaid.events + 1)
    × (count_where (is_open 5) unpaid.payments ≡ 0
        → (complete_each racing unpaid).events ≡ unpaid.events)
complete_once_example = complete_once 5 racing unpaid (refl, (refl, tt))
