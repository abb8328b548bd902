-- ===== src/Payments/Itn.antt =====
-- `handlePayfastItn` and `getSettings` of modules/payments/payments.service.ts, with
-- modules/payments/utils/payfast.util.ts. `settle` is what follows the checks: its payment is the one
-- that the handler read, which the ledger may have changed since. The column `provider_data`, which the
-- handler fills with the body, and the log are left out.
pub mod Once
use text.Mathlib.Text.{◌==◌ as ◌≟◌}
use Prim.Native.String.{◌++◌}
use property_os.Common.{
  ℕ, String, Bool, true, false, not, ◌&&◌, ◌||◌, Option, none, some, List, [], ◌∷◌, map, any,
  filter, find_one, update_where, count_where, save, push, ◌==◌, if◌then◌else◌,
}
use property_os.Numeric.{Number, hundred}
use property_os.Service.{Exec, pure, gets, modify, ◌>>=◌, ◌>>◌, is_truthy_text}
use property_os.Payments.Model.{
  Payment, PaymentStatus, PaymentSettings, Ledger, payment_completed, payment_failed,
  same_payment_status,
}

-- the fields of the notification, as names and values
abbrev pub Body : Type 0
Body = List (String × String)

-- What the runtime and PayFast supply: `encodeURIComponent`, `trim`, the MD5 digest in hex, the entries
-- sorted by `localeCompare` of their names, `Number` of a text and `Number.isFinite`, the key that a text
-- names, and the first line of PayFast's answer, trimmed and in upper case, if it answered.
pub record Runtime (N : Type 0) : Type 0 where
  pub encode : String → String
  pub trim : String → String
  pub md5 : String → String
  pub sort_entries : Body → Body
  pub to_number : String → N
  pub is_finite : N → Bool
  pub key_of : String → ℕ
  pub answer : Body → Bool → Option String

-- `body.name`
abbrev value_of : Option (String × String) → Option String
value_of none = none
value_of (some entry) = some entry.1

abbrev pub field : String → Body → Option String
field name body = value_of (find_one (λ entry. entry.0 ≟ name) body)

abbrev join : List String → String
join [] = ""
join (s ∷ []) = s
join (s ∷ t ∷ rest) = s ++ "&" ++ join (t ∷ rest)

abbrev same_text : Option String → String → Bool
same_text none t = false
same_text (some s) t = s ≟ t

abbrev valid_hosts : List String
valid_hosts =
    "197.97.145.144" ∷ "197.97.145.145" ∷ "197.97.145.146" ∷ "197.97.145.147" ∷ "197.97.145.148"
    ∷ "197.97.145.149" ∷ "41.74.179.194" ∷ "41.74.179.195" ∷ "41.74.179.196" ∷ "41.74.179.197"
    ∷ "127.0.0.1" ∷ []

unfoldable pub is_valid_payfast_host : String → Bool
is_valid_payfast_host ip = any (λ host. host ≟ ip) valid_hosts

module _ {N : Type 0} (rt : Runtime N) where
  abbrev with_passphrase : Option String → String → String
  with_passphrase none text = text
  with_passphrase (some phrase) text =
      if is_truthy_text (some phrase) then text ++ "&passphrase=" ++ rt.encode phrase else text

  unfoldable pub verify_signature : Body → Option String → Bool
  verify_signature body passphrase =
      let received = field "signature" body in
      let params =
        filter (λ entry. not (entry.0 ≟ "signature") && is_truthy_text (some entry.1)) body in
      let text =
        join
          (map (λ entry. entry.0 ++ "=" ++ rt.encode (rt.trim entry.1)) (rt.sort_entries params)) in
      is_truthy_text received && same_text received (rt.md5 (with_passphrase passphrase text))

  -- `validatePayfastItn`: only the answer VALID counts
  unfoldable pub validate_itn : Body → Bool → Bool
  validate_itn body sandbox = same_text (rt.answer body sandbox) "VALID"

abbrev default_settings : ℕ → PaymentSettings
default_settings property_id = record {
  property_id = property_id;
  payfast_passphrase = none;
  payfast_sandbox = true;
  payfast_enabled = false;
  snapscan_enabled = false;
  eft_enabled = false;
}

abbrev found_or_default : ℕ → Option PaymentSettings → PaymentSettings
found_or_default property_id none = default_settings property_id
found_or_default property_id (some s) = s

abbrev pub settings_of : ℕ → List PaymentSettings → PaymentSettings
settings_of property_id rows =
    found_or_default property_id (find_one (λ s. s.property_id == property_id) rows)

abbrev keep_settings : ℕ → Option PaymentSettings → List PaymentSettings → List PaymentSettings
keep_settings property_id none rows = push rows (default_settings property_id)
keep_settings property_id (some s) rows = rows

module _ {N : Type 0} where
  -- Settings that are missing are stored with their defaults.
  unfoldable pub get_settings : ℕ → Exec (Ledger N) PaymentSettings
  get_settings property_id = do
    rows ← gets (λ (l : Ledger N). l.settings)
    modify λ l. record l {
      settings = keep_settings property_id (find_one (λ s. s.property_id == property_id) rows) rows;
    }
    pure (settings_of property_id rows)

module _ {N : Type 0} where
  abbrev is_completed : Payment N → Bool
  is_completed p = same_payment_status p.status PaymentStatus.completed

  abbrev pub as_completed : ℕ → Option String → Payment N → Payment N
  as_completed now ref p = record p {
    status = PaymentStatus.completed;
    paid_at = some now;
    provider_ref = ref;
  }

  abbrev pub is_open : ℕ → Payment N → Bool
  is_open id p = p.id == id && not (is_completed p)

  -- the conditional `UPDATE`, and the event if it changed a row
  unfoldable pub complete_payment : Payment N → Option String → ℕ → Exec (Ledger N) (Unit {0})
  complete_payment p ref now = do
    rows ← gets (λ (l : Ledger N). l.payments)
    modify
        λ l. record l { payments = update_where (is_open p.id) (as_completed now ref) l.payments }
    if count_where (is_open p.id) rows == 0
        then pure tt
        else modify (λ l. record l {
          events = push l.events (payment_completed p.booking_id p.amount "PayFast");
        })

  abbrev store_payment : Payment N → Exec (Ledger N) (Unit {0})
  store_payment p = modify λ l. record l { payments = save (λ (x : Payment N). x.id) p l.payments }

  abbrev pub as_failed : ℕ → Option String → Payment N → Payment N
  as_failed now ref p = record p {
    status = PaymentStatus.failed;
    failed_at = some now;
    provider_ref = ref;
  }

  -- from the test for a replay on
  unfoldable pub settle : Payment N → Body → ℕ → Exec (Ledger N) (Unit {0})
  unfolding complete_payment
  settle p body now =
      let status = field "payment_status" body in
      let ref = field "pf_payment_id" body in
      if is_completed p
      then pure tt
      else if same_text status "COMPLETE"
      then complete_payment p ref now
      else if same_text status "FAILED"
      then store_payment (as_failed now ref p)
        >> modify (λ l. record l {
          events = push l.events (payment_failed p.booking_id p.amount "PayFast payment failed");
        })
      else store_payment (record p { status = PaymentStatus.processing; provider_ref = ref })

module _ {N : Type 0} ⦃num : Number N⦄ (rt : Runtime N) where
  open num use {mul, round, le}

  abbrev cents : N → N
  cents x = round (mul x hundred)

  abbrev same_number : N → N → Bool
  same_number x y = le x y && le y x

  -- the amount is there, and in cents that of the payment
  abbrev pub is_amount : Option String → N → Bool
  is_amount none amount = false
  is_amount (some gross) amount =
      is_truthy_text (some gross)
      && rt.is_finite (cents (rt.to_number gross))
      && same_number (cents (rt.to_number gross)) (cents amount)

  -- the checks on the payment that the notification names
  check_itn : Bool → String → ℕ → Body → Payment N → Exec (Ledger N) (Unit {0})
  check_itn is_production source_ip now body p = do
    settings ← get_settings p.property_id
    if not (not is_production || settings.payfast_sandbox) && not (is_valid_payfast_host source_ip)
        then pure tt
        else if not (verify_signature rt body settings.payfast_passphrase)
        then pure tt
        else if not (is_amount (field "amount_gross" body) p.amount)
        then pure tt
        else if not (validate_itn rt body settings.payfast_sandbox)
        then pure tt
        else settle p body now

  abbrev find_payment : List (Payment N) → Option String → Option (Payment N)
  find_payment rows none = none
  find_payment rows (some id) =
      if is_truthy_text (some id) then find_one (λ p. p.id == rt.key_of id) rows else none

  abbrev check_found : Bool → String → ℕ → Body → Option (Payment N) → Exec (Ledger N) (Unit {0})
  check_found is_production source_ip now body none = pure tt
  check_found is_production source_ip now body (some p) =
      check_itn is_production source_ip now body p

  unfoldable pub handle_payfast_itn : Bool → String → ℕ → Body → Exec (Ledger N) (Unit {0})
  unfolding check_itn
  handle_payfast_itn is_production source_ip now body = do
    rows ← gets (λ (l : Ledger N). l.payments)
    check_found is_production source_ip now body (find_payment rows (field "m_payment_id" body))
