-- ===== src/Payments/Itn/Once.antt =====
-- The handler of PayFast's notifications: its checks, and completions of one payment that run in turn.
use property_os.Common.{
  ℕ, ◌+◌, ◌≤◌, ◌≡◌, refl, inl, inr, ◌∙◌, sym, ap, Bool-cases, String, Bool, true, false, not, ◌&&◌,
  ◌||◌, Option, some, List, [], ◌∷◌, arith, find_one, find_one-In, count_where, update_where,
  length, length-append, push, All, In, ◌==◌, Bool-cases,
}
use property_os.Numeric.{Number}
use property_os.Service.{is_truthy_text}
use property_os.Payments.Model.{
  Payment, PaymentStatus, Ledger, payment_completed, same_payment_status,
}
use property_os.Payments.Itn.{
  Body, Runtime, field, is_valid_payfast_host, verify_signature, validate_itn, settings_of,
  get_settings, is_amount, is_open, as_completed, complete_payment, settle, handle_payfast_itn,
}

-- a completion: the payment as it was read, its reference and the time
abbrev pub Completion : Type 0 → Type 0
Completion N = Payment N × Option String × ℕ

module _ {N : Type 0} where
  none_open :
      (id now : ℕ) (ref : Option String) (rows : List (Payment N))
      → count_where (is_open id) (update_where (is_open id) (as_completed now ref) rows) ≡ 0
  none_open id now ref [] = refl
  none_open id now ref (p ∷ rows) = ground (arith, none_open id now ref rows)

  abbrev pub complete_each : List (Completion N) → Ledger N → Ledger N
  complete_each [] l = l
  complete_each (c ∷ cs) l = complete_each cs (complete_payment c.0 c.1 c.2 l).1

  open_counted :
      (p : Payment N) (rows : List (Payment N))
      → In p rows
      → same_payment_status p.status PaymentStatus.completed ≡ false
      → (count_where (is_open p.id) rows == 0) ≡ false
  open_counted p [] i h = absurd i
  open_counted p (q ∷ rows) (inl e) h = rw (← e, h) (ground arith)
  open_counted p (q ∷ rows) (inr i) h = ground (arith, open_counted p rows i h)

  complete_payment_lem :
      (p : Payment N) (ref : Option String) (now : ℕ) (l : Ledger N)
      → (count_where (is_open p.id) l.payments ≡ 0
          → (complete_payment p ref now l).1.events ≡ l.events)
        × (length (complete_payment p ref now l).1.events ≤ length l.events + 1)
        × (count_where (is_open p.id) (complete_payment p ref now l).1.payments ≡ 0)
  unfolding complete_payment
  complete_payment_lem p ref now l =
      elim (Bool-cases (count_where (is_open p.id) l.payments == 0)) [
        | inl e ↦ rw e (λ h. refl, omega arith, none_open p.id now ref l.payments)
        | inr e ↦ rw e (
          λ h. absurd (ground arith),
          omega (
            arith,
            length-append l.events (payment_completed p.booking_id p.amount "PayFast" ∷ []),
          ),
          none_open p.id now ref l.payments,
        )
      ]

  same_open :
      {i j : ℕ} (rows : List (Payment N))
      → i ≡ j
      → count_where (is_open i) rows ≡ count_where (is_open j) rows
  same_open rows e = ap (λ k. count_where (is_open k) rows) e

  closed_quiet :
      (id : ℕ) (cs : List (Completion N)) (l : Ledger N)
      → All (λ (c : Completion N). c.0.id ≡ id) cs
      → count_where (is_open id) l.payments ≡ 0
      → (complete_each cs l).events ≡ l.events
  closed_quiet id [] l k h = refl
  closed_quiet id (c ∷ cs) l k h =
      let one = complete_payment_lem c.0 c.1 c.2 l in
      let after = (complete_payment c.0 c.1 c.2 l).1 in
      closed_quiet id cs after k.1 (sym (same_open after.payments k.0) ∙ one.2)
      ∙ one.0 (same_open l.payments k.0 ∙ h)

  -- However many completions of one payment run, and whatever they read of it before, they emit at most
  -- one event; they emit none where the payment is completed already.
  pub complete_once :
      (id : ℕ) (cs : List (Completion N)) (l : Ledger N)
      → All (λ (c : Completion N). c.0.id ≡ id) cs
      → (length (complete_each cs l).events ≤ length l.events + 1)
        × (count_where (is_open id) l.payments ≡ 0 → (complete_each cs l).events ≡ l.events)
  complete_once id [] l k = (omega arith, λ h. refl)
  complete_once id (c ∷ cs) l k =
      let one = complete_payment_lem c.0 c.1 c.2 l in
      let after = (complete_payment c.0 c.1 c.2 l).1 in
      (
        rw (closed_quiet id cs after k.1 (sym (same_open after.payments k.0) ∙ one.2)) one.1,
        closed_quiet id (c ∷ cs) l k,
      )

module _ {N : Type 0} ⦃num : Number N⦄ (rt : Runtime N) where
  -- every check that a notification of a payment has to pass
  abbrev pub is_genuine : Bool → String → Body → Ledger N → Payment N → Bool
  is_genuine is_production source_ip body l p =
      let settings = settings_of p.property_id l.settings in
      (not is_production || settings.payfast_sandbox || is_valid_payfast_host source_ip)
      && verify_signature rt body settings.payfast_passphrase
      && is_amount rt (field "amount_gross" body) p.amount
      && validate_itn rt body settings.payfast_sandbox

  -- A notification that fails one of the checks, or names a payment that is completed, changes no payment
  -- and emits no event.
  pub itn_guarded :
      (is_production : Bool) (source_ip id : String) (now : ℕ) (body : Body) (l : Ledger N)
      (p : Payment N)
      → field "m_payment_id" body ≡ some id
      → find_one (λ q. q.id == rt.key_of id) l.payments ≡ some p
      → is_genuine is_production source_ip body l p
          && not (same_payment_status p.status PaymentStatus.completed)
        ≡ false
      → ((handle_payfast_itn rt is_production source_ip now body l).1.payments ≡ l.payments)
        × ((handle_payfast_itn rt is_production source_ip now body l).1.events ≡ l.events)
  unfolding handle_payfast_itn settle get_settings
  itn_guarded is_production source_ip id now body l p e f h =
      rw e (elim (Bool-cases (is_truthy_text (some id))) [
        | inr t ↦ rw t (refl, refl)
        | inl t ↦ rw (t, f) (ground arith)
      ])

  -- A genuine notification of a payment that is not completed, with the status COMPLETE, emits its
  -- completion, and leaves no row of the payment that is not completed.
  pub itn_completes :
      (is_production : Bool) (source_ip id : String) (now : ℕ) (body : Body) (l : Ledger N)
      (p : Payment N)
      → field "m_payment_id" body ≡ some id
      → is_truthy_text (some id) ≡ true
      → find_one (λ q. q.id == rt.key_of id) l.payments ≡ some p
      → is_genuine is_production source_ip body l p ≡ true
      → same_payment_status p.status PaymentStatus.completed ≡ false
      → field "payment_status" body ≡ some "COMPLETE"
      → ((handle_payfast_itn rt is_production source_ip now body l).1.events
          ≡ push l.events (payment_completed p.booking_id p.amount "PayFast"))
        × (count_where
              (is_open p.id)
              (handle_payfast_itn rt is_production source_ip now body l).1.payments
            ≡ 0)
  unfolding handle_payfast_itn settle get_settings
  itn_completes is_production source_ip id now body l p e t f g s c =
      let settings = settings_of p.property_id l.settings in
      let some_open = open_counted p l.payments (find_one-In _ l.payments f).0 s in
      let ip : (not (not is_production || settings.payfast_sandbox)
            && not (is_valid_payfast_host source_ip))
          ≡ false =
        ground arith in
      let signed : verify_signature rt body settings.payfast_passphrase ≡ true = ground arith in
      let amount : is_amount rt (field "amount_gross" body) p.amount ≡ true = ground arith in
      let answered : validate_itn rt body settings.payfast_sandbox ≡ true = ground arith in
      rw (e, t, f, c, s, ip, signed, amount, answered)
        (rw some_open (refl, none_open p.id now (field "pf_payment_id" body) l.payments))
