-- ===== src/Payments/Refunds/Cap.antt =====
-- What is refunded or asked for of a payment, against the payment's amount.
use property_os.Common.{
  ℕ, ◌≡◌, ◌≢◌, refl, sym, ◌∙◌, inl, inr, true, false, List, [], ◌∷◌, filter, any, All, In, All-In,
  arith, save, ◌==◌, if◌then◌else◌, Bool-cases, Distinct, Unused, Distinct-In, Distinct-save,
  All-weaken, All-save, any-In, ==_iff,
}
use property_os.Numeric.{Number, IsDouble, ◌≼◌, nought, sum_from}
use property_os.Payments.Model.{Refund, Payment, PaymentEvent, Ledger}
use property_os.Payments.Refunds.Requests.{refund_key, payment_key}
use property_os.Payments.Refunds.{is_live, already_refunded}

module _ {N : Type 0} ⦃num : Number N⦄ where
  open num use {add, lt}

  abbrev value : Refund N → N
  value r = r.amount

  abbrev claims : ℕ → List (Refund N) → List (Refund N)
  claims payment_id rows = filter is_live (filter (λ r. r.original_payment_id == payment_id) rows)

  abbrev IsNonneg : List (Refund N) → Type 0
  IsNonneg = All (λ r. nought ≼ r.amount)

  -- `r` may stand in the place of `y` and claims no more than it
  abbrev ClaimsLess : Refund N → Refund N → Type 0
  ClaimsLess r y =
      y.id ≡ r.id
      → (y.amount ≡ r.amount)
        × (y.original_payment_id ≡ r.original_payment_id)
        × (is_live r ≡ true → is_live y ≡ true)

  module _ (laws : IsDouble N) where
    open laws use {refl_of_le, le_trans, lt_of_lt_of_le, le-add, add_mono, nought_refl}

    add_grows : (s t v : N) → nought ≼ s → s ≼ t → nought ≼ v → s ≼ add t v
    add_grows s t v hs h hv = le_trans s t (add t v) h (le-add t v (le_trans nought s t hs h) hv)

    add_nonneg : (s v : N) → nought ≼ s → nought ≼ v → nought ≼ add s v
    add_nonneg s v hs hv = le_trans nought s (add s v) hs (le-add s v hs hv)

    claims_mono :
        (id : ℕ) (rows : List (Refund N)) (s t : N)
        → nought ≼ s
        → s ≼ t
        → IsNonneg rows
        → sum_from s value (claims id rows) ≼ sum_from t value (claims id rows)
    claims_mono id [] s t hs h n = h
    claims_mono id (r ∷ rows) s t hs h n = ground (
      arith,
      claims_mono id rows s t,
      claims_mono id rows (add s r.amount) (add t r.amount),
      add_nonneg s r.amount hs n.0,
      add_mono s t r.amount hs h n.0,
    )

    claims-save-le :
        (id : ℕ) (r : Refund N) (rows : List (Refund N)) (s t : N)
        → nought ≼ s
        → s ≼ t
        → IsNonneg rows
        → All (ClaimsLess r) rows
        → any (λ y. y.id == r.id) rows ≡ true
        → sum_from s value (claims id (save refund_key r rows)) ≼ sum_from t value (claims id rows)
    claims-save-le id r [] s t hs h n c there = cc
    claims-save-le id r (y ∷ rows) s t hs h n c there = elim (Bool-cases (y.id == r.id)) [
      | inl e ↦
          let same = c.0 ((==_iff _ _).0 e) in
          rw e (
            ground (
              arith,
              same,
              claims_mono id rows s t,
              claims_mono id rows (add s r.amount) (add t r.amount),
              claims_mono id rows s (add t r.amount),
              add_nonneg s r.amount hs,
              add_mono s t r.amount hs h,
              add_grows s t r.amount hs h,
              n.0,
            ))
      | inr e ↦ ground (
        arith,
        claims-save-le id r rows s t hs h n.1 c.1,
        claims-save-le id r rows (add s y.amount) (add t y.amount),
        add_nonneg s y.amount hs n.0,
        add_mono s t y.amount hs h n.0,
      )
    ]

    not-lt_of_le : (a s t : N) → s ≼ t → lt a t ≡ false → lt a s ≡ false
    not-lt_of_le a s t h n = elim (Bool-cases (lt a s)) [
      | inl e ↦ let over = lt_of_lt_of_le a s t e h in cc
      | inr e ↦ e
    ]

    not-lt_nought : (a : N) → nought ≼ a → lt a nought ≡ false
    not-lt_nought a h =
        let real = refl_of_le nought a h in rw (laws.lt-eq-not-le a nought real.1 real.0, h)

  -- what holds of the ledger between two requests
  pub record IsSound (l : Ledger N) : Type 0 where
    pub payments_distinct : Distinct payment_key l.payments
    pub refunds_distinct : Distinct refund_key l.refunds
    pub nonneg : IsNonneg l.refunds
    pub capped :
        All (λ (p : Payment N). lt p.amount (already_refunded p.id l.refunds) ≡ false) l.payments

  module _ (laws : IsDouble N) where
    open laws use {nought_refl, refl_of_le}

    -- A stored refund may be replaced by one that claims no more.
    pub replace-IsSound :
        (l : Ledger N) (y r : Refund N)
        → In y l.refunds
        → y.id ≡ r.id
        → y.amount ≡ r.amount
        → y.original_payment_id ≡ r.original_payment_id
        → (is_live r ≡ true → is_live y ≡ true)
        → IsSound l
        → IsSound (record l { refunds = save refund_key r l.refunds })
    replace-IsSound l y r i id amount payment live v =
        let less : All (ClaimsLess r) l.refunds =
          All-weaken
            (λ z same. λ key. let z≡y = same (key ∙ sym id) in rw z≡y (amount, payment, live))
            l.refunds (Distinct-In refund_key l.refunds y v.refunds_distinct i) in
        let there = any-In (λ (z : Refund N). z.id == r.id) y l.refunds ((==_iff _ _).1 id) i in
        record {
          payments_distinct = v.payments_distinct;
          refunds_distinct = Distinct-save refund_key r l.refunds v.refunds_distinct;
          nonneg =
              All-save refund_key (λ (z : Refund N). nought ≼ z.amount) r l.refunds
                (rw (← amount) (All-In (λ (z : Refund N). nought ≼ z.amount) l.refunds v.nonneg i))
                v.nonneg;
          capped =
              All-weaken
                (λ p under.
                  not-lt_of_le laws p.amount _ _
                    (claims-save-le laws p.id r l.refunds nought nought nought_refl nought_refl
                      v.nonneg less there)
                    under)
                l.payments v.capped;
        }

    claims-unused :
        (k : ℕ) (rows : List (Refund N))
        → All (λ r. r.original_payment_id ≢ k) rows
        → claims k rows ≡ []
    claims-unused k [] h = refl
    claims-unused k (r ∷ rows) h = ground (arith, claims-unused k rows h.1)

    -- A new payment row, which no refund names, has nothing refunded.
    pub add_payment-IsSound :
        (l : Ledger N) (p : Payment N) (events : List (PaymentEvent N))
        → All (λ (r : Refund N). r.original_payment_id ≢ p.id) l.refunds
        → nought ≼ p.amount
        → IsSound l
        → IsSound (record l { payments = save payment_key p l.payments; events = events })
    add_payment-IsSound l p events fresh real v = record {
      payments_distinct = Distinct-save payment_key p l.payments v.payments_distinct;
      refunds_distinct = v.refunds_distinct;
      nonneg = v.nonneg;
      capped =
          All-save payment_key (λ q. lt q.amount (already_refunded q.id l.refunds) ≡ false) p
            l.payments (rw (claims-unused p.id l.refunds fresh) (not-lt_nought laws p.amount real))
            v.capped;
    }

    -- A new refund adds its amount to the claims on its payment, and to no other.
    claims-save_new :
        (id : ℕ) (r : Refund N) (rows : List (Refund N)) (s : N)
        → Unused refund_key r.id rows
        → is_live r ≡ true
        → sum_from s value (claims id (save refund_key r rows)) ≡ (
            if r.original_payment_id == id
            then add (sum_from s value (claims id rows)) r.amount
            else sum_from s value (claims id rows))
    claims-save_new id r [] s h live = ground arith
    claims-save_new id r (y ∷ rows) s h live = ground (
      arith,
      h.0,
      claims-save_new id r rows s h.1 live,
      claims-save_new id r rows (add s y.amount) h.1 live,
    )

    -- A new refund that fits under its payment's amount keeps the ledger sound.
    pub add_refund-IsSound :
        (l : Ledger N) (p : Payment N) (r : Refund N)
        → In p l.payments
        → p.id ≡ r.original_payment_id
        → Unused refund_key r.id l.refunds
        → is_live r ≡ true
        → nought ≼ r.amount
        → lt p.amount (add (already_refunded p.id l.refunds) r.amount) ≡ false
        → IsSound l
        → IsSound (record l { refunds = save refund_key r l.refunds })
    add_refund-IsSound l p r i id fresh live real fits v = record {
      payments_distinct = v.payments_distinct;
      refunds_distinct = Distinct-save refund_key r l.refunds v.refunds_distinct;
      nonneg = All-save refund_key (λ (z : Refund N). nought ≼ z.amount) r l.refunds real v.nonneg;
      capped =
          keep l.payments v.capped (Distinct-In payment_key l.payments p v.payments_distinct i);
    }
      where
        keep :
            (ps : List (Payment N))
            → All (λ q. lt q.amount (already_refunded q.id l.refunds) ≡ false) ps
            → All (λ q. q.id ≡ p.id → q ≡ p) ps
            → All
                (λ q. lt q.amount (already_refunded q.id (save refund_key r l.refunds)) ≡ false)
                ps
        keep [] h same = tt
        keep (q ∷ ps) h same = (
          rw (claims-save_new q.id r l.refunds nought fresh live)
              (elim (Bool-cases (r.original_payment_id == q.id)) [
                | inl e ↦ let q≡p = same.0 (sym (id ∙ (==_iff _ _).0 e)) in rw e (rw q≡p fits)
                | inr e ↦ rw e h.0
              ]),
          keep ps h.1 same.1,
        )
