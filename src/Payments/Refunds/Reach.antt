-- ===== src/Payments/Refunds/Reach.antt =====
-- The ledgers that requests to modules/payments/refunds.service.ts can reach.
use property_os.Common.{◌≡◌, false, All-In, In}
use property_os.Numeric.{Number, IsDouble}
use property_os.Payments.Model.{Payment, Ledger}
use property_os.Payments.Refunds.{already_refunded}
use property_os.Payments.Refunds.Requests.{
  RefundStep, create, approve, reject, process, complete, Reach, here, next,
}
use property_os.Payments.Refunds.Cap.{IsSound}
use property_os.Payments.Refunds.Steps.{
  approve-IsSound, reject-IsSound, complete-IsSound, process-IsSound, create-IsSound,
}

module _ {N : Type 0} ⦃num : Number N⦄ (laws : IsDouble N) where
  RefundStep-IsSound : {l m : Ledger N} → IsSound l → RefundStep l m → IsSound m
  RefundStep-IsSound {l} v (create k property user dto fresh real) =
      create-IsSound laws k property user dto l fresh real v
  RefundStep-IsSound {l} v (approve id property user notes now) =
      approve-IsSound laws id property user notes now l v
  RefundStep-IsSound {l} v (reject id property user reason) =
      reject-IsSound laws id property user reason l v
  RefundStep-IsSound {l} v (process describe id property user k now new fresh) =
      process-IsSound laws describe id property user k now l fresh v
  RefundStep-IsSound {l} v (complete describe id property k now new fresh) =
      complete-IsSound laws describe id property k now l fresh v

  pub Reach-IsSound : {l m : Ledger N} → IsSound l → Reach l m → IsSound m
  Reach-IsSound v here = v
  Reach-IsSound v (next r s) = RefundStep-IsSound (Reach-IsSound v r) s

  -- In every ledger that requests reach from a sound one, what is refunded or asked for of a stored
  -- payment is not above the payment's amount.
  pub refunds_capped :
      {l m : Ledger N} (p : Payment N)
      → IsSound l
      → Reach l m
      → In p m.payments
      → num.lt p.amount (already_refunded p.id m.refunds) ≡ false
  refunds_capped {m = m} p v r i =
      All-In (λ (q : Payment N). num.lt q.amount (already_refunded q.id m.refunds) ≡ false)
        m.payments (Reach-IsSound v r).capped i
