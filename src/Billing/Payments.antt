-- ===== src/Billing/Payments.antt =====
-- modules/clients/billing/client-billing.service.ts: what `payInstallment` does to the installments.
use mathlib.Core.Path.{subst}
use trafego_flow.Common.{
  ◌≡◌, refl, ap, ◌∙◌, true, false, Option, none, some, String, str_eq, arith, eq_iff, if◌then◌else◌,
  is_some, and_true, ◌&&◌,
}
use trafego_flow.Common.Http.{ok, err, Exception}
use trafego_flow.Common.Action.{
  Triple, Triple-bind, Triple-pure, Triple-step, Triple-throw_if, Triple-ok, Triple-fails, Post,
}
use trafego_flow.Common.Store.{Transactions}
use trafego_flow.Common.Rows.{Triple-lookup}
use trafego_flow.Billing.Dates.{Date}
use trafego_flow.Billing.{
  Billings, Installments, ClientBillingEntity, ClientBillingInstallmentEntity,
  InstallmentResponseDto, is_contract, to_installment_response_dto,
}
use trafego_flow.Billing.Service.{pay_installment}
use trafego_flow.Billing.Contracts.{contract_lem}

module _ {W : Type 0} (billings : Billings W) (installments : Installments W)
    (transactions : Transactions W) where
  -- The installments are as they were.
  abbrev pub Unpaid : W → Exception → W → Type 0
  Unpaid w0 e w = (j : String) → installments.get w j ≡ installments.get w0 j

  -- The contract is one of the client, the installment is one of the contract that had not been paid, and now it alone has changed: it
  -- is paid.
  abbrev pub Paid :
      (now : Date) (client_id billing_id installment_id : String)
      → W
      → InstallmentResponseDto
      → W
      → Type 0
  Paid now client_id billing_id installment_id w0 r w =
      (b : ClientBillingEntity) × (i : ClientBillingInstallmentEntity) × (billings.get w0 billing_id
        ≡ some b)
      × (b.client_id ≡ client_id)
      × (installments.get w0 installment_id ≡ some i)
      × (i.client_billing_id ≡ billing_id)
      × (i.paid_at ≡ none)
      × (r ≡ to_installment_response_dto now (record i { paid_at = some now }))
      × ((j : String)
          → installments.get w j ≡ (
              if str_eq installment_id j
              then some (record i { paid_at = some now })
              else installments.get w0 j))

  unpaid : (o : Option Date) → is_some o ≡ false → o ≡ none
  unpaid none e = refl
  unpaid (some a) e = cc

  pay_installment-Triple :
      (now : Date) (client_id billing_id installment_id : String) (w0 : W)
      → Triple
          (λ w. w ≡ w0)
          (pay_installment billings installments transactions now client_id billing_id
            installment_id)
          (Paid now client_id billing_id installment_id w0)
          (Unpaid w0)
  unfolding pay_installment
  pay_installment-Triple now client_id billing_id installment_id w0 =
      Triple-lookup billings w0 (is_contract client_id billing_id) _ (λ x j. refl)
        λ b row here.
          let (key, own) = contract_lem billing_id client_id b here in
          Triple-lookup installments w0
            (λ i. str_eq i.id installment_id && str_eq i.client_billing_id billing_id) _
            (λ x j. refl)
            λ i row_i here_i.
              let (id_eq, of_eq) =
                and_true (str_eq i.id installment_id) (str_eq i.client_billing_id billing_id)
                  here_i in
              let key_i : i.id ≡ installment_id = (eq_iff i.id installment_id).0 id_eq in
              let of : i.client_billing_id ≡ billing_id =
                (eq_iff i.client_billing_id billing_id).0 of_eq in
              Triple-bind (λ _ w. (w ≡ w0) × (i.paid_at ≡ none))
                (Triple-throw_if _ _ (λ w e same. (same, unpaid i.paid_at e))
                  (λ w e same j. ap (λ v. installments.get v j) same))
                λ _.
                  Triple-bind
                    (λ saved w.
                      Paid now client_id billing_id installment_id w0
                        (to_installment_response_dto now saved) w)
                    (Triple-step _
                      (λ w w' saved e (same, owed).
                        let (it, rows) =
                          installments.save_ok (record i { paid_at = some now }) w e in
                        (
                          b,
                          i,
                          subst (λ k. billings.get w0 k ≡ some b) key row,
                          own,
                          subst (λ k. installments.get w0 k ≡ some i) key_i row_i,
                          of,
                          owed,
                          ap (to_installment_response_dto now) it,
                          λ j. rows j ∙ (λ t.
                              if str_eq (key_i t) j
                              then some (record i { paid_at = some now })
                              else installments.get (same t) j),
                        ))
                      (λ w w' x e (same, owed) j.
                        installments.save_err _ w e j ∙ ap (λ v. installments.get v j) same))
                    λ saved. Triple-pure _ (λ w h. h)

  -- A successful payment is of an unpaid installment of a contract of the client; only that
  -- installment changes, it is paid now, and the answer says so; one that throws leaves the
  -- installments as they were.
  pub pay_installment-Paid :
      (now : Date) (client_id billing_id installment_id : String) (w : W)
      → Post (Paid now client_id billing_id installment_id w) (Unpaid w) (
          pay_installment billings installments transactions now client_id billing_id installment_id
            w)
  pay_installment-Paid now client_id billing_id installment_id w =
      (pay_installment-Triple now client_id billing_id installment_id w).at w refl

  never_twice :
      (now later : Date) (c k c' k' i : String) (w0 w w' : W) (r r' : InstallmentResponseDto)
      → Paid now c k i w0 r w
      → Paid later c' k' i w r' w'
      → ⊥
  never_twice now later c k c' k' i w0 w w' r r' (b, x, _, _, _, _, _, _, rows)
        (b', x', _, _, row', _, owed, _, _) =
      let same : str_eq i i ≡ true = (eq_iff i i).1 refl in
      let here = rows i in ground (arith, here, row', owed, same)

  -- After a successful payment of an installment every further payment of it, by any client and
  -- contract and at any time, throws and leaves the installments as they are.
  pub pay_installment_once :
      (now later : Date) (client_id billing_id installment_id : String) (client' billing' : String)
      (w0 w : W) (r : InstallmentResponseDto)
      → pay_installment billings installments transactions now client_id billing_id installment_id
          w0
        ≡ (ok r, w)
      → (e : Exception) × (w' : W) × (pay_installment billings installments transactions later
            client' billing' installment_id w
          ≡ (err e, w'))
        × Unpaid w e w'
  pay_installment_once now later client_id billing_id installment_id client' billing' w0 w r done =
      let paid =
        Triple-ok w0 (pay_installment-Triple now client_id billing_id installment_id w0) refl
          done in
      Triple-fails w (pay_installment-Triple later client' billing' installment_id w) refl
        λ r' w' again.
          never_twice now later client_id billing_id client' billing' installment_id w0 w w' r r'
            paid again
