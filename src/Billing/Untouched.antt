-- ===== src/Billing/Untouched.antt =====
-- modules/clients/billing/client-billing.service.ts: the operations that do not write the table of
-- contracts.
use trafego_flow.Common.{◌∙◌, Option, String, List, [], ◌∷◌}
use trafego_flow.Common.Http.{Exception, Result}
use trafego_flow.Common.Action.{
  Action, query, or_throw, ◌>>=◌, Triple, Triple-bind, Triple-pure, Triple-query, Triple-throw_if,
  Triple-or_throw, Triple-world,
}
use trafego_flow.Common.Store.{Separate, Transactions, RollsBack}
use trafego_flow.Billing.Dates.{Date}
use trafego_flow.Billing.{Billings, Installments, ClientBillingEntity}
use trafego_flow.Billing.Service.{pay_installment, list_billings, get_active_billing, load_all}
use trafego_flow.Billing.Contracts.{Contracts, Holds}

module _ {W : Type 0} (billings : Billings W) (installments : Installments W)
    (transactions : Transactions W) (now : Date) (apart : Separate billings installments)
    (rollback : RollsBack transactions billings) where
  keeps :
      {A B : Type 0} {m : Action W A} {k : A → Action W B} (f : Contracts)
      → Triple (Holds billings f) m (λ _. Holds billings f) (λ _. Holds billings f)
      → ((a : A) → Triple (Holds billings f) (k a) (λ _. Holds billings f) (λ _. Holds billings f))
      → Triple (Holds billings f) (m >>= k) (λ _. Holds billings f) (λ _. Holds billings f)
  keeps f t u = Triple-bind (λ _. Holds billings f) t u

  keeps_query :
      {A : Type 0} (f : Contracts) (q : W → Result A)
      → Triple (Holds billings f) (query q) (λ _. Holds billings f) (λ _. Holds billings f)
  keeps_query f q = Triple-query q (λ w a e h. h) (λ w x e h. h)

  keeps_or_throw :
      {A : Type 0} (f : Contracts) (o : Option A) (e : Exception)
      → Triple (Holds billings f) (or_throw o e) (λ _. Holds billings f) (λ _. Holds billings f)
  keeps_or_throw f o e = Triple-or_throw o e (λ a w x h. h) (λ w x h. h)

  load_all-Holds :
      (f : Contracts) (bs : List ClientBillingEntity)
      → Triple
          (Holds billings f)
          (load_all billings installments transactions now bs)
          (λ _. Holds billings f)
          (λ _. Holds billings f)
  unfolding load_all
  load_all-Holds f [] = Triple-pure [] (λ w h. h)
  load_all-Holds f (b ∷ bs) =
      keeps f (keeps_query f _)
        λ own. keeps f (load_all-Holds f bs) λ rest. Triple-pure _ (λ w h. h)

  pub list_billings-Holds :
      (f : Contracts) (client_id : String)
      → Triple
          (Holds billings f)
          (list_billings billings installments transactions now client_id)
          (λ _. Holds billings f)
          (λ _. Holds billings f)
  unfolding list_billings
  list_billings-Holds f client_id = keeps f (keeps_query f _) λ found. load_all-Holds f _

  pub get_active_billing-Holds :
      (f : Contracts) (client_id : String)
      → Triple
          (Holds billings f)
          (get_active_billing billings installments transactions now client_id)
          (λ _. Holds billings f)
          (λ _. Holds billings f)
  unfolding get_active_billing
  get_active_billing-Holds f client_id = keeps f (keeps_query f _) λ found.
      keeps f (keeps_or_throw f found _)
        λ b. keeps f (keeps_query f _) λ own. Triple-pure _ (λ w h. h)

  pub pay_installment-Holds :
      (f : Contracts) (client_id billing_id installment_id : String)
      → Triple
          (Holds billings f)
          (pay_installment billings installments transactions now client_id billing_id
            installment_id)
          (λ _. Holds billings f)
          (λ _. Holds billings f)
  unfolding pay_installment
  pay_installment-Holds f client_id billing_id installment_id = keeps f (keeps_query f _) λ found.
      keeps f (keeps_or_throw f found _) λ b. keeps f (keeps_query f _) λ owed.
        keeps f (keeps_or_throw f owed _) λ i.
          keeps f (Triple-throw_if _ _ (λ w e h. h) (λ w e h. h)) λ _.
            keeps f (Triple-world (installments.save _) (λ w h j. apart.get-save _ w j ∙ h j))
              λ saved. Triple-pure _ (λ w h. h)
