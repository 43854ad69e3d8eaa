-- ===== src/Billing/Schedules.antt =====
-- modules/clients/billing/client-billing.service.ts: the installments that a new contract has.
use mathlib.Core.Path.{subst}
use trafego_flow.Common.Rows.{Triple-lookup}
use trafego_flow.Billing.Contracts.{contract_lem}
use trafego_flow.Common.{
  ◌≡◌, refl, sym, ap, ◌∙◌, ℕ, suc, none, some, String, List, [], ◌∷◌, arith, map, sort_with,
  insert_sorted, or_else,
}
use trafego_flow.Common.Http.{ok}
use trafego_flow.Common.Action.{
  Action, query, throw_if, Triple-ok, Triple, Triple-bind, Triple-pure, Triple-step, Triple-weaken,
  Post,
}
use trafego_flow.Common.Store.{Transactions}
use trafego_flow.Billing.Dates.{Date, generate_installment_dates}
use trafego_flow.Billing.{
  Billings, Installments, ClientBillingEntity, ClientBillingInstallmentEntity,
  CreateClientBillingDto, RenewClientBillingDto, ClientBillingResponseDto, InstallmentResponseDto,
  to_installment_response_dto, new_installments, in_order, is_contract,
}
use trafego_flow.Billing.Service.{save_all, open_contract, create_billing, renew_billing}

-- The rows that `new_installments` describes, each under its own id.
abbrev MadeBy :
    List (String → ClientBillingInstallmentEntity) → List ClientBillingInstallmentEntity → Type 0
MadeBy [] [] = Unit
MadeBy (mk ∷ mks) (i ∷ is) = (i ≡ mk i.id) × MadeBy mks is
MadeBy _ _ = ⊥

-- Installments numbered from `n`, one for each date, none of them paid.
abbrev pub Numbered : ℕ → List Date → List InstallmentResponseDto → Type 0
Numbered n [] [] = Unit
Numbered n (date ∷ dates) (r ∷ rs) =
    (r.installment_number ≡ n)
    × (r.due_date ≡ date)
    × (r.paid_at ≡ none)
    × Numbered (suc n) dates rs
Numbered n _ _ = ⊥

MadeBy-sorted :
    (k : String) (n : ℕ) (dates : List Date) (is : List ClientBillingInstallmentEntity)
    → MadeBy (new_installments k n dates) is
    → sort_with in_order is ≡ is
MadeBy-sorted k n [] [] h = refl
MadeBy-sorted k n [] (i ∷ is) h = absurd h
MadeBy-sorted k n (d ∷ ds) [] h = absurd h
MadeBy-sorted k n (d ∷ ds) (i ∷ is) h =
    ap (insert_sorted in_order i) (MadeBy-sorted k (suc n) ds is h.1) ∙ front ds is h.1
  where
    front :
        (ds : List Date) (is : List ClientBillingInstallmentEntity)
        → MadeBy (new_installments k (suc n) ds) is
        → insert_sorted in_order i is ≡ i ∷ is
    front [] [] g = refl
    front [] (j ∷ is) g = absurd g
    front (e ∷ es) [] g = absurd g
    front (e ∷ es) (j ∷ is) g =
        let at_i : i.installment_number ≡ n = ap (λ x. x.installment_number) h.0 in
        let at_j : j.installment_number ≡ suc n = ap (λ x. x.installment_number) g.0 in ground arith

MadeBy-Numbered :
    (now : Date) (k : String) (n : ℕ) (dates : List Date) (is : List ClientBillingInstallmentEntity)
    → MadeBy (new_installments k n dates) is
    → Numbered n dates (map (to_installment_response_dto now) is)
MadeBy-Numbered now k n [] [] h = tt
MadeBy-Numbered now k n [] (i ∷ is) h = absurd h
MadeBy-Numbered now k n (d ∷ ds) [] h = absurd h
MadeBy-Numbered now k n (d ∷ ds) (i ∷ is) h = (
  ap (λ x. x.installment_number) h.0,
  ap (λ x. x.due_date) h.0,
  ap (λ x. x.paid_at) h.0,
  MadeBy-Numbered now k (suc n) ds is h.1,
)

same_row : {a b : ClientBillingEntity} → some a ≡ some b → a ≡ b
same_row e = cc

module _ {W : Type 0} (billings : Billings W) (installments : Installments W)
    (transactions : Transactions W) (now : Date) where
  abbrev Any : {A : Type 0} → A → W → Type 0
  Any a w = Unit

  anything : {A : Type 0} {P : W → Type 0} (m : Action W A) → Triple P m Any Any
  anything m = Triple-step m (λ w w' a e h. tt) (λ w w' x e h. tt)

  save_all-MadeBy :
      (mks : List (String → ClientBillingInstallmentEntity))
      → Triple
          (λ _. Unit)
          (save_all billings installments transactions now mks)
          (λ is _. MadeBy mks is)
          Any
  unfolding save_all
  save_all-MadeBy [] = Triple-pure [] (λ w h. tt)
  save_all-MadeBy (mk ∷ mks) =
      Triple-bind (λ i _. i ≡ mk i.id)
        (Triple-step _ (λ w w' i e h. (installments.insert_ok mk w e).1) (λ w w' x e h. tt))
        λ i.
          Triple-bind (λ is _. (i ≡ mk i.id) × MadeBy mks is)
            (record {
              at = λ w e.
                  (Triple-weaken _ _ (save_all-MadeBy mks) (λ is v h. (e, h)) (λ _ _ _. tt)).at w
                    tt;
            })
            λ is. Triple-pure (i ∷ is) (λ w h. h)

  abbrev Scheduled :
      (start : Date) (due_day duration_months : ℕ) → ClientBillingResponseDto → W → Type 0
  Scheduled start due_day duration_months r w =
      Numbered 1 (generate_installment_dates start due_day duration_months) r.installments

  open_contract-Scheduled :
      (mk : String → ClientBillingEntity) (start : Date) (due_day duration_months : ℕ)
      → Triple
          (λ _. Unit)
          (open_contract billings installments transactions now mk start due_day duration_months)
          (Scheduled start due_day duration_months)
          Any
  unfolding open_contract
  open_contract-Scheduled mk start due_day duration_months =
      Triple-bind Any (anything (billings.insert mk)) λ b.
        let dates = generate_installment_dates start due_day duration_months in
        Triple-bind (λ is _. MadeBy (new_installments b.id 1 dates) is)
          (save_all-MadeBy (new_installments b.id 1 dates))
          λ is. Triple-pure _ (λ w h.
            subst (λ l. Numbered 1 dates (map (to_installment_response_dto now) l))
              (sym (MadeBy-sorted b.id 1 dates is h)) (MadeBy-Numbered now b.id 1 dates is h))

  run-Triple :
      {A : Type 0} {m : Action W A} {Q : A → W → Type 0}
      → Triple (λ _. Unit) m Q Any
      → Triple (λ _. Unit) (transactions.run m) Q Any
  run-Triple t =
      Triple-step _ (λ w w' a e h. Triple-ok w t tt (transactions.run_ok _ w e)) (λ w w' x e h. tt)

  -- The answer to a successful creation lists one unpaid installment for each due date of the
  -- contract, in their order, numbered from 1.
  pub create_billing-Numbered :
      (client_id : String) (dto : CreateClientBillingDto) (w0 w : W) (r : ClientBillingResponseDto)
      → create_billing billings installments transactions now client_id dto w0 ≡ (ok r, w)
      → Numbered 1
          (generate_installment_dates dto.start_date dto.due_day dto.duration_months)
          r.installments
  unfolding create_billing
  create_billing-Numbered client_id dto w0 w r done =
      Triple-ok {P = λ _. Unit {0}} {Q = Scheduled dto.start_date dto.due_day dto.duration_months}
        w0
        (Triple-bind Any (anything (query _)) λ existing.
          Triple-bind Any (anything (throw_if _ _))
            λ _. run-Triple (open_contract-Scheduled _ _ _ _))
        tt done

  renew_billing-Scheduled :
      (client_id billing_id : String) (dto : RenewClientBillingDto) (w0 : W)
      → Post
          (λ r w.
            (current : ClientBillingEntity) × (billings.get w0 billing_id ≡ some current)
            × Scheduled dto.start_date
                (or_else dto.due_day current.due_day)
                dto.duration_months
                r
                w)
          Any
          (renew_billing billings installments transactions now client_id billing_id dto w0)
  unfolding renew_billing
  renew_billing-Scheduled client_id billing_id dto w0 =
      (Triple-lookup billings w0 (is_contract client_id billing_id) _ (λ x. tt)
          λ current row here.
            let (key, own) = contract_lem billing_id client_id current here in
            Triple-bind Any (anything (throw_if _ _)) λ _.
              Triple-weaken _ _
                (run-Triple (
                  Triple-bind Any (anything (billings.update billing_id _))
                    λ _. open_contract-Scheduled _ _ _ _))
                (λ r w h. (current, subst (λ k. billings.get w0 k ≡ some current) key row, h))
                (λ _ _ _. tt)).at
        w0 refl

  -- The answer to a successful renewal of a contract lists one unpaid installment for each due
  -- date under the requested due day, or the old one where none is requested, in their order,
  -- numbered from 1.
  pub renew_billing-Numbered :
      (client_id billing_id : String) (dto : RenewClientBillingDto) (current : ClientBillingEntity)
      (w0 w : W) (r : ClientBillingResponseDto)
      → billings.get w0 billing_id ≡ some current
      → renew_billing billings installments transactions now client_id billing_id dto w0 ≡ (ok r, w)
      → Numbered 1
          (generate_installment_dates dto.start_date
            (or_else dto.due_day current.due_day)
            dto.duration_months)
          r.installments
  renew_billing-Numbered client_id billing_id dto current w0 w r row done =
      let (c, row', numbered) =
        subst (Post _ _) done (renew_billing-Scheduled client_id billing_id dto w0) in
      subst
        (λ x.
          Numbered 1
            (generate_installment_dates dto.start_date (or_else dto.due_day x.due_day)
              dto.duration_months)
            r.installments)
        (same_row (sym row' ∙ row)) numbered
