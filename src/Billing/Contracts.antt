-- ===== src/Billing/Contracts.antt =====
-- modules/clients/billing/client-billing.service.ts: what the operations do to the table of
-- contracts.
use mathlib.Core.Path.{subst}
use trafego_flow.Common.{
  ◌≡◌, refl, sym, ap, ◌∙◌, true, false, Option, none, some, str_eq, arith, eq_iff, if◌then◌else◌,
  String, eq_true_of_not, and_true, ℕ, List, [], ◌∷◌, is_some,
}
use trafego_flow.Common.Http.{ok}
use trafego_flow.Common.Action.{
  Action, Post, Triple, Triple-bind, Triple-pure, Triple-query, Triple-throw_if, Triple-weaken,
  Triple-given, Triple-ok, Triple-step, Triple-world,
}
use trafego_flow.Common.Store.{Separate, Transactions, RollsBack, changed}
use trafego_flow.Common.Rows.{Triple-lookup}
use trafego_flow.Billing.Dates.{Date}
use trafego_flow.Billing.{
  Billings, Installments, ClientBillingEntity, ClientBillingInstallmentEntity,
  CreateClientBillingDto, RenewClientBillingDto, ClientBillingResponseDto, renewed_billing,
  with_status, ContractStatus, expired, cancelled, is_active, is_cancelled, is_active_of,
  is_contract,
}
use trafego_flow.Billing.Terms.{
  HasTerms, HasRenewedTerms, Answers, new_billing-HasTerms, renewed_billing-HasRenewedTerms,
  to_client_billing_response_dto-Answers,
}
use trafego_flow.Billing.Service.{
  save_all, open_contract, create_billing, renew_billing, renewal, cancel_billing,
}

pub contract_lem :
    (billing_id client_id : String) (b : ClientBillingEntity)
    → is_contract client_id billing_id b ≡ true
    → (b.id ≡ billing_id) × (b.client_id ≡ client_id)
contract_lem billing_id client_id b here =
    let (key, own) = and_true (str_eq b.id billing_id) (str_eq b.client_id client_id) here in
    ((eq_iff b.id billing_id).0 key, (eq_iff b.client_id client_id).0 own)

-- A table of contracts, by id.
abbrev pub Contracts : Type 0
Contracts = String → Option ClientBillingEntity

-- The table with the contract `b` in it.
abbrev pub with_contract : ClientBillingEntity → Contracts → Contracts
with_contract b f j = if str_eq b.id j then some b else f j

-- The table with the status of the contract `k` changed.
abbrev pub marked : ContractStatus → String → Contracts → Contracts
marked status k f j = if str_eq k j then changed (with_status status) (f j) else f j

-- Client `c` has no active contract.
abbrev pub NoneActive : Contracts → String → Type 0
NoneActive f c =
    (j : String) (b : ClientBillingEntity)
    → f j ≡ some b
    → b.client_id ≡ c
    → is_active b.contract_status ≡ false

module _ {W : Type 0} (billings : Billings W) where
  abbrev pub Holds : Contracts → W → Type 0
  Holds f w = (j : String) → billings.get w j ≡ f j

  at_start : (w0 w : W) → w ≡ w0 → Holds (billings.get w0) w
  at_start w0 w same j = ap (λ v. billings.get v j) same

  none_active :
      (client_id : String) (w : W)
      → billings.find_one (is_active_of client_id) w ≡ ok none
      → NoneActive (billings.get w) client_id
  none_active client_id w found j b row own =
      let other : is_active_of client_id b ≡ false =
        billings.find_one_none (is_active_of client_id) w j b found row in
      ground (arith, eq_iff b.client_id client_id)

missing : {A : Type 0} (o : Option A) → is_some o ≡ false → o ≡ none
missing none e = refl
missing (some a) e = cc

module _ {W : Type 0} (billings : Billings W) (installments : Installments W)
    (transactions : Transactions W) (now : Date) (apart : Separate billings installments)
    (rollback : RollsBack transactions billings) where
  -- The contract `b` has an id that was free, and is in the table.
  abbrev pub Opened : (String → ClientBillingEntity) → Contracts → ClientBillingEntity → W → Type 0
  Opened mk f b w = (f b.id ≡ none) × (mk b.id ≡ b) × Holds billings (with_contract b f) w

  -- There is such a contract, and the answer tells of it.
  abbrev pub Told :
      (String → ClientBillingEntity) → Contracts → ClientBillingResponseDto → W → Type 0
  Told mk f r w = (b : ClientBillingEntity) × Answers b r × Opened mk f b w

  -- The client had no active contract, and now has the new one, which the answer tells of.
  abbrev pub Created :
      (client_id : String) → CreateClientBillingDto → W → ClientBillingResponseDto → W → Type 0
  Created client_id dto w r w' =
      NoneActive (billings.get w) client_id
      × (b : ClientBillingEntity) × HasTerms client_id dto b
      × Answers b r
      × (billings.get w b.id ≡ none)
      × Holds billings (with_contract b (billings.get w)) w'

  -- The contract was an active one of the client; now it has expired, and its successor, which the
  -- answer tells of, is active.
  abbrev pub Renewed :
      (client_id billing_id : String)
      → RenewClientBillingDto
      → W
      → ClientBillingResponseDto
      → W
      → Type 0
  Renewed client_id billing_id dto w r w' =
      (current : ClientBillingEntity) × (billings.get w billing_id ≡ some current)
      × (current.client_id ≡ client_id)
      × (is_active current.contract_status ≡ true)
      × (b : ClientBillingEntity) × HasRenewedTerms client_id dto current b
      × Answers b r
      × (marked expired billing_id (billings.get w) b.id ≡ none)
      × Holds billings (with_contract b (marked expired billing_id (billings.get w))) w'

  -- The contract was one of the client that had not been cancelled; now it is.
  abbrev pub Cancelled : (client_id billing_id : String) → W → ClientBillingResponseDto → W → Type 0
  Cancelled client_id billing_id w r w' =
      (b : ClientBillingEntity) × (billings.get w billing_id ≡ some b)
      × (b.client_id ≡ client_id)
      × (is_cancelled b.contract_status ≡ false)
      × (r.contract_status ≡ cancelled)
      × Holds billings (marked cancelled billing_id (billings.get w)) w'

  save_all-Holds :
      (f : Contracts) (mks : List (String → ClientBillingInstallmentEntity))
      → Triple
          (Holds billings f)
          (save_all billings installments transactions now mks)
          (λ _. Holds billings f)
          (λ _. Holds billings f)
  unfolding save_all
  save_all-Holds f [] = Triple-pure [] (λ w h. h)
  save_all-Holds f (mk ∷ mks) =
      Triple-bind (λ _. Holds billings f)
        (Triple-world (installments.insert mk) (λ w h j. apart.get-insert mk w j ∙ h j))
        λ saved.
          Triple-bind (λ _. Holds billings f) (save_all-Holds f mks)
            λ rest. Triple-pure (saved ∷ rest) (λ w h. h)

  save_all-Opened :
      (f : Contracts) (mk : String → ClientBillingEntity) (b : ClientBillingEntity)
      (mks : List (String → ClientBillingInstallmentEntity))
      → Triple
          (Opened mk f b)
          (save_all billings installments transactions now mks)
          (λ _. Opened mk f b)
          (λ _ _. Unit)
  save_all-Opened f mk b mks = record {
    at = λ w (free, same, rows).
        (Triple-weaken _ _ (save_all-Holds (with_contract b f) mks) (λ a w' h. (free, same, h))
            (λ _ _ _. tt)).at
          w rows;
  }

  open_contract-Told :
      (f : Contracts) (mk : String → ClientBillingEntity) (start : Date)
      (due_day duration_months : ℕ)
      → Triple
          (Holds billings f)
          (open_contract billings installments transactions now mk start due_day duration_months)
          (Told mk f)
          (λ _ _. Unit)
  unfolding open_contract
  open_contract-Told f mk start due_day duration_months =
      Triple-bind (λ b. Opened mk f b)
        (Triple-step _
          (λ w w' b e h.
            let (free, made, rows) = billings.insert_ok mk w e in
            (
              sym (h b.id) ∙ free,
              sym made,
              λ j. rows j ∙ ap (λ o. if str_eq b.id j then some b else o) (h j),
            ))
          (λ w w' x e h. tt))
        λ b.
          Triple-bind (λ _. Opened mk f b) (save_all-Opened f mk b _)
            λ saved.
              Triple-pure _ (λ w h. (b, to_client_billing_response_dto-Answers now b saved, h))

  update-Holds :
      (f : Contracts) (k : String) (status : ContractStatus)
      → Triple
          (Holds billings f)
          (billings.update k (with_status status))
          (λ _. Holds billings (marked status k f))
          (λ _. Holds billings f)
  update-Holds f k status =
      Triple-step _
        (λ w w' u e h j.
          billings.update_ok k (with_status status) w (λ b. refl) e j
          ∙ ap (λ o. if str_eq k j then changed (with_status status) o else o) (h j))
        (λ w w' x e h j. billings.update_err k (with_status status) w e j ∙ h j)

  renewal-Told :
      (f : Contracts) (client_id billing_id : String) (dto : RenewClientBillingDto)
      (current : ClientBillingEntity)
      → Triple
          (Holds billings f)
          (renewal billings installments transactions now client_id billing_id dto current)
          (Told (renewed_billing now client_id dto current) (marked expired billing_id f))
          (λ _ _. Unit)
  renewal-Told f client_id billing_id dto current =
      Triple-bind (λ _. Holds billings (marked expired billing_id f))
        (Triple-weaken _ _ (update-Holds f billing_id expired) (λ _ w h. h) (λ _ _ _. tt))
        λ _. open_contract-Told _ _ _ _ _

  -- A transaction ends as its callback does, or leaves the table as it was.
  run-Triple :
      {A : Type 0} {m : Action W A} {Q : A → W → Type 0} (f : Contracts)
      → Triple (Holds billings f) m Q (λ _ _. Unit)
      → Triple (Holds billings f) (transactions.run m) Q (λ _. Holds billings f)
  run-Triple {m} f t =
      Triple-step _ (λ w w' a e h. Triple-ok w t h (transactions.run_ok m w e))
        (λ w w' x e h j. rollback.run_err m w e j ∙ h j)

  pub create_billing-Created :
      (client_id : String) (dto : CreateClientBillingDto) (w : W)
      → Post
          (Created client_id dto w)
          (λ _. Holds billings (billings.get w))
          (create_billing billings installments transactions now client_id dto w)
  unfolding create_billing
  create_billing-Created client_id dto w0 =
      (Triple-bind {P = λ w. w ≡ w0}
          (λ o w. (w ≡ w0) × (billings.find_one (is_active_of client_id) w0 ≡ ok o))
          (Triple-query _
            (λ w o found same.
              (same, subst (λ v. billings.find_one (is_active_of client_id) v ≡ ok o) same found))
            (λ w x e same. at_start billings w0 w same))
          λ o.
            Triple-bind
              (λ _ w. Holds billings (billings.get w0) w × NoneActive (billings.get w0) client_id)
              (Triple-throw_if _ _
                (λ w e h. (
                  at_start billings w0 w h.0,
                  none_active billings client_id w0 (h.1 ∙ ap ok (missing o e)),
                ))
                (λ w e h. at_start billings w0 w h.0))
              λ _.
                Triple-weaken _ _
                  (Triple-given
                    (λ none_active. run-Triple (billings.get w0) (open_contract-Told _ _ _ _ _)))
                  (λ r w (told, none_active).
                    let (b, answers, (free, same, rows)) = told in
                    (
                      none_active,
                      b,
                      subst (HasTerms client_id dto) same
                          (new_billing-HasTerms now client_id dto b.id),
                      answers,
                      free,
                      rows,
                    ))
                  (λ _ _ h. h)).at
        w0 refl

  pub renew_billing-Renewed :
      (client_id billing_id : String) (dto : RenewClientBillingDto) (w : W)
      → Post
          (Renewed client_id billing_id dto w)
          (λ _. Holds billings (billings.get w))
          (renew_billing billings installments transactions now client_id billing_id dto w)
  unfolding renew_billing
  renew_billing-Renewed client_id billing_id dto w0 =
      (Triple-lookup billings w0 (is_contract client_id billing_id) _
          (λ x. at_start billings w0 w0 refl)
          λ current row here.
            let (key, own) = contract_lem billing_id client_id current here in
            Triple-bind
              (λ _ w.
                Holds billings (billings.get w0) w × (is_active current.contract_status ≡ true))
              (Triple-throw_if _ _ (λ w e same. (at_start billings w0 w same, eq_true_of_not _ e))
                (λ w e same. at_start billings w0 w same))
              λ _.
                Triple-weaken _ _
                  (Triple-given (λ act.
                    run-Triple (billings.get w0) (renewal-Told _ client_id billing_id dto current)))
                  (λ r w (told, act).
                    let (b, answers, (free, same, rows)) = told in
                    (
                      current,
                      subst (λ k. billings.get w0 k ≡ some current) key row,
                      own,
                      act,
                      b,
                      subst (HasRenewedTerms client_id dto current) same
                          (renewed_billing-HasRenewedTerms now client_id dto current b.id),
                      answers,
                      free,
                      rows,
                    ))
                  (λ _ _ h. h)).at
        w0 refl

  -- A successful cancellation was of a contract of the client that had not been cancelled; it is
  -- now, the answer says so, and no other contract changes; one that throws leaves the contracts
  -- as they were.
  pub cancel_billing-Cancelled :
      (client_id billing_id : String) (w : W)
      → Post
          (Cancelled client_id billing_id w)
          (λ _. Holds billings (billings.get w))
          (cancel_billing billings installments transactions now client_id billing_id w)
  unfolding cancel_billing
  cancel_billing-Cancelled client_id billing_id w0 =
      (Triple-lookup billings w0 (is_contract client_id billing_id) _
          (λ x. at_start billings w0 w0 refl)
          λ b row here.
            let (key, own) = contract_lem billing_id client_id b here in
            Triple-bind (λ _. Holds billings (billings.get w0))
              (Triple-query _ (λ w l e same. at_start billings w0 w same)
                (λ w x e same. at_start billings w0 w same))
              λ l.
                Triple-bind
                  (λ _ w.
                    Holds billings (billings.get w0) w × (is_cancelled b.contract_status ≡ false))
                  (Triple-throw_if _ _ (λ w e h. (h, e)) (λ w e h. h))
                  λ _.
                    Triple-bind _
                      (Triple-given (λ act. update-Holds (billings.get w0) billing_id cancelled))
                      λ _. Triple-pure _ (λ w h. (
                        b,
                        subst (λ k. billings.get w0 k ≡ some b) key row,
                        own,
                        h.1,
                        refl,
                        h.0,
                      ))).at
        w0 refl
