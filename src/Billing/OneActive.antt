-- ===== src/Billing/OneActive.antt =====
-- modules/clients/billing/client-billing.service.ts: a client has at most one active contract.
use trafego_flow.Common.{
  ◌≡◌, refl, if◌then◌else◌, Bool, true, false, Option, none, some, str_eq, arith, eq_iff, String,
  List, [], ◌∷◌, sym, Bool-cases, inl, inr, ◌∙◌,
}
use trafego_flow.Common.Action.{Post, Post-world}
use trafego_flow.Common.Http.{Result}
use trafego_flow.Common.Store.{Separate, Transactions, RollsBack, changed}
use trafego_flow.Billing.Dates.{Date}
use trafego_flow.Billing.{
  Billings, Installments, ClientBillingEntity, CreateClientBillingDto, RenewClientBillingDto,
  with_status, ContractStatus, expired, cancelled, is_active,
}
use trafego_flow.Billing.Service.{
  create_billing, renew_billing, cancel_billing, pay_installment, list_billings, get_active_billing,
}
use trafego_flow.Billing.Untouched.{
  list_billings-Holds, get_active_billing-Holds, pay_installment-Holds,
}
use trafego_flow.Billing.Contracts.{
  Contracts, with_contract, marked, NoneActive, Holds, Created, Renewed, Cancelled,
  create_billing-Created, renew_billing-Renewed, cancel_billing-Cancelled,
}

-- No two active contracts are of the same client.
abbrev pub OneActive : Contracts → Type 0
OneActive f =
    (i j : String) (a b : ClientBillingEntity)
    → f i ≡ some a
    → f j ≡ some b
    → a.client_id ≡ b.client_id
    → is_active a.contract_status ≡ true
    → is_active b.contract_status ≡ true
    → i ≡ j

with_contract-OneActive :
    (f : Contracts) (b : ClientBillingEntity)
    → OneActive f
    → NoneActive f b.client_id
    → OneActive (with_contract b f)
with_contract-OneActive f b one none_active i j x y at_i at_j same ax ay =
    ground (arith, eq_iff b.id i, eq_iff b.id j, none_active i x, none_active j y, one i j x y)

-- A contract that is active afterwards is not the one whose status was changed.
changed_old :
    (status : ContractStatus) (here : Bool) (o : Option ClientBillingEntity)
    (x : ClientBillingEntity)
    → is_active status ≡ false
    → is_active x.contract_status ≡ true
    → (if here then changed (with_status status) o else o) ≡ some x
    → (o ≡ some x) × (here ≡ false)
changed_old status false o x h act e = (e, refl)
changed_old status true none x h act e = cc
changed_old status true (some b) x h act e = ground arith

marked-old :
    (status : ContractStatus) (k j : String) (f : Contracts) (x : ClientBillingEntity)
    → is_active status ≡ false
    → is_active x.contract_status ≡ true
    → marked status k f j ≡ some x
    → (f j ≡ some x) × (str_eq k j ≡ false)
marked-old status k j f x h act e = changed_old status (str_eq k j) (f j) x h act e

marked-OneActive :
    (status : ContractStatus) (k : String) (f : Contracts)
    → is_active status ≡ false
    → OneActive f
    → OneActive (marked status k f)
marked-OneActive status k f h one i j x y at_i at_j same ax ay =
    one i j x y (marked-old status k i f x h ax at_i).0 (marked-old status k j f y h ay at_j).0 same
      ax ay

Holds-OneActive :
    {W : Type 0} (billings : Billings W) (f : Contracts) (w : W)
    → Holds billings f w
    → OneActive f
    → OneActive (billings.get w)
Holds-OneActive billings f w h one i j x y at_i at_j same ax ay =
    one i j x y (sym (h i) ∙ at_i) (sym (h j) ∙ at_j) same ax ay

kept :
    {W A : Type 0} (billings : Billings W) (x : Result A × W) (w : W)
    → OneActive (billings.get w)
    → Post (λ _. Holds billings (billings.get w)) (λ _. Holds billings (billings.get w)) x
    → OneActive (billings.get x.1)
kept billings x w one p =
    Post-world _ _ {I = λ v. OneActive (billings.get v)} x p
      (λ a v h. Holds-OneActive billings _ v h one) (λ e v h. Holds-OneActive billings _ v h one)

-- Once its active contract has expired, a client has none.
expired-NoneActive :
    (f : Contracts) (k : String) (current : ClientBillingEntity) (c : String)
    → OneActive f
    → f k ≡ some current
    → current.client_id ≡ c
    → is_active current.contract_status ≡ true
    → NoneActive (marked expired k f) c
expired-NoneActive f k current c one row own act j b at_j of_c =
    elim (Bool-cases (is_active b.contract_status)) [
      | inr idle ↦ idle
      | inl busy ↦
          let (old, other) = marked-old expired k j f b refl busy at_j in
          let same : k ≡ j = one k j current b row old (own ∙ sym of_c) act busy in
          let it : str_eq k j ≡ true = (eq_iff k j).1 same in cc
    ]

-- A request to the service, by the operation that answers it.
pub data Request : Type 0 where
  create : (client_id : String) → CreateClientBillingDto → Request
  renew : (client_id billing_id : String) → RenewClientBillingDto → Request
  cancel : (client_id billing_id : String) → Request
  pay : (client_id billing_id installment_id : String) → Request
  list active_of : (client_id : String) → Request

module _ {W : Type 0} (billings : Billings W) (installments : Installments W)
    (transactions : Transactions W) where
  -- the world after a request at time `now` has been answered
  abbrev pub handle : (now : Date) → Request → W → W
  handle now (create c dto) w = (create_billing billings installments transactions now c dto w).1
  handle now (renew c k dto) w = (renew_billing billings installments transactions now c k dto w).1
  handle now (cancel c k) w = (cancel_billing billings installments transactions now c k w).1
  handle now (pay c k i) w = (pay_installment billings installments transactions now c k i w).1
  handle now (list c) w = (list_billings billings installments transactions now c w).1
  handle now (active_of c) w = (get_active_billing billings installments transactions now c w).1

  -- the world after requests that are answered one after the other
  abbrev pub serve : List (Date × Request) → W → W
  serve [] w = w
  serve ((now, request) ∷ rest) w = serve rest (handle now request w)

  module _ (apart : Separate billings installments)
      (rollback : RollsBack transactions billings) where
    handle-OneActive :
        (now : Date) (request : Request) (w : W)
        → OneActive (billings.get w)
        → OneActive (billings.get (handle now request w))
    handle-OneActive now (create c dto) w one =
        Post-world (Created billings installments transactions now apart rollback c dto w)
          (λ _. Holds billings (billings.get w)) {I = λ v. OneActive (billings.get v)} _
          (create_billing-Created billings installments transactions now apart rollback c dto w)
          (λ r v (none_active, b, terms, answers, free, rows). Holds-OneActive billings _ v rows (
            with_contract-OneActive (billings.get w) b one
              (λ j d at own. none_active j d at (own ∙ terms.of_client))))
          (λ e v h. Holds-OneActive billings _ v h one)
    handle-OneActive now (renew c k dto) w one =
        Post-world (Renewed billings installments transactions now apart rollback c k dto w)
          (λ _. Holds billings (billings.get w)) {I = λ v. OneActive (billings.get v)} _
          (renew_billing-Renewed billings installments transactions now apart rollback c k dto w)
          (λ r v (current, row, own, act, b, terms, answers, free, rows).
            Holds-OneActive billings _ v rows (
              with_contract-OneActive (marked expired k (billings.get w)) b
                (marked-OneActive expired k (billings.get w) refl one)
                (λ j d at of_b.
                  expired-NoneActive (billings.get w) k current c one row own act j d at
                    (of_b ∙ terms.of_client))))
          (λ e v h. Holds-OneActive billings _ v h one)
    handle-OneActive now (cancel c k) w one =
        Post-world (Cancelled billings installments transactions now apart rollback c k w)
          (λ _. Holds billings (billings.get w)) {I = λ v. OneActive (billings.get v)} _
          (cancel_billing-Cancelled billings installments transactions now apart rollback c k w)
          (λ r v (b, row, own, open_, status, rows).
            Holds-OneActive billings _ v rows
              (marked-OneActive cancelled k (billings.get w) refl one))
          (λ e v h. Holds-OneActive billings _ v h one)
    handle-OneActive now (pay c k i) w one = kept billings _ w one (
        (pay_installment-Holds billings installments transactions now apart rollback
            (billings.get w) c k i).at
          w (λ j. refl))
    handle-OneActive now (list c) w one = kept billings _ w one (
        (list_billings-Holds billings installments transactions now apart rollback (billings.get w)
            c).at
          w (λ j. refl))
    handle-OneActive now (active_of c) w one = kept billings _ w one (
        (get_active_billing-Holds billings installments transactions now apart rollback
            (billings.get w) c).at
          w (λ j. refl))

    -- Where no client has two active contracts, none has after any sequence of requests to the
    -- billing service, answered one after the other, whether they succeed or fail.
    pub serve-OneActive :
        (requests : List (Date × Request)) (w : W)
        → OneActive (billings.get w)
        → OneActive (billings.get (serve requests w))
    serve-OneActive [] w one = one
    serve-OneActive ((now, request) ∷ rest) w one =
        serve-OneActive rest (handle now request w) (handle-OneActive now request w one)
