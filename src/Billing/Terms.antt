-- ===== src/Billing/Terms.antt =====
-- modules/clients/billing/client-billing.service.ts: the terms of a contract, as a request asks for
-- them and an answer tells of them.
use trafego_flow.Common.{◌≡◌, refl, Option, none, some, String, or_else, or_option, List}
use trafego_flow.Billing.Dates.{Date}
use trafego_flow.Billing.{
  ClientBillingEntity, ClientBillingInstallmentEntity, ClientBillingResponseDto,
  CreateClientBillingDto, RenewClientBillingDto, new_billing, renewed_billing,
  to_client_billing_response_dto, active,
}

-- The contract `b` is an active one of the client, with the terms of the request.
pub record HasTerms (client_id : String) (dto : CreateClientBillingDto) (b : ClientBillingEntity)
    : Type 0 where
  pub of_client : b.client_id ≡ client_id
  pub is_active : b.contract_status ≡ active
  pub start_date : b.start_date ≡ dto.start_date
  pub duration_months : b.duration_months ≡ dto.duration_months
  pub amount : b.amount ≡ dto.amount
  pub discount_type : b.discount_type ≡ dto.discount_type
  pub discount_value : b.discount_value ≡ dto.discount_value
  pub payment_method : b.payment_method ≡ dto.payment_method
  pub due_day : b.due_day ≡ dto.due_day

-- A term is the requested one, or else the old one.
abbrev pub Chosen : {A : Type 0} → (requested : Option A) (old new : A) → Type 0
Chosen (some a) old new = new ≡ a
Chosen none old new = new ≡ old

-- So it is with one that a contract need not have.
abbrev pub ChosenOption : {A : Type 0} → (requested old new : Option A) → Type 0
ChosenOption (some a) old new = new ≡ some a
ChosenOption none old new = new ≡ old

-- The contract `b` is an active one of the client, with the requested terms or those of `current`.
pub record HasRenewedTerms (client_id : String) (dto : RenewClientBillingDto)
    (current b : ClientBillingEntity) : Type 0 where
  pub of_client : b.client_id ≡ client_id
  pub is_active : b.contract_status ≡ active
  pub start_date : b.start_date ≡ dto.start_date
  pub duration_months : b.duration_months ≡ dto.duration_months
  pub amount : Chosen dto.amount current.amount b.amount
  pub discount_type : ChosenOption dto.discount_type current.discount_type b.discount_type
  pub discount_value : ChosenOption dto.discount_value current.discount_value b.discount_value
  pub payment_method : Chosen dto.payment_method current.payment_method b.payment_method
  pub due_day : Chosen dto.due_day current.due_day b.due_day

-- The answer `r` tells of the contract `b`.
pub record Answers (b : ClientBillingEntity) (r : ClientBillingResponseDto) : Type 0 where
  pub id : r.id ≡ b.id
  pub client_id : r.client_id ≡ b.client_id
  pub contract_status : r.contract_status ≡ b.contract_status
  pub start_date : r.start_date ≡ b.start_date
  pub duration_months : r.duration_months ≡ b.duration_months
  pub amount : r.amount ≡ b.amount
  pub discount_type : r.discount_type ≡ b.discount_type
  pub discount_value : r.discount_value ≡ b.discount_value
  pub payment_method : r.payment_method ≡ b.payment_method
  pub due_day : r.due_day ≡ b.due_day

pub to_client_billing_response_dto-Answers :
    (now : Date) (b : ClientBillingEntity) (l : List ClientBillingInstallmentEntity)
    → Answers b (to_client_billing_response_dto now b l)
to_client_billing_response_dto-Answers now b l = record {
  id = refl;
  client_id = refl;
  contract_status = refl;
  start_date = refl;
  duration_months = refl;
  amount = refl;
  discount_type = refl;
  discount_value = refl;
  payment_method = refl;
  due_day = refl;
}

pub new_billing-HasTerms :
    (now : Date) (client_id : String) (dto : CreateClientBillingDto) (id : String)
    → HasTerms client_id dto (new_billing now client_id dto id)
new_billing-HasTerms now client_id dto id = record {
  of_client = refl;
  is_active = refl;
  start_date = refl;
  duration_months = refl;
  amount = refl;
  discount_type = refl;
  discount_value = refl;
  payment_method = refl;
  due_day = refl;
}

or_else-Chosen : {A : Type 0} (o : Option A) (a : A) → Chosen o a (or_else o a)
or_else-Chosen none a = refl
or_else-Chosen (some b) a = refl

or_option-ChosenOption : {A : Type 0} (o a : Option A) → ChosenOption o a (or_option o a)
or_option-ChosenOption none a = refl
or_option-ChosenOption (some b) a = refl

pub renewed_billing-HasRenewedTerms :
    (now : Date) (client_id : String) (dto : RenewClientBillingDto) (current : ClientBillingEntity)
    (id : String)
    → HasRenewedTerms client_id dto current (renewed_billing now client_id dto current id)
renewed_billing-HasRenewedTerms now client_id dto current id = record {
  of_client = refl;
  is_active = refl;
  start_date = refl;
  duration_months = refl;
  amount = or_else-Chosen dto.amount current.amount;
  discount_type = or_option-ChosenOption dto.discount_type current.discount_type;
  discount_value = or_option-ChosenOption dto.discount_value current.discount_value;
  payment_method = or_else-Chosen dto.payment_method current.payment_method;
  due_day = or_else-Chosen dto.due_day current.due_day;
}
