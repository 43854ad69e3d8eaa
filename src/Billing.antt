-- ===== src/Billing.antt =====
-- modules/clients/billing/client-billing.service.ts: the contracts of the clients and their
-- installments.
pub mod Service
pub mod Dates
mod Tests
pub mod Terms
pub mod Contracts
pub mod Untouched
pub mod OneActive
pub mod Payments
pub mod Schedules
use Prim.Native.String
use trafego_flow.Common.{
  ℕ, suc, ◌+◌, Bool, true, false, not, ◌&&◌, Option, none, some, String, str_eq, or_else, or_option,
  is_some, leb, List, [], ◌∷◌, map, sort_with, if◌then◌else◌,
}
use trafego_flow.Common.Http.{Exception, http, bad_request, not_found, conflict}
use trafego_flow.Common.Action.{Action, pure, query, throw_if, or_throw, ◌>>=◌, ◌>>◌}
use trafego_flow.Common.Store.{Repository, Transactions}
use trafego_flow.Billing.Dates.{Date, date_leb, generate_installment_dates}

pub data ContractStatus : Type 0 where
  active expired cancelled : ContractStatus

pub data PaymentMethod : Type 0 where
  pix boleto debit credit : PaymentMethod

pub data DiscountType : Type 0 where
  fixed percentage : DiscountType

-- Amounts are in hundredths, which the column keeps.
pub record ClientBillingEntity : Type 0 where
  pub id : String
  pub created_at : Date
  pub client_id : String
  pub start_date : Date
  pub duration_months : ℕ
  pub amount : ℕ
  pub discount_type : Option DiscountType
  pub discount_value : Option ℕ
  pub payment_method : PaymentMethod
  pub due_day : ℕ
  pub contract_status : ContractStatus

pub record ClientBillingInstallmentEntity : Type 0 where
  pub id : String
  pub client_billing_id : String
  pub installment_number : ℕ
  pub due_date : Date
  pub paid_at : Option Date

pub record CreateClientBillingDto : Type 0 where
  pub start_date : Date
  pub duration_months : ℕ
  pub amount : ℕ
  pub due_day : ℕ
  pub payment_method : PaymentMethod
  pub discount_type : Option DiscountType
  pub discount_value : Option ℕ

pub record RenewClientBillingDto : Type 0 where
  pub start_date : Date
  pub duration_months : ℕ
  pub amount : Option ℕ
  pub due_day : Option ℕ
  pub payment_method : Option PaymentMethod
  pub discount_type : Option DiscountType
  pub discount_value : Option ℕ

pub data InstallmentStatus : Type 0 where
  paid overdue pending : InstallmentStatus

pub record InstallmentResponseDto : Type 0 where
  pub id : String
  pub installment_number : ℕ
  pub due_date : Date
  pub paid_at : Option Date
  pub status : InstallmentStatus

pub record ClientBillingResponseDto : Type 0 where
  pub id : String
  pub client_id : String
  pub start_date : Date
  pub duration_months : ℕ
  pub amount : ℕ
  pub discount_type : Option DiscountType
  pub discount_value : Option ℕ
  pub payment_method : PaymentMethod
  pub due_day : ℕ
  pub contract_status : ContractStatus
  pub installments : List InstallmentResponseDto

-- `computeInstallmentStatus`; `now` is the clock
abbrev pub compute_installment_status :
    (now : Date) → ClientBillingInstallmentEntity → InstallmentStatus
compute_installment_status now installment =
    if is_some installment.paid_at
    then paid
    else if not (date_leb now installment.due_date)
    then overdue
    else pending

-- `toInstallmentResponseDto`
abbrev pub to_installment_response_dto :
    (now : Date) → ClientBillingInstallmentEntity → InstallmentResponseDto
to_installment_response_dto now installment = record {
  id = installment.id;
  installment_number = installment.installment_number;
  due_date = installment.due_date;
  paid_at = installment.paid_at;
  status = compute_installment_status now installment;
}

abbrev pub in_order : (a b : ClientBillingInstallmentEntity) → Bool
in_order a b = leb a.installment_number b.installment_number

-- `toClientBillingResponseDto`
abbrev pub to_client_billing_response_dto :
    (now : Date)
    → ClientBillingEntity
    → List ClientBillingInstallmentEntity
    → ClientBillingResponseDto
to_client_billing_response_dto now billing installments = record {
  id = billing.id;
  client_id = billing.client_id;
  start_date = billing.start_date;
  duration_months = billing.duration_months;
  amount = billing.amount;
  discount_type = billing.discount_type;
  discount_value = billing.discount_value;
  payment_method = billing.payment_method;
  due_day = billing.due_day;
  contract_status = billing.contract_status;
  installments = map (to_installment_response_dto now) (sort_with in_order installments);
}

-- `status === ContractStatus.ACTIVE`
abbrev pub is_active : ContractStatus → Bool
is_active active = true
is_active _ = false

-- `status === ContractStatus.CANCELLED`
abbrev pub is_cancelled : ContractStatus → Bool
is_cancelled cancelled = true
is_cancelled _ = false

-- what `createBilling` stores, under the id and at the time that the database gives
abbrev pub new_billing :
    (now : Date) (client_id : String) → CreateClientBillingDto → String → ClientBillingEntity
new_billing now client_id dto id = record {
  id = id;
  created_at = now;
  client_id = client_id;
  start_date = dto.start_date;
  duration_months = dto.duration_months;
  amount = dto.amount;
  discount_type = dto.discount_type;
  discount_value = dto.discount_value;
  payment_method = dto.payment_method;
  due_day = dto.due_day;
  contract_status = active;
}

-- what `renewBilling` stores for the contract `current`
abbrev pub renewed_billing :
    (now : Date) (client_id : String)
    → RenewClientBillingDto
    → ClientBillingEntity
    → String
    → ClientBillingEntity
renewed_billing now client_id dto current id = record {
  id = id;
  created_at = now;
  client_id = client_id;
  start_date = dto.start_date;
  duration_months = dto.duration_months;
  amount = or_else dto.amount current.amount;
  discount_type = or_option dto.discount_type current.discount_type;
  discount_value = or_option dto.discount_value current.discount_value;
  payment_method = or_else dto.payment_method current.payment_method;
  due_day = or_else dto.due_day current.due_day;
  contract_status = active;
}

-- the installments of the dates, numbered from `number`
abbrev pub new_installments :
    (client_billing_id : String) (number : ℕ)
    → List Date
    → List (String → ClientBillingInstallmentEntity)
new_installments client_billing_id number [] = []
new_installments client_billing_id number (due_date ∷ dates) =
    (λ id. record {
      id = id;
      client_billing_id = client_billing_id;
      installment_number = number;
      due_date = due_date;
      paid_at = none;
    })
    ∷ new_installments client_billing_id (suc number) dates

abbrev pub Billings : Type 0 → Type 0
Billings W = Repository W ClientBillingEntity (λ b. b.id)

abbrev pub Installments : Type 0 → Type 0
Installments W = Repository W ClientBillingInstallmentEntity (λ i. i.id)

abbrev pub with_status : ContractStatus → ClientBillingEntity → ClientBillingEntity
with_status status b = record b { contract_status = status }

-- `where: { clientId, contractStatus: ContractStatus.ACTIVE }`
abbrev pub is_active_of : String → ClientBillingEntity → Bool
is_active_of client_id b = str_eq b.client_id client_id && is_active b.contract_status

-- `where: { id: billingId, clientId }`
abbrev pub is_contract : (client_id billing_id : String) → ClientBillingEntity → Bool
is_contract client_id billing_id b = str_eq b.id billing_id && str_eq b.client_id client_id

abbrev pub contract_not_found : (client_id billing_id : String) → Exception
contract_not_found client_id billing_id = http not_found (
    String.◌++◌ "Contract "
      (String.◌++◌ billing_id (String.◌++◌ " not found for client " client_id)))
