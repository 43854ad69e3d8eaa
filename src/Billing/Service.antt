-- ===== src/Billing/Service.antt =====
-- modules/clients/billing/client-billing.service.ts: the operations of the service.
use Prim.Native.String
use trafego_flow.Common.{
  ℕ, not, ◌&&◌, some, String, str_eq, or_else, is_some, List, [], ◌∷◌, sort_with,
}
use trafego_flow.Common.Http.{http, bad_request, not_found, conflict}
use trafego_flow.Common.Action.{Action, pure, query, throw_if, or_throw, ◌>>=◌, ◌>>◌}
use trafego_flow.Common.Store.{Transactions}
use trafego_flow.Billing.Dates.{Date, date_leb, generate_installment_dates}
use trafego_flow.Billing.{
  ClientBillingEntity, ClientBillingInstallmentEntity, CreateClientBillingDto,
  RenewClientBillingDto, InstallmentResponseDto, ClientBillingResponseDto,
  to_installment_response_dto, to_client_billing_response_dto, is_active, is_cancelled, new_billing,
  renewed_billing, new_installments, Billings, Installments, with_status, is_active_of, is_contract,
  contract_not_found, expired, cancelled,
}

module _ {W : Type 0} (billings : Billings W) (installments : Installments W)
    (transactions : Transactions W) (now : Date) where
  -- `relations: { installments: true }`
  abbrev installments_of : String → Action W (List ClientBillingInstallmentEntity)
  installments_of billing_id =
      query (installments.find (λ i. str_eq i.client_billing_id billing_id))

  -- `manager.save` of a list
  unfoldable pub save_all :
      List (String → ClientBillingInstallmentEntity)
      → Action W (List ClientBillingInstallmentEntity)
  save_all [] = pure []
  save_all (mk ∷ mks) = do saved ← installments.insert mk; rest ← save_all mks; pure (saved ∷ rest)

  -- the end of both transactions: a contract and its installments
  unfoldable pub open_contract :
      (String → ClientBillingEntity)
      → (start : Date) (due_day duration_months : ℕ) → Action W ClientBillingResponseDto
  unfolding save_all
  open_contract mk start due_day duration_months = do
    billing ← billings.insert mk
    saved ←
        save_all
          (new_installments billing.id 1 (generate_installment_dates start due_day duration_months))
    pure (to_client_billing_response_dto now billing saved)

  -- `createBilling`
  unfoldable pub create_billing :
      (client_id : String) → CreateClientBillingDto → Action W ClientBillingResponseDto
  unfolding open_contract
  create_billing client_id dto = do
    existing ← query (billings.find_one (is_active_of client_id))
    throw_if (is_some existing) (http conflict "Client already has an active contract")
    transactions.run (
        open_contract (new_billing now client_id dto) dto.start_date dto.due_day
          dto.duration_months)

  unfoldable pub load_all : List ClientBillingEntity → Action W (List ClientBillingResponseDto)
  load_all [] = pure []
  load_all (b ∷ bs) = do
    own ← installments_of b.id
    rest ← load_all bs
    pure (to_client_billing_response_dto now b own ∷ rest)

  -- `listBillings`, the newest first
  unfoldable pub list_billings : String → Action W (List ClientBillingResponseDto)
  unfolding load_all
  list_billings client_id = do
    found ← query (billings.find (λ b. str_eq b.client_id client_id))
    load_all (sort_with (λ a b. date_leb b.created_at a.created_at) found)

  -- `getActiveBilling`
  unfoldable pub get_active_billing : String → Action W ClientBillingResponseDto
  get_active_billing client_id = do
    found ← query (billings.find_one (is_active_of client_id))
    billing ←
        or_throw found (http not_found (String.◌++◌ "No active contract for client " client_id))
    own ← installments_of billing.id
    pure (to_client_billing_response_dto now billing own)

  -- the transaction of `renewBilling`
  abbrev pub renewal :
      (client_id billing_id : String)
      → RenewClientBillingDto
      → ClientBillingEntity
      → Action W ClientBillingResponseDto
  renewal client_id billing_id dto current = do
    billings.update billing_id (with_status expired)
    open_contract (renewed_billing now client_id dto current) dto.start_date
        (or_else dto.due_day current.due_day) dto.duration_months

  -- `renewBilling`
  unfoldable pub renew_billing :
      (client_id billing_id : String) → RenewClientBillingDto → Action W ClientBillingResponseDto
  unfolding open_contract
  renew_billing client_id billing_id dto = do
    found ← query (billings.find_one (is_contract client_id billing_id))
    current ← or_throw found (contract_not_found client_id billing_id)
    throw_if (not (is_active current.contract_status))
        (http bad_request "Only active contracts can be renewed")
    transactions.run (renewal client_id billing_id dto current)

  -- `cancelBilling`
  unfoldable pub cancel_billing :
      (client_id billing_id : String) → Action W ClientBillingResponseDto
  cancel_billing client_id billing_id = do
    found ← query (billings.find_one (is_contract client_id billing_id))
    billing ← or_throw found (contract_not_found client_id billing_id)
    own ← installments_of billing.id
    throw_if (is_cancelled billing.contract_status)
        (http bad_request "Contract is already cancelled")
    billings.update billing_id (with_status cancelled)
    pure (to_client_billing_response_dto now (with_status cancelled billing) own)

  -- `payInstallment`
  unfoldable pub pay_installment :
      (client_id billing_id installment_id : String) → Action W InstallmentResponseDto
  pay_installment client_id billing_id installment_id = do
    found ← query (billings.find_one (is_contract client_id billing_id))
    billing ← or_throw found (contract_not_found client_id billing_id)
    owed ← query (
        installments.find_one
          (λ i. str_eq i.id installment_id && str_eq i.client_billing_id billing_id))
    installment ←
        or_throw owed
          (http not_found (String.◌++◌ "Installment " (String.◌++◌ installment_id " not found")))
    throw_if (is_some installment.paid_at) (http bad_request "Installment is already paid")
    saved ← installments.save (record installment { paid_at = some now })
    pure (to_installment_response_dto now saved)
