-- ===== src/Billing/Tests.antt =====
-- The contracts and their installments on concrete requests, over tables in memory.
use mathlib.Core.Path.{◌≡◌, refl}
use trafego_flow.Common.{
  true, false, none, some, List, [], ◌∷◌, ◌⊎◌, arith, ℕ, ◌+◌, ◌≡◌, get_elem?, length,
}
use trafego_flow.Common.Http.{Exception, ok, err}
use trafego_flow.Common.Store.{Separate, Transactions, RollsBack}
use trafego_flow.Common.Memory.{memory, first, insert_row}
use trafego_flow.Common.MemoryTransactions.{memory_transactions, memory_rolls_back}
use trafego_flow.Common.Action.{Post, ◌>>=◌}
use trafego_flow.Billing.Dates.{Date, date_leb, date_for_month, generate_installment_dates}
use trafego_flow.Billing.Dates.Calendar.{FallsOn}
use trafego_flow.Billing.Dates.Schedule.{
  generate_installment_dates-FallsOn, generate_installment_dates_increase,
  generate_installment_dates_first, clamped, first_number,
}
use trafego_flow.Billing.{
  ClientBillingEntity, ClientBillingInstallmentEntity, CreateClientBillingDto,
  RenewClientBillingDto, ClientBillingResponseDto, Billings, Installments, expired, pix,
  with_status, new_billing, renewed_billing, to_client_billing_response_dto,
  to_installment_response_dto,
}
use trafego_flow.Billing.Service.{create_billing, renew_billing, pay_installment}
use trafego_flow.Billing.OneActive.{
  OneActive, Request, create, renew, cancel, serve, serve-OneActive,
}
use trafego_flow.Billing.Payments.{Paid, Unpaid, pay_installment-Paid, pay_installment_once}

abbrev day_in : (year month day : ℕ) → Date
day_in year month day = record { year = year; month = month; day = day; ms = 0 }

-- installment-dates.helper.spec.ts
clamps_to_february :
    generate_installment_dates (day_in 2028 0 1) 30 2 ≡ day_in 2028 0 30 ∷ day_in 2028 1 29 ∷ []
unfolding generate_installment_dates
clamps_to_february = refl

wraps_the_year :
    generate_installment_dates (day_in 2026 10 20) 15 2 ≡ day_in 2026 11 15 ∷ day_in 2027 0 15 ∷ []
unfolding generate_installment_dates
wraps_the_year = refl

-- a start of the first century
of_the_20th_century :
    generate_installment_dates (day_in 99 11 1) 15 2 ≡ day_in 1999 11 15 ∷ day_in 100 0 15 ∷ []
unfolding generate_installment_dates
of_the_20th_century = refl

generate_installment_dates-FallsOn_example :
    (length (generate_installment_dates (day_in 2028 0 1) 30 2) ≡ 2)
    × (d : Date) × (get_elem? (generate_installment_dates (day_in 2028 0 1) 30 2) 1 ≡ some d)
    × FallsOn (clamped 30) (first_number (day_in 2028 0 1) (clamped 30) + 1) d
generate_installment_dates-FallsOn_example =
    generate_installment_dates-FallsOn (day_in 2028 0 1) 30 2 1 (omega arith) (omega arith)
      (omega arith) (omega arith)

generate_installment_dates_increase_example :
    (d : Date) × (e : Date) × (get_elem? (generate_installment_dates (day_in 2026 10 20) 15 3) 0
      ≡ some d)
    × (get_elem? (generate_installment_dates (day_in 2026 10 20) 15 3) 2 ≡ some e)
    × (date_leb e d ≡ false)
generate_installment_dates_increase_example =
    generate_installment_dates_increase (day_in 2026 10 20) 15 3 0 2 (omega arith) (omega arith)
      (omega arith) (omega arith) (omega arith)

generate_installment_dates_first_example :
    (d : Date) × (get_elem? (generate_installment_dates (day_in 2026 0 15) 10 3) 0 ≡ some d)
    × (date_leb d (day_in 2026 0 15) ≡ false)
    × ((date_leb (date_for_month 2026 0 (clamped 10)) (day_in 2026 0 15) ≡ true)
        ⊎ (date_leb d (date_for_month 2026 0 (clamped 10)) ≡ true))
generate_installment_dates_first_example =
    generate_installment_dates_first (day_in 2026 0 15) 10 3 2026 0 (omega arith) (omega arith)
      (omega arith) (omega arith) (omega arith) (omega arith) (omega arith) (omega arith)

record World : Type 0 where
  contracts : List ClientBillingEntity
  owed : List ClientBillingInstallmentEntity

abbrev billings : Billings World
billings =
    memory (λ b. b.id)
      (record {
        view = λ w. w.contracts;
        put = λ t w. record w { contracts = t };
        view-put = λ t w. refl;
      })

abbrev installments : Installments World
installments =
    memory (λ i. i.id)
      (record { view = λ w. w.owed; put = λ t w. record w { owed = t }; view-put = λ t w. refl })

apart : Separate billings installments
apart = record { get-insert = λ mk w j. refl; get-save = λ e w j. refl }

abbrev transactions : Transactions World
transactions = memory_transactions

rollback : RollsBack transactions billings
rollback = memory_rolls_back billings

abbrev now : Date
now = day_in 2026 0 5

abbrev terms : CreateClientBillingDto
terms = record {
  start_date = now;
  duration_months = 2;
  amount = 150000;
  due_day = 10;
  payment_method = pix;
  discount_type = none;
  discount_value = none;
}

abbrev next_terms : RenewClientBillingDto
next_terms = record {
  start_date = day_in 2026 2 1;
  duration_months = 1;
  amount = none;
  due_day = none;
  payment_method = none;
  discount_type = none;
  discount_value = none;
}

abbrev empty : World
empty = record { contracts = []; owed = [] }

none-ne-some : {b : ClientBillingEntity} → none ≡ some b → ⊥
none-ne-some e = cc

abbrev contract : ClientBillingEntity
contract = new_billing now "c1" terms "n"

abbrev first_part : ClientBillingInstallmentEntity
first_part = record {
  id = "n";
  client_billing_id = "n";
  installment_number = 1;
  due_date = day_in 2026 0 10;
  paid_at = none;
}

abbrev second_part : ClientBillingInstallmentEntity
second_part = record {
  id = "nn";
  client_billing_id = "n";
  installment_number = 2;
  due_date = day_in 2026 1 10;
  paid_at = none;
}

abbrev opened : World
opened = record { contracts = contract ∷ []; owed = second_part ∷ first_part ∷ [] }

abbrev opened_response : ClientBillingResponseDto
opened_response = to_client_billing_response_dto now contract (first_part ∷ second_part ∷ [])

create_runs :
    create_billing billings installments transactions now "c1" terms empty
    ≡ (ok opened_response, opened)
unfolding create_billing generate_installment_dates ◌>>=◌ first insert_row
create_runs = refl

abbrev successor : ClientBillingEntity
successor = renewed_billing now "c1" next_terms contract "nnn"

abbrev only_part : ClientBillingInstallmentEntity
only_part = record {
  id = "nnn";
  client_billing_id = "nnn";
  installment_number = 1;
  due_date = day_in 2026 2 10;
  paid_at = none;
}

abbrev renewed : World
renewed = record {
  contracts = successor ∷ with_status expired contract ∷ contract ∷ [];
  owed = only_part ∷ second_part ∷ first_part ∷ [];
}

renew_runs :
    renew_billing billings installments transactions now "c1" "n" next_terms opened
    ≡ (ok (to_client_billing_response_dto now successor (only_part ∷ [])), renewed)
unfolding renew_billing generate_installment_dates ◌>>=◌ first insert_row
renew_runs = refl

abbrev history : List (Date × Request)
history =
    (now, create "c1" terms)
    ∷ (now, create "c1" terms)
    ∷ (now, renew "c1" "n" next_terms)
    ∷ (now, cancel "c1" "nnn")
    ∷ []

serve-OneActive_example :
    OneActive (billings.get (serve billings installments transactions history empty))
serve-OneActive_example =
    serve-OneActive billings installments transactions apart rollback history empty
      (λ i j a b at_i at_j same x y. absurd (none-ne-some at_i))

pay_installment-Paid_example :
    Post
      (Paid billings installments transactions now "c1" "n" "n" opened)
      (Unpaid billings installments transactions opened)
      (pay_installment billings installments transactions now "c1" "n" "n" opened)
pay_installment-Paid_example =
    pay_installment-Paid billings installments transactions now "c1" "n" "n" opened

abbrev paid_part : ClientBillingInstallmentEntity
paid_part = record first_part { paid_at = some now }

abbrev after_payment : World
after_payment = record opened { owed = paid_part ∷ second_part ∷ first_part ∷ [] }

pay_runs :
    pay_installment billings installments transactions now "c1" "n" "n" opened
    ≡ (ok (to_installment_response_dto now paid_part), after_payment)
unfolding pay_installment ◌>>=◌ first
pay_runs = refl

pay_installment_once_example :
    (e : Exception) × (w : World) × (pay_installment billings installments transactions now "c1" "n"
        "n" after_payment
      ≡ (err e, w))
    × Unpaid billings installments transactions after_payment e w
pay_installment_once_example =
    pay_installment_once billings installments transactions now now "c1" "n" "n" "c1" "n" opened
      after_payment (to_installment_response_dto now paid_part) pay_runs
