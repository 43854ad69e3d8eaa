-- ===== src/Dispatches/Triggers.antt =====
-- modules/report-dispatches/report-dispatches.service.ts: the manual and the weekly trigger.

use trafego_flow.Common.{
  ℕ, Option, none, some, String, str_eq, or_else, List, [], ◌∷◌, map, filter, if◌then◌else◌,
}
use trafego_flow.Common.Text.{truthy?}
use trafego_flow.Common.Action.{Action, pure, ◌>>=◌, ◌>>◌}
use trafego_flow.Ai.{Numbers}
use trafego_flow.Groups.{WhatsAppGroupEntity}
use trafego_flow.Dispatches.Service.{
  Dispatched, nothing, failure, plus, otherwise, clock, build_and_send,
}
use trafego_flow.Dispatches.{TriggerDispatchDto, AdAccount, Services, Settings}
use trafego_flow.Dispatches.Texts.{get_last_monday}

-- `groupsByClient.get(clientId)`
abbrev pub groups_of :
    String → List (String × List WhatsAppGroupEntity) → Option (List WhatsAppGroupEntity)
groups_of client_id [] = none
groups_of client_id ((key, groups) ∷ rest) =
    if str_eq key client_id then some groups else groups_of client_id rest

module _ {W : Type 0} (numbers : Numbers) (services : Services W numbers.Float)
    (settings : Settings numbers.Float) where
  -- `findAll(clientId)` of the accounts, those that are active, or nothing
  unfoldable pub active_accounts : String → Action W (Option (List AdAccount))
  unfolding otherwise
  active_accounts client_id = otherwise none (
      services.find_accounts client_id >>= λ accounts.
      pure (some (filter (λ a. a.is_active) accounts)))

  -- the loop of `triggerForClient` over the accounts of a client
  unfoldable pub run_accounts :
      String → List WhatsAppGroupEntity → Option ℕ → List AdAccount → Action W Dispatched
  unfolding otherwise build_and_send
  run_accounts client_id groups week_start [] = pure nothing
  run_accounts client_id groups week_start (account ∷ accounts) = do
    one ←
        otherwise failure
          (build_and_send numbers services settings client_id account groups week_start)
    rest ← run_accounts client_id groups week_start accounts
    pure (plus one rest)

  unfoldable pub run_found :
      String → List WhatsAppGroupEntity → Option ℕ → Option (List AdAccount) → Action W Dispatched
  unfolding run_accounts
  run_found client_id groups week_start none = pure failure
  run_found client_id groups week_start (some accounts) =
      run_accounts client_id groups week_start accounts

  -- one pass of the loop of `triggerForClient` over the clients
  unfoldable pub run_client :
      String → Option (List WhatsAppGroupEntity) → Option ℕ → Action W Dispatched
  unfolding active_accounts run_found
  run_client client_id none week_start = pure nothing
  run_client client_id (some []) week_start = pure nothing
  run_client client_id (some (group ∷ groups)) week_start =
      active_accounts client_id >>= λ found. run_found client_id (group ∷ groups) week_start found

  unfoldable pub run_clients :
      List (String × List WhatsAppGroupEntity) → Option ℕ → List String → Action W Dispatched
  unfolding run_client
  run_clients groups_by_client week_start [] = pure nothing
  run_clients groups_by_client week_start (client_id ∷ client_ids) = do
    one ← run_client client_id (groups_of client_id groups_by_client) week_start
    rest ← run_clients groups_by_client week_start client_ids
    pure (plus one rest)

  -- `dto.weekStartDate ? new Date(dto.weekStartDate) : this.getLastMonday()`
  abbrev pub week_start_of : Option String → ℕ → Option ℕ
  week_start_of date now =
      if truthy? date
      then settings.parse_date (or_else date "")
      else some (get_last_monday now (settings.utc_day now))

  abbrev pub client_ids_of : Option String → List (String × List WhatsAppGroupEntity) → List String
  client_ids_of client_id groups_by_client =
      if truthy? client_id
      then or_else client_id "" ∷ []
      else map (λ entry. entry.0) groups_by_client

  -- `triggerForClient`
  unfoldable pub trigger_for_client : TriggerDispatchDto → Action W Dispatched
  unfolding run_clients clock
  trigger_for_client dto = do
    now ← clock numbers services settings
    groups_by_client ← services.find_all_active_grouped_by_client_id
    run_clients groups_by_client (week_start_of dto.week_start_date now)
        (client_ids_of dto.client_id groups_by_client)

  -- the loops of `triggerAll`
  unfoldable pub attempt_accounts :
      String → List WhatsAppGroupEntity → Option ℕ → List AdAccount → Action W (Unit {0})
  unfolding otherwise build_and_send
  attempt_accounts client_id groups week_start [] = pure tt
  attempt_accounts client_id groups week_start (account ∷ accounts) =
      otherwise tt
        (build_and_send numbers services settings client_id account groups week_start >> pure tt)
      >> attempt_accounts client_id groups week_start accounts

  unfoldable pub attempt_found :
      String → List WhatsAppGroupEntity → Option ℕ → Option (List AdAccount) → Action W (Unit {0})
  unfolding attempt_accounts
  attempt_found client_id groups week_start none = pure tt
  attempt_found client_id groups week_start (some accounts) =
      attempt_accounts client_id groups week_start accounts

  unfoldable pub attempt_client : String → List WhatsAppGroupEntity → Option ℕ → Action W (Unit {0})
  unfolding active_accounts attempt_found
  attempt_client client_id [] week_start = pure tt
  attempt_client client_id (group ∷ groups) week_start = active_accounts client_id >>= λ found.
      attempt_found client_id (group ∷ groups) week_start found

  unfoldable pub attempt_clients :
      Option ℕ → List (String × List WhatsAppGroupEntity) → Action W (Unit {0})
  unfolding attempt_client
  attempt_clients week_start [] = pure tt
  attempt_clients week_start ((client_id, groups) ∷ rest) =
      attempt_client client_id groups week_start >> attempt_clients week_start rest

  -- `triggerAll`
  unfoldable pub trigger_all : Action W (Unit {0})
  unfolding attempt_clients clock
  trigger_all = do
    now ← clock numbers services settings
    groups_by_client ← services.find_all_active_grouped_by_client_id
    attempt_clients (some (get_last_monday now (settings.utc_day now))) groups_by_client
