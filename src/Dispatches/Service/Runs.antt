-- ===== src/Dispatches/Service/Runs.antt =====
-- modules/report-dispatches/report-dispatches.service.ts: a run goes on whatever fails.
use trafego_flow.Common.{ℕ, ◌≡◌, refl, Option, none, some, String, List, [], ◌∷◌}
use trafego_flow.Common.Http.{Exception, Result, ok, err}
use trafego_flow.Common.Action.{Action, pure, query, catch, ◌>>=◌, handled, bind_returns}
use trafego_flow.Clients.{ClientProfileType, site_sales, message_sales, live_sales}
use trafego_flow.Ai.{Numbers, CampaignSplit}
use trafego_flow.Groups.{WhatsAppGroupEntity}
use trafego_flow.Dispatches.{TriggerDispatchDto, AdAccount, Services, Settings}
use trafego_flow.Dispatches.Service.{
  Dispatched, nothing, failure, plus, otherwise, clock, insights_of, client_context, adset_rows_of,
  live_data_of, report_text, text_of,
}
use trafego_flow.Dispatches.Triggers.{
  active_accounts, run_accounts, run_found, run_client, run_clients, groups_of, trigger_for_client,
}

-- An action that returns in every world.
pub record Returns {W A : Type 0} (m : Action W A) : Type 0 where
  pub at : (w : W) → (a : A) × (v : W) × (m w ≡ (ok a, v))

module _ {W A : Type 0} where
  pub pure-Returns : (a : A) → Returns {W = W} (pure a)
  unfolding pure
  pure-Returns a = record { at = λ w. (a, w, refl) }

  pub otherwise-Returns : (default : A) (m : Action W A) → Returns (otherwise default m)
  unfolding otherwise catch pure
  otherwise-Returns default m = record { at = λ w. go (m w) }
    where
      go : (x : Result A × W) → (a : A) × (v : W) × (handled (λ e. pure default) x ≡ (ok a, v))
      go (ok a, v) = (a, v, refl)
      go (err e, v) = (default, v, refl)

  pub bind-Returns :
      {B : Type 0} (m : Action W A) (f : A → Action W B)
      → Returns m
      → ((a : A) → Returns (f a))
      → Returns (m >>= f)
  bind-Returns m f first second = record {
    at = λ w.
        let (a, v, e) = first.at w in
        let (b, u, k) = (second a).at v in (b, u, bind_returns m f w e k);
  }

  -- An action that returns does not throw.
  pub Returns-throws :
      {C : Type 0} (m : Action W A) (w : W) {e : Exception} {w' : W}
      → Returns m
      → m w ≡ (err e, w')
      → C
  Returns-throws m w returns h = let (a, v, k) = returns.at w in absurd (cc (h, k))

module _ {W : Type 0} (numbers : Numbers) (services : Services W numbers.Float)
    (settings : Settings numbers.Float) where
  pub insights_of-Returns :
      (ad_account_id since until : String)
      → Returns (insights_of numbers services settings ad_account_id since until)
  unfolding insights_of
  insights_of-Returns ad_account_id since until = otherwise-Returns none _

  adset_rows_of-Returns :
      (profile : ClientProfileType) (ad_account_id since until : String)
      → Returns (adset_rows_of numbers services settings profile ad_account_id since until)
  unfolding adset_rows_of
  adset_rows_of-Returns site_sales a since until = pure-Returns none
  adset_rows_of-Returns message_sales a since until = otherwise-Returns none _
  adset_rows_of-Returns live_sales a since until = pure-Returns none

  live_data_of-Returns :
      (profile : ClientProfileType) (ad_account_id : String)
      → Returns (live_data_of numbers services settings profile ad_account_id)
  unfolding live_data_of
  live_data_of-Returns site_sales a = pure-Returns none
  live_data_of-Returns message_sales a = pure-Returns none
  live_data_of-Returns live_sales a = otherwise-Returns none _

  report_text-Returns :
      (client_id : String) (account : AdAccount) (week_start : ℕ) (since until : String)
      (split : CampaignSplit numbers.Float)
      → Returns
          (report_text numbers services settings client_id account week_start since until split)
  unfolding report_text client_context
  report_text-Returns client_id account week_start since until split =
      bind-Returns _ _ (otherwise-Returns tt _) λ _.
        bind-Returns _ _ (otherwise-Returns none _) λ snapshot.
          bind-Returns _ _ (otherwise-Returns (none, site_sales) _) λ context.
            bind-Returns _ _ (adset_rows_of-Returns context.1 account.ad_account_id since until)
              λ adset_rows.
                bind-Returns _ _ (live_data_of-Returns context.1 account.ad_account_id)
                  λ live_data. otherwise-Returns _ _

  pub text_of-Returns :
      (client_id : String) (account : AdAccount) (week_start : ℕ) (since until : String)
      (split : Option (CampaignSplit numbers.Float))
      → Returns (text_of numbers services settings client_id account week_start since until split)
  unfolding text_of
  text_of-Returns client_id account week_start since until none = pure-Returns _
  text_of-Returns client_id account week_start since until (some split) =
      report_text-Returns client_id account week_start since until split

  pub run_accounts-Returns :
      (client_id : String) (groups : List WhatsAppGroupEntity) (week_start : Option ℕ)
      (accounts : List AdAccount)
      → Returns (run_accounts numbers services settings client_id groups week_start accounts)
  unfolding run_accounts
  run_accounts-Returns client_id groups week_start [] = pure-Returns nothing
  run_accounts-Returns client_id groups week_start (account ∷ accounts) =
      bind-Returns _ _ (otherwise-Returns failure _) λ one.
        bind-Returns _ _ (run_accounts-Returns client_id groups week_start accounts)
          λ rest. pure-Returns (plus one rest)

  pub run_found-Returns :
      (client_id : String) (groups : List WhatsAppGroupEntity) (week_start : Option ℕ)
      (accounts : Option (List AdAccount))
      → Returns (run_found numbers services settings client_id groups week_start accounts)
  unfolding run_found
  run_found-Returns client_id groups week_start none = pure-Returns failure
  run_found-Returns client_id groups week_start (some accounts) =
      run_accounts-Returns client_id groups week_start accounts

  pub run_client-Returns :
      (client_id : String) (groups : Option (List WhatsAppGroupEntity)) (week_start : Option ℕ)
      → Returns (run_client numbers services settings client_id groups week_start)
  unfolding run_client active_accounts
  run_client-Returns client_id none week_start = pure-Returns nothing
  run_client-Returns client_id (some []) week_start = pure-Returns nothing
  run_client-Returns client_id (some (group ∷ groups)) week_start =
      bind-Returns _ _ (otherwise-Returns none _)
        λ found. run_found-Returns client_id (group ∷ groups) week_start found

  pub run_clients-Returns :
      (groups : List (String × List WhatsAppGroupEntity)) (week_start : Option ℕ)
      (client_ids : List String)
      → Returns (run_clients numbers services settings groups week_start client_ids)
  unfolding run_clients
  run_clients-Returns groups week_start [] = pure-Returns nothing
  run_clients-Returns groups week_start (client_id ∷ client_ids) =
      bind-Returns _ _ (run_client-Returns client_id (groups_of client_id groups) week_start) λ one.
        bind-Returns _ _ (run_clients-Returns groups week_start client_ids)
          λ rest. pure-Returns (plus one rest)

  -- Where the active groups could be read, a trigger of the reports returns its counts, whatever
  -- fails of the accounts, the insights, the texts, the messages and the logs.
  pub trigger_for_client_returns :
      (dto : TriggerDispatchDto) (w v : W) (groups : List (String × List WhatsAppGroupEntity))
      → services.find_all_active_grouped_by_client_id w ≡ (ok groups, v)
      → (r : Dispatched) × (w' : W) × (trigger_for_client numbers services settings dto w
          ≡ (ok r, w'))
  unfolding trigger_for_client clock query
  trigger_for_client_returns dto w v groups found =
      let (r, w', e) = (run_clients-Returns groups _ _).at v in
      (r, w', bind_returns _ _ w refl (bind_returns _ _ w found e))
