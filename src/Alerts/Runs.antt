-- ===== src/Alerts/Runs.antt =====
-- modules/adset-alerts/adset-alerts.service.ts: the run of a job.

use Prim.Native.String.{◌++◌}
use mathlib.Core.List.{◌++◌ as append}
use trafego_flow.Common.{
  ℕ, zero, suc, Option, none, some, String, str_eq, or_else, List, [], ◌∷◌, filter, if◌then◌else◌,
}
use trafego_flow.Common.Text.{truthy?}
use trafego_flow.Common.Http.{Exception}
use trafego_flow.Common.Action.{Action, pure, catch, ◌>>=◌, ◌>>◌}
use trafego_flow.Clients.{ClientEntity}
use trafego_flow.Insights.{MetaAction, MetaInsights}
use trafego_flow.Dispatches.{AdAccount}
use trafego_flow.Alerts.{AlertJobEntity, Roas, AdsetRow, ClientBucket, format_message}

-- What the service reads of an ad set of Meta.
pub record MetaAdset : Type 0 where
  pub id : String
  pub name : String
  pub updated_time : String
  pub effective_status : String

pub record AdsetAlertSnapshot (Float : Type 0) : Type 0 where
  pub job_id : String
  pub client_id : String
  pub ad_account_id : String
  pub adset_id : String
  pub adset_name : String
  pub roas : Option Float
  pub updated_time : String

-- The services that a run calls; a snapshot is stored unsent, and answered by its id.
pub record AlertServices (W Float : Type 0) : Type 0 where
  pub find_active : Action W (List AlertJobEntity)
  pub find_clients : Action W (List ClientEntity)
  pub find_accounts : (client_id : String) → Action W (List AdAccount)
  pub list_adsets : (ad_account_id : String) → Action W (List MetaAdset)
  pub get_adset_insights :
      (adset_id ad_account_id since today : String) → Action W (Option MetaInsights)
  pub send_message : (group_jid text : String) → Action W (Unit {0})
  pub save_snapshot : AdsetAlertSnapshot Float → Action W String
  pub mark_sent : List String → Action W (Unit {0})
  pub managers_group_jid : Option String
  pub today : String
  pub trim : String → String
  -- `String(err)`
  pub text_of : Exception → String

-- `s.slice(0, n)`
abbrev pub slice : ℕ → String → String
slice zero s = ""
slice (suc n) String.[] = ""
slice (suc n) (String.◌∷◌ c s) = String.◌∷◌ c (slice n s)

-- The variables of `runForJob`; a map is the list of its entries.
pub record Progress (Float : Type 0) : Type 0 where
  pub errors : List String
  pub client_buckets : List (String × ClientBucket Float)
  pub snapshot_ids : List String

-- the row goes last in the client's bucket, which is new if there is none
abbrev pub add_row :
    {Float : Type 0}
    → (client_id client_name : String) → AdsetRow Float
    → List (String × ClientBucket Float)
    → List (String × ClientBucket Float)
add_row client_id client_name row [] =
    (client_id, record { client_name = client_name; adsets = row ∷ [] }) ∷ []
add_row client_id client_name row ((key, bucket) ∷ rest) =
    if str_eq key client_id
    then (key, record bucket { adsets = append bucket.adsets (row ∷ []) }) ∷ rest
    else (key, bucket) ∷ add_row client_id client_name row rest

module _ {W : Type 0} (numbers : Roas) (services : AlertServices W numbers.Float) where
  abbrev pub first_value : Option (List MetaAction) → String
  first_value (some (a ∷ actions)) = a.value
  first_value _ = "0"

  -- the return of an ad set, if it is positive
  abbrev pub roas_of : Option MetaInsights → Option numbers.Float
  roas_of none = none
  roas_of (some insights) =
      let raw = numbers.parse_float (first_value insights.purchase_roas) in
      if numbers.is_positive raw then some raw else none

  abbrev pub with_error :
      (client_name about : String) → Exception → Progress numbers.Float → Progress numbers.Float
  with_error client_name about e progress = record progress {
    errors =
        append progress.errors
          ((client_name ++ (" / " ++ (about ++ (": " ++ services.text_of e)))) ∷ []);
  }

  -- the return, and the progress with the error of a failure
  unfoldable pub read_roas :
      (client_name ad_account_id : String)
      → MetaAdset
      → Progress numbers.Float
      → Action W (Option numbers.Float × Progress numbers.Float)
  read_roas client_name ad_account_id adset progress =
      catch
        (services.get_adset_insights adset.id ad_account_id (slice 10 adset.updated_time)
            services.today
          >>= λ insights. pure (roas_of insights, progress))
        λ e. pure (none, with_error client_name adset.name e progress)

  -- the body of the loop over the active ad sets
  unfoldable pub run_adset :
      (job_id client_id client_name ad_account_id : String)
      → MetaAdset
      → Progress numbers.Float
      → Action W (Progress numbers.Float)
  unfolding read_roas
  run_adset job_id client_id client_name ad_account_id adset progress = do
    (roas, progress) ← read_roas client_name ad_account_id adset progress
    saved ← services.save_snapshot (record {
      job_id = job_id;
      client_id = client_id;
      ad_account_id = ad_account_id;
      adset_id = adset.id;
      adset_name = adset.name;
      roas = roas;
      updated_time = slice 10 adset.updated_time;
    })
    pure (record progress {
      snapshot_ids = append progress.snapshot_ids (saved ∷ []);
      client_buckets =
          add_row client_id client_name
            (record {
              adset_name = adset.name;
              roas = roas;
              updated_time = slice 10 adset.updated_time;
            })
            progress.client_buckets;
    })

  -- `for (const x of xs)`, with the variables passed on
  unfoldable pub each_with :
      {A : Type 0}
      → (A → Progress numbers.Float → Action W (Progress numbers.Float))
      → List A
      → Progress numbers.Float
      → Action W (Progress numbers.Float)
  each_with f [] progress = pure progress
  each_with f (x ∷ xs) progress = f x progress >>= λ next. each_with f xs next

  -- the ad sets of an account, or the error of their listing
  unfoldable pub adsets_of :
      (client_name ad_account_id : String)
      → Progress numbers.Float
      → Action W (List MetaAdset × Progress numbers.Float)
  adsets_of client_name ad_account_id progress =
      catch (services.list_adsets ad_account_id >>= λ adsets. pure (adsets, progress))
        λ e. pure ([], with_error client_name ad_account_id e progress)

  unfoldable pub run_account :
      (job_id client_id client_name : String)
      → AdAccount
      → Progress numbers.Float
      → Action W (Progress numbers.Float)
  unfolding adsets_of each_with run_adset
  run_account job_id client_id client_name account progress = do
    (adsets, progress) ← adsets_of client_name account.ad_account_id progress
    each_with (run_adset job_id client_id client_name account.ad_account_id)
        (filter (λ a. str_eq a.effective_status "ACTIVE") adsets) progress

  unfoldable pub run_client :
      (job_id : String) → ClientEntity → Progress numbers.Float → Action W (Progress numbers.Float)
  unfolding each_with run_account
  run_client job_id client progress = do
    accounts ← services.find_accounts client.id
    each_with (run_account job_id client.id client.name) (filter (λ a. a.is_active) accounts)
        progress

  abbrev pub clients_of : Option String → List ClientEntity → List ClientEntity
  clients_of client_id clients =
      if truthy? client_id
      then filter (λ c. str_eq c.id (or_else client_id "")) clients
      else clients

  -- the message to the managers, whose failure is only logged
  unfoldable pub tell_managers : Option String → Progress numbers.Float → Action W (Unit {0})
  unfolding format_message
  tell_managers jid progress =
      if truthy? jid
      then catch
          (services.send_message (or_else jid "")
              (format_message numbers services.trim progress.client_buckets progress.errors)
            >> elim progress.snapshot_ids [
              | [] ↦ pure tt
              | ◌∷◌ id ids ↦ services.mark_sent (id ∷ ids)
            ])
          (λ e. pure tt)
      else pure tt

  -- the loop of `runForJob` over the clients of the job
  unfoldable pub gather : AlertJobEntity → List ClientEntity → Action W (Progress numbers.Float)
  unfolding each_with run_client
  gather job clients =
      each_with (run_client job.id) (clients_of job.client_id clients)
        (record { errors = []; client_buckets = []; snapshot_ids = [] })

  -- `runForJob`
  unfoldable pub run_for_job : AlertJobEntity → Action W (Unit {0})
  unfolding gather tell_managers
  run_for_job job = do
    clients ← services.find_clients
    progress ← gather job clients
    tell_managers services.managers_group_jid progress

  unfoldable pub run_jobs : List AlertJobEntity → Action W (Unit {0})
  unfolding run_for_job
  run_jobs [] = pure tt
  run_jobs (job ∷ jobs) = run_for_job job >> run_jobs jobs

  -- `triggerAll`
  unfoldable pub trigger_all : Action W (Unit {0})
  unfolding run_jobs
  trigger_all = services.find_active >>= λ jobs. run_jobs jobs
