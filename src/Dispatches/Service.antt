-- ===== src/Dispatches/Service.antt =====
-- modules/report-dispatches/report-dispatches.service.ts: the operations of the service.
pub mod Runs
pub mod Counts
pub mod Weekly
use Prim.Native.String
use mathlib.Core.Option
use trafego_flow.Common.{
  ℕ, ◌&&◌, zero, suc, ◌+◌, Bool, true, false, Option, none, some, String, str_eq, or_else, List, [],
  ◌∷◌, map, filter, if◌then◌else◌,
}
use trafego_flow.Common.Text.{truthy?}
use trafego_flow.Common.Http.{Exception, ok}
use trafego_flow.Common.Action.{Action, pure, throw, query, catch, or_throw, ◌>>=◌, ◌>>◌}
use trafego_flow.Clients.{ClientProfileType, site_sales, message_sales, live_sales, ClientEntity}
use trafego_flow.Ai.{Numbers, InsightsSummary, CampaignSplit, split_and_aggregate_campaigns}
use trafego_flow.Groups.{WhatsAppGroupEntity}
use trafego_flow.Dispatches.{
  DispatchStatus, sent, failed, ReportDispatchLogEntity, TriggerDispatchDto, AdAccount,
  AdsetMessageRow, LiveReportData, AiReportPayload, Services, Settings, invalid_time_value,
}
use trafego_flow.Dispatches.Texts.{
  get_last_monday, get_iso_week_number, end_of_week, format_report_text, format_error_text,
  alert_text, from_snapshot, compute_deltas,
}

-- The answer of a trigger: how many groups got a report, and how many failures there were.
pub record Dispatched : Type 0 where
  pub dispatched : ℕ
  pub failed_ : ℕ

abbrev pub nothing : Dispatched
nothing = record { dispatched = 0; failed_ = 0 }

abbrev pub failure : Dispatched
failure = record { dispatched = 0; failed_ = 1 }

abbrev pub plus : Dispatched → Dispatched → Dispatched
plus a b = record { dispatched = a.dispatched + b.dispatched; failed_ = a.failed_ + b.failed_ }

-- `status === SENT ? dispatched++ : failed++`
abbrev pub count_of : DispatchStatus → Dispatched
count_of sent = record { dispatched = 1; failed_ = 0 }
count_of failed = failure

-- the same, by the log that was found
abbrev pub count_status : Option ReportDispatchLogEntity → Dispatched
count_status none = failure
count_status (some log) = count_of log.status

-- a call whose failure is only logged, with the value that stands for its result then
unfoldable pub otherwise : {W A : Type 0} → A → Action W A → Action W A
otherwise default m = catch m λ e. pure default

module _ {W : Type 0} (numbers : Numbers) (services : Services W numbers.Float)
    (settings : Settings numbers.Float) where
  -- `sendManagerAlert`
  unfoldable pub send_manager_alert :
      (client_id ad_account_id since until error_message : String) → Action W (Unit {0})
  unfolding otherwise
  send_manager_alert client_id ad_account_id since until error_message =
      if truthy? settings.managers_group_jid
      then otherwise tt (
          services.send_message (or_else settings.managers_group_jid "")
            (alert_text client_id ad_account_id since until error_message))
      else pure tt

  -- `new Date()`
  unfoldable pub clock : Action W ℕ
  clock = query (λ w. ok (services.now w))

  abbrev pub sent_log :
      (client_id ad_account_id group_jid : String) → (week_start now : ℕ) → ReportDispatchLogEntity
  sent_log client_id ad_account_id group_jid week_start now = record {
    client_id = client_id;
    group_jid = group_jid;
    ad_account_id = ad_account_id;
    week_start_date = week_start;
    status = sent;
    error_message = none;
    sent_at = some now;
  }

  abbrev pub failed_log :
      (client_id ad_account_id group_jid : String) → ℕ → Exception → ReportDispatchLogEntity
  failed_log client_id ad_account_id group_jid week_start e = record {
    client_id = client_id;
    group_jid = group_jid;
    ad_account_id = ad_account_id;
    week_start_date = week_start;
    status = failed;
    error_message = some (settings.error_message e);
    sent_at = none;
  }

  -- `sendToGroup`
  unfoldable pub send_to_group :
      (client_id ad_account_id group_jid : String)
      → ℕ
      → (text since until : String) → Action W (Unit {0})
  unfolding send_manager_alert clock
  send_to_group client_id ad_account_id group_jid week_start text since until =
      catch
        (services.send_message group_jid text
          >> (clock >>= λ now.
              services.save_log (sent_log client_id ad_account_id group_jid week_start now)))
        λ e.
          services.save_log (failed_log client_id ad_account_id group_jid week_start e)
          >> send_manager_alert client_id ad_account_id since until (settings.error_message e)

  -- the loop of `buildAndSend` over the groups; the random delay between them is left out
  unfoldable pub send_to_groups :
      (client_id ad_account_id : String)
      → ℕ
      → (text since until : String) → List WhatsAppGroupEntity
      → Action W Dispatched
  unfolding send_to_group
  send_to_groups client_id ad_account_id week_start text since until [] = pure nothing
  send_to_groups client_id ad_account_id week_start text since until (group ∷ groups) = do
    send_to_group client_id ad_account_id group.group_jid week_start text since until
    log ← services.find_last_log client_id group.group_jid week_start
    rest ← send_to_groups client_id ad_account_id week_start text since until groups
    pure (plus (count_status log) rest)

  -- the insights of the week, split and summed up, or nothing
  unfoldable pub insights_of :
      (ad_account_id since until : String) → Action W (Option (CampaignSplit numbers.Float))
  unfolding otherwise
  insights_of ad_account_id since until = otherwise none (
      services.get_insights ad_account_id since until >>= λ rows.
      pure
        (some (split_and_aggregate_campaigns numbers (elim rows [ none ↦ [] | some rows ↦ rows ]))))

  -- the strategy and the profile of the client
  unfoldable pub client_context :
      (client_id : String) → Action W (Option String × ClientProfileType)
  unfolding otherwise
  client_context client_id =
      otherwise (none, site_sales)
        (services.find_client client_id >>= λ client. pure (
          client.ai_strategy_context,
          elim client.profile_type [ none ↦ site_sales | some profile ↦ profile ],
        ))

  unfoldable pub adset_rows_of :
      ClientProfileType
      → (ad_account_id since until : String)
      → Action W (Option (List (AdsetMessageRow numbers.Float)))
  unfolding otherwise
  adset_rows_of message_sales ad_account_id since until =
      otherwise none
        (services.get_adset_message_rows ad_account_id since until >>= λ rows. pure (some rows))
  adset_rows_of _ ad_account_id since until = pure none

  unfoldable pub live_data_of :
      ClientProfileType
      → (ad_account_id : String) → Action W (Option (List (LiveReportData numbers.Float)))
  unfolding otherwise
  live_data_of live_sales ad_account_id =
      otherwise none (services.get_live_report_data ad_account_id >>= λ data_. pure (some data_))
  live_data_of _ ad_account_id = pure none

  -- the text of a report for which there are insights
  unfoldable pub report_text :
      (client_id : String)
      → AdAccount
      → ℕ
      → (since until : String) → CampaignSplit numbers.Float
      → Action W String
  unfolding otherwise client_context adset_rows_of live_data_of
  report_text client_id account week_start since until split = do
    otherwise tt (services.save_snapshot account.ad_account_id client_id week_start split.total)
    snapshot ← otherwise none (services.find_previous_snapshot account.ad_account_id week_start)
    (context, profile) ← client_context client_id
    adset_rows ← adset_rows_of profile account.ad_account_id since until
    live_data ← live_data_of profile account.ad_account_id
    let previous = Option.map (from_snapshot numbers) snapshot in
        let fallback =
          format_report_text numbers.Float settings
            (or_else account.account_name account.ad_account_id) since until split.total in
        otherwise fallback (
          services.generate_report (record {
            period = record {
              since = since;
              until = until;
              week_number = get_iso_week_number numbers.Float settings week_start;
            };
            current = split.total;
            previous = previous;
            deltas = compute_deltas numbers split.total previous;
            acquisition = split.acquisition;
            sales = split.sales;
            client_profile = profile;
            client_context = context;
            adset_rows = adset_rows;
            live_data = live_data;
          })
          >>= λ text. pure (
              if truthy? (some text) && truthy? (some (settings.trim text))
              then text
              else fallback))

  unfoldable pub text_of :
      (client_id : String)
      → AdAccount
      → ℕ
      → (since until : String) → Option (CampaignSplit numbers.Float)
      → Action W String
  unfolding report_text
  text_of client_id account week_start since until none = pure (
      format_error_text numbers.Float settings (or_else account.account_name account.ad_account_id)
        since until)
  text_of client_id account week_start since until (some split) =
      report_text client_id account week_start since until split

  -- `buildAndSend`; an Invalid Date cannot be written, nor can one whose week ends too late
  unfoldable pub build_and_send :
      (client_id : String) → AdAccount → List WhatsAppGroupEntity → Option ℕ → Action W Dispatched
  unfolding insights_of text_of send_to_groups
  build_and_send client_id account groups none = throw invalid_time_value
  build_and_send client_id account groups (some week_start) = do
    since ← or_throw (settings.iso_date week_start) invalid_time_value
    until ←
        or_throw (settings.iso_date (end_of_week numbers.Float settings week_start))
          invalid_time_value
    split ← insights_of account.ad_account_id since until
    text ← text_of client_id account week_start since until split
    send_to_groups client_id account.ad_account_id week_start text since until groups
