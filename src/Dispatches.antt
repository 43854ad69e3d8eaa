-- ===== src/Dispatches.antt =====
-- modules/report-dispatches: the weekly reports to the WhatsApp groups of the clients.
pub mod Texts
pub mod Week
pub mod Service
pub mod Triggers
mod Tests
use Prim.Native.String
use trafego_flow.Common.{ℕ, Bool, Option, String, List}
use trafego_flow.Common.Http.{Exception, failure}
use trafego_flow.Common.Action.{Action}
use trafego_flow.Clients.{ClientProfileType, ClientEntity}
use trafego_flow.Groups.{WhatsAppGroupEntity}
use trafego_flow.Insights.{MetaInsights}
use trafego_flow.Ai.{Numbers, InsightsSummary}

pub data DispatchStatus : Type 0 where
  sent failed : DispatchStatus

-- The columns of a log that the service sets; times are milliseconds.
pub record ReportDispatchLogEntity : Type 0 where
  pub client_id : String
  pub group_jid : String
  pub ad_account_id : String
  pub week_start_date : ℕ
  pub status : DispatchStatus
  pub error_message : Option String
  pub sent_at : Option ℕ

pub record TriggerDispatchDto : Type 0 where
  pub client_id : Option String
  pub week_start_date : Option String

-- What the service reads of an ad account.
pub record AdAccount : Type 0 where
  pub ad_account_id : String
  pub account_name : Option String
  pub is_active : Bool

pub record AdsetMessageRow (Float : Type 0) : Type 0 where
  pub adset_name : String
  pub messages_started : ℕ
  pub cost_per_message : Option Float
  pub start_date : String

pub record AdReachRow : Type 0 where
  pub ad_name : String
  pub reach : ℕ

pub record LiveReportData (Float : Type 0) : Type 0 where
  pub live_date : String
  pub captation_spend : Float
  pub captation_reach : ℕ
  pub captation_clicks : ℕ
  pub ad_reaches : List AdReachRow

pub record Period : Type 0 where
  pub since : String
  pub until : String
  pub week_number : ℕ

pub record AiReportPayload (Float : Type 0) : Type 0 where
  pub period : Period
  pub current : InsightsSummary Float
  pub previous : Option (InsightsSummary Float)
  pub deltas : List (String × Option Float)
  pub acquisition : Option (InsightsSummary Float)
  pub sales : Option (InsightsSummary Float)
  pub client_profile : ClientProfileType
  pub client_context : Option String
  pub adset_rows : Option (List (AdsetMessageRow Float))
  pub live_data : Option (List (LiveReportData Float))

-- `snapshotJson`, which older rows hold in the form of Meta
pub data SnapshotJson (Float : Type 0) : Type 0 where
  summarised : InsightsSummary Float → SnapshotJson Float
  as_meta : MetaInsights → SnapshotJson Float

-- The services that the dispatches call. A `Map` is the list of its entries.
pub record Services (W Float : Type 0) : Type 0 where
  -- the clock
  pub now : W → ℕ
  pub find_all_active_grouped_by_client_id : Action W (List (String × List WhatsAppGroupEntity))
  pub find_accounts : (client_id : String) → Action W (List AdAccount)
  pub get_insights : (ad_account_id since until : String) → Action W (Option (List MetaInsights))
  pub save_snapshot :
      (ad_account_id client_id : String) → ℕ → InsightsSummary Float → Action W (Unit {0})
  pub find_previous_snapshot : (ad_account_id : String) → ℕ → Action W (Option (SnapshotJson Float))
  pub find_client : (client_id : String) → Action W ClientEntity
  pub get_adset_message_rows :
      (ad_account_id since until : String) → Action W (List (AdsetMessageRow Float))
  pub get_live_report_data : (ad_account_id : String) → Action W (List (LiveReportData Float))
  pub generate_report : AiReportPayload Float → Action W String
  pub send_message : (group_jid text : String) → Action W (Unit {0})
  -- the repository of the logs: a new row, and the newest one of a client, a group and a week
  pub save_log : ReportDispatchLogEntity → Action W (Unit {0})
  pub find_last_log : (client_id group_jid : String) → ℕ → Action W (Option ReportDispatchLogEntity)

-- the RangeError of `toISOString`
abbrev pub invalid_time_value : Exception
invalid_time_value = failure "Invalid time value"

-- What the code uses of JavaScript's dates and formats, of the configuration and of errors.
-- `parse_date` is `new Date(s)`, nothing for an Invalid Date, which some texts that pass
-- `@IsISO8601` have; a date is not before 1970. `iso_date` is `toISOString().slice(0, 10)`,
-- nothing for a time out of the range of dates, where the code throws a RangeError. A day of
-- the week counts from Sunday.
pub record Settings (Float : Type 0) : Type 0 where
  pub managers_group_jid : Option String
  pub parse_date : String → Option ℕ
  pub iso_date : ℕ → Option String
  pub utc_day : ℕ → ℕ
  pub year_start : ℕ → ℕ
  pub trim : String → String
  pub error_message : Exception → String
  pub decimals : Float → String
  pub thousands : ℕ → String
