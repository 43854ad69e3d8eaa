-- ===== src/Dispatches/Texts.antt =====
-- modules/report-dispatches/report-dispatches.service.ts: the week, the numbers and the texts.

use Prim.Native.String.{◌++◌}
use trafego_flow.Common.{
  ℕ, ◌+◌, ◌-◌, ◌*◌, ◌/◌, ◌%◌, ◌==◌, Option, none, some, String, List, [], ◌∷◌, if◌then◌else◌,
}
use trafego_flow.Common.Text.{join_with}
use trafego_flow.Insights.{MetaInsights}
use trafego_flow.Ai.{Numbers, InsightsSummary, find_action}
use trafego_flow.Dispatches.{Settings, SnapshotJson, summarised, as_meta}

abbrev pub day_ms : ℕ
day_ms = 86400000

-- the day of the week as `getUTCDay() || 7`: from Monday, 1, to Sunday, 7
abbrev pub weekday : ℕ → ℕ
weekday day = if day == 0 then 7 else day

-- `getLastMonday`: midnight of the Monday of the week before
unfoldable pub get_last_monday : (now day : ℕ) → ℕ
get_last_monday now day =
    let diff = if day == 0 then 6 else day - 1 in
    let monday = now - (diff + 7) * day_ms in monday - monday % day_ms

module _ (Float : Type 0) (settings : Settings Float) where
  -- `getISOWeekNumber`: the week of the year that the week's Thursday falls in
  abbrev pub get_iso_week_number : ℕ → ℕ
  get_iso_week_number date =
      let day = date - date % day_ms in
      let thursday = day + 4 * day_ms - weekday (settings.utc_day day) * day_ms in
      let days = (thursday - settings.year_start thursday) / day_ms in (days + 1 + 6) / 7

  abbrev pub end_of_week : ℕ → ℕ
  end_of_week week_start = week_start + 6 * day_ms

  -- `formatReportText`
  abbrev pub format_report_text :
      (account_name since until : String) → InsightsSummary Float → String
  format_report_text account_name since until insights = join_with "\n" (
      "Relatório Semanal"
      ∷ ("Período: " ++ (since ++ (" a " ++ until)))
      ∷ ("Conta: " ++ account_name)
      ∷ ""
      ∷ ("Investimento: R$ " ++ settings.decimals insights.spend)
      ∷ ("Impressões: " ++ settings.thousands insights.impressions)
      ∷ ("Cliques: " ++ settings.thousands insights.clicks)
      ∷ ("CTR: " ++ (settings.decimals insights.ctr ++ "%"))
      ∷ ("CPM: R$ " ++ settings.decimals insights.cpm)
      ∷ ""
      ∷ "Enviado automaticamente por TráfegoFlow"
      ∷ [])

  -- `formatErrorText`
  abbrev pub format_error_text : (account_name since until : String) → String
  format_error_text account_name since until = join_with "\n" (
      "Relatório Semanal"
      ∷ ("Conta: " ++ account_name)
      ∷ ("Período: " ++ (since ++ (" a " ++ until)))
      ∷ ""
      ∷ "Não foi possível carregar os dados desta semana. Por favor, verifique manualmente."
      ∷ ""
      ∷ "Enviado automaticamente por TráfegoFlow"
      ∷ [])

-- the text of `sendManagerAlert`
abbrev pub alert_text : (client_id ad_account_id since until error_message : String) → String
alert_text client_id ad_account_id since until error_message =
    "⚠\u{fe0f} Falha no dispatch — "
    ++ (client_id
        ++ (" / "
            ++ (ad_account_id
                ++ ("\nSemana: "
                    ++ (since ++ (" a " ++ (until ++ ("\nErro: " ++ error_message))))))))

module _ (numbers : Numbers) where
  -- `toInsightsSummary`
  abbrev pub to_insights_summary : MetaInsights → InsightsSummary numbers.Float
  to_insights_summary insights = record {
    spend = numbers.parse_float insights.spend;
    reach = numbers.parse_int insights.reach;
    impressions = numbers.parse_int insights.impressions;
    clicks = numbers.parse_int insights.clicks;
    ctr = numbers.parse_float insights.ctr;
    cpm = numbers.parse_float insights.cpm;
    purchases = find_action numbers insights.actions "purchase";
    add_to_cart = find_action numbers insights.actions "add_to_cart";
    page_views = find_action numbers insights.actions "landing_page_view";
    content_views = find_action numbers insights.actions "view_content";
    checkout_initiated = find_action numbers insights.actions "initiate_checkout";
    messages_started = find_action numbers insights.actions "messaging_conversation_started_7d";
    live_views = find_action numbers insights.actions "video_play";
  }

  abbrev pub from_snapshot : SnapshotJson numbers.Float → InsightsSummary numbers.Float
  from_snapshot (summarised s) = s
  from_snapshot (as_meta insights) = to_insights_summary insights

  -- the change of one number, relative to the previous one
  abbrev pub delta : (current previous : numbers.Float) → Option numbers.Float
  delta current previous =
      if numbers.is_positive previous
      then some (numbers.div (numbers.sub current previous) previous)
      else none

  abbrev pub count_delta : (current previous : ℕ) → Option numbers.Float
  count_delta current previous = delta (numbers.of_count current) (numbers.of_count previous)

  -- `computeDeltas`
  abbrev pub compute_deltas :
      InsightsSummary numbers.Float
      → Option (InsightsSummary numbers.Float)
      → List (String × Option numbers.Float)
  compute_deltas current none = []
  compute_deltas current (some previous) =
      ("spend", delta current.spend previous.spend)
      ∷ ("reach", count_delta current.reach previous.reach)
      ∷ ("impressions", count_delta current.impressions previous.impressions)
      ∷ ("clicks", count_delta current.clicks previous.clicks)
      ∷ ("ctr", delta current.ctr previous.ctr)
      ∷ ("cpm", delta current.cpm previous.cpm)
      ∷ ("purchases", count_delta current.purchases previous.purchases)
      ∷ ("addToCart", count_delta current.add_to_cart previous.add_to_cart)
      ∷ ("pageViews", count_delta current.page_views previous.page_views)
      ∷ ("contentViews", count_delta current.content_views previous.content_views)
      ∷ ("checkoutInitiated", count_delta current.checkout_initiated previous.checkout_initiated)
      ∷ ("messagesStarted", count_delta current.messages_started previous.messages_started)
      ∷ ("liveViews", count_delta current.live_views previous.live_views)
      ∷ []
