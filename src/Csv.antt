-- ===== src/Csv.antt =====
-- common/csv/csv-formatter.service.ts: a table of insights as a text of comma-separated values.
pub mod Reader
pub mod Fields
pub mod RoundTrip
mod Tests
use Prim.Native.Char.{Char, code}
use Prim.Native.String
use mathlib.Core.Option
use Prim.Native.String.{◌++◌}
use trafego_flow.Common.{
  Bool, true, false, ◌||◌, Option, none, some, String, str_eq, List, [], ◌∷◌, map, find?, ◌==◌,
  if◌then◌else◌,
}
use trafego_flow.Common.Text.{split, join_with}
use trafego_flow.Insights.{
  MetaInsightsColumn, campaign_id, campaign_name, adset_name, ad_name, thumbnail_url,
  instagram_permalink_url, date_start, date_stop, impressions, clicks, reach, frequency,
  unique_clicks, spend, cpm, cpc, cost_per_unique_click, ctr, age, gender, country, region,
  publisher_platform, device_platform, link_clicks, landing_page_views, leads, purchases,
  messaging_conversations_started, purchase_roas, video_plays, video_p25, video_p50, video_p75,
  video_p100, ColumnType, text, count, monetary, percentage, decimal, date, MetaAction,
  MetaInsights, column_meta,
}

-- What the code uses of JavaScript's numbers and of their formats in `pt-BR`: each from the text
-- that Meta sent, and the sum of several such, printed.
pub record Numbers : Type 0 where
  pub currency_brl : String → String
  pub two_digits : String → String
  pub rounded : String → String
  pub sum : List String → String

-- `value.includes(c)` for one character
pub has : Char → String → Bool
has c String.[] = false
has c (String.◌∷◌ d s) = (code d == code c) || has c s

-- `value.replace(/"/g, '""')`
pub double_quotes : String → String
double_quotes String.[] = ""
double_quotes (String.◌∷◌ c s) =
    let rest = double_quotes s in
    if code c == b'"' then String.◌∷◌ c (String.◌∷◌ c rest) else String.◌∷◌ c rest

-- `escapeCsvField`
pub escape_csv_field : String → String
unfolding has double_quotes
escape_csv_field value =
    if has "," value || (has "\"" value || (has "\n" value || has "\r" value))
    then "\"" ++ (double_quotes value ++ "\"")
    else value

-- `BREAKDOWN_COLUMNS.includes(col) || isSimpleField(col)`, with the column of the row
abbrev pub row_field : MetaInsightsColumn → MetaInsights → Option (Option String)
row_field campaign_id row = some row.campaign_id
row_field campaign_name row = some row.campaign_name
row_field adset_name row = some row.adset_name
row_field ad_name row = some row.ad_name
row_field thumbnail_url row = some row.thumbnail_url
row_field instagram_permalink_url row = some row.instagram_permalink_url
row_field date_start row = some (some row.date_start)
row_field date_stop row = some (some row.date_stop)
row_field impressions row = some (some row.impressions)
row_field clicks row = some (some row.clicks)
row_field reach row = some (some row.reach)
row_field frequency row = some row.frequency
row_field unique_clicks row = some row.unique_clicks
row_field spend row = some (some row.spend)
row_field cpm row = some (some row.cpm)
row_field cpc row = some (some row.cpc)
row_field cost_per_unique_click row = some row.cost_per_unique_click
row_field ctr row = some (some row.ctr)
row_field age row = some row.age
row_field gender row = some row.gender
row_field country row = some row.country
row_field region row = some row.region
row_field publisher_platform row = some row.publisher_platform
row_field device_platform row = some row.device_platform
row_field _ row = none

-- `ACTION_TYPE_MAP`
abbrev pub action_type_of : MetaInsightsColumn → Option String
action_type_of link_clicks = some "link_click"
action_type_of landing_page_views = some "landing_page_view"
action_type_of leads = some "lead"
action_type_of purchases = some "purchase"
action_type_of messaging_conversations_started =
    some "onsite_conversion.messaging_conversation_started_7d"
action_type_of _ = none

-- `findAction`
abbrev pub find_action : Option (List MetaAction) → String → Option String
find_action none type = none
find_action (some actions) type =
    Option.map (λ a. a.value) (find? (λ a. str_eq a.action_type type) actions)

module _ (numbers : Numbers) where
  abbrev pub sum_of : Option (List MetaAction) → Option String
  sum_of none = none
  sum_of (some actions) = some (numbers.sum (map (λ a. a.value) actions))

  -- the columns of `extractValue` that are no fields of the row
  abbrev pub from_actions : MetaInsightsColumn → MetaInsights → Option String
  from_actions purchase_roas row = find_action row.purchase_roas "omni_purchase"
  from_actions video_plays row = sum_of row.video_play_actions
  from_actions video_p25 row = sum_of row.video_p25_watched_actions
  from_actions video_p50 row = sum_of row.video_p50_watched_actions
  from_actions video_p75 row = sum_of row.video_p75_watched_actions
  from_actions video_p100 row = sum_of row.video_p100_watched_actions
  from_actions _ row = none

  abbrev pub from_action_type : MetaInsightsColumn → MetaInsights → Option String → Option String
  from_action_type col row none = from_actions col row
  from_action_type col row (some type) = find_action row.actions type

  abbrev pub from_field : MetaInsightsColumn → MetaInsights → Option (Option String) → Option String
  from_field col row none = from_action_type col row (action_type_of col)
  from_field col row (some value) = value

  -- `extractValue`
  abbrev pub extract_value : MetaInsights → MetaInsightsColumn → Option String
  extract_value row col = from_field col row (row_field col row)

  -- `parseDate`, for the pieces of the text between hyphens
  abbrev pub parse_date : String → List String → String
  parse_date raw (year ∷ month ∷ day ∷ []) = day ++ ("/" ++ (month ++ ("/" ++ year)))
  parse_date raw _ = raw

  -- `formatValue`
  abbrev pub format_value : String → ColumnType → String
  format_value raw monetary = numbers.currency_brl raw
  format_value raw percentage = numbers.two_digits raw ++ "%"
  format_value raw count = numbers.rounded raw
  format_value raw decimal = numbers.two_digits raw
  format_value raw date = parse_date raw (split "-" raw)
  format_value raw text = raw

  abbrev pub cell_of : Option String → ColumnType → String
  cell_of none type = "\"-\""
  cell_of (some String.[]) type = "\"-\""
  cell_of (some (String.◌∷◌ c s)) type = escape_csv_field (format_value (String.◌∷◌ c s) type)

  -- `formatCell`
  abbrev pub format_cell : MetaInsights → MetaInsightsColumn → String
  format_cell row col = cell_of (extract_value row col) (column_meta col).column_type

  -- UTF8_BOM
  abbrev pub utf8_bom : String
  utf8_bom = "\u{feff}"

  -- `format`
  unfoldable pub format : List MetaInsights → List MetaInsightsColumn → String
  unfolding escape_csv_field join_with
  format rows columns =
      utf8_bom
      ++ join_with "\r\n" (
          join_with "," (map (λ col. escape_csv_field (column_meta col).label) columns)
          ∷ map (λ row. join_with "," (map (λ col. format_cell row col) columns)) rows)
