-- ===== src/Csv/Tests.antt =====
-- The formatter on concrete rows; the numbers are printed as Meta sent them.

use Prim.Native.String.{◌++◌}
use mathlib.Core.Path.{◌≡◌, refl}
use trafego_flow.Common.Text.{split}
use trafego_flow.Common.{none, some, List, [], ◌∷◌, map}
use trafego_flow.Insights.{
  MetaInsights, MetaInsightsColumn, campaign_name, date_start, spend, leads, column_meta,
}
use trafego_flow.Csv.{Numbers, format, extract_value}
use trafego_flow.Csv.Reader.{read_csv}
use trafego_flow.Csv.RoundTrip.{cell_value, without_bom, read_csv-format}

abbrev numbers : Numbers
numbers = record {
  currency_brl = λ raw. "R$ " ++ raw;
  two_digits = λ raw. raw;
  rounded = λ raw. raw;
  sum = λ values. "0";
}

abbrev row : MetaInsights
row = record {
  campaign_id = some "1";
  campaign_name = some "Live \"um\", dois";
  adset_id = none;
  adset_name = none;
  ad_id = none;
  ad_name = none;
  impressions = "10";
  clicks = "2";
  spend = "1,50";
  reach = "9";
  cpm = "3";
  cpc = "1";
  ctr = "20";
  actions = none;
  cost_per_action_type = none;
  date_start = "2026-01-05";
  date_stop = "2026-01-11";
  frequency = none;
  unique_clicks = none;
  cost_per_unique_click = none;
  purchase_roas = none;
  video_play_actions = none;
  video_p25_watched_actions = none;
  video_p50_watched_actions = none;
  video_p75_watched_actions = none;
  video_p100_watched_actions = none;
  age = none;
  gender = none;
  country = none;
  region = none;
  publisher_platform = none;
  device_platform = none;
  thumbnail_url = none;
  image_url = none;
  instagram_permalink_url = none;
}

abbrev columns : List MetaInsightsColumn
columns = date_start ∷ spend ∷ leads ∷ []

formats :
    format numbers (row ∷ []) (campaign_name ∷ columns)
    ≡ "\u{feff}Campanha,Início,Investimento,Leads\r\n\"Live \"\"um\"\", dois\",05/01/2026,\"R$ 1,50\",\"-\""
unfolding format split
formats = refl

read_csv-format_example :
    read_csv (without_bom (format numbers (row ∷ []) (campaign_name ∷ columns)))
    ≡ map (λ c. (column_meta c).label) (campaign_name ∷ columns)
      ∷ map
          (λ r.
            map
              (λ c. cell_value numbers (extract_value numbers r c) (column_meta c).column_type)
              (campaign_name ∷ columns))
          (row ∷ [])
read_csv-format_example = read_csv-format numbers (row ∷ []) campaign_name columns
