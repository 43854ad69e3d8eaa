-- ===== src/Ai/Tests.antt =====
-- The split of campaigns on concrete rows; a float is printed as Meta sent it.
use Prim.Native.String
use mathlib.Core.Path.{◌≡◌, refl}
use trafego_flow.Common.{true, none, some, String, str_eq, List, [], ◌∷◌, if◌then◌else◌}
use trafego_flow.Common.Text.{split}
use trafego_flow.Insights.{MetaInsights}
use trafego_flow.Ai.{Numbers, search_pattern, split_and_aggregate_campaigns}
use trafego_flow.Ai.Pattern.{some_cap, search_pattern_iff}
use trafego_flow.Ai.Split.{IsSum, or_nothing, split_and_aggregate_campaigns-IsSum}

abbrev numbers : Numbers
numbers = record {
  Float = String;
  zero = "0";
  add = λ x y. String.◌++◌ x (String.◌++◌ "+" y);
  sub = λ x y. x;
  mul = λ x y. x;
  div = λ x y. x;
  is_positive = λ x. true;
  of_count = λ n. "n";
  to_fixed_2 = λ x. x;
  parse_float = λ s. s;
  parse_int = λ s. if str_eq s "10" then 10 else if str_eq s "7" then 7 else 0;
}

abbrev row : (campaign_name impressions : String) → MetaInsights
row name impressions = record {
  campaign_id = some "1";
  campaign_name = some name;
  adset_id = none;
  adset_name = none;
  ad_id = none;
  ad_name = none;
  impressions = impressions;
  clicks = "7";
  spend = "1.5";
  reach = "7";
  cpm = "3";
  cpc = "1";
  ctr = "20";
  actions = none;
  cost_per_action_type = none;
  date_start = "2026-01-05";
  date_stop = "2026-01-11";
  frequency = none;
  unique_clicks = none;
  cost_per_unique_click = none;
  purchase_roas = none;
  video_play_actions = none;
  video_p25_watched_actions = none;
  video_p50_watched_actions = none;
  video_p75_watched_actions = none;
  video_p100_watched_actions = none;
  age = none;
  gender = none;
  country = none;
  region = none;
  publisher_platform = none;
  device_platform = none;
  thumbnail_url = none;
  image_url = none;
  instagram_permalink_url = none;
}

abbrev rows : List MetaInsights
rows = row "live_capt_01" "10" ∷ row "VENDAS_CAPA" "7" ∷ []

counts_all : (split_and_aggregate_campaigns numbers rows).total.impressions ≡ 17
unfolding split_and_aggregate_campaigns
counts_all = refl

counts_acquisition :
    (or_nothing numbers (split_and_aggregate_campaigns numbers rows).acquisition).impressions ≡ 10
unfolding split_and_aggregate_campaigns search_pattern
counts_acquisition = refl

split_and_aggregate_campaigns-IsSum_example :
    IsSum
      (split_and_aggregate_campaigns numbers rows).total
      (or_nothing numbers (split_and_aggregate_campaigns numbers rows).acquisition)
      (or_nothing numbers (split_and_aggregate_campaigns numbers rows).sales)
split_and_aggregate_campaigns-IsSum_example = split_and_aggregate_campaigns-IsSum numbers rows

search_pattern_iff_example :
    search_pattern true "live_capt_01" ≡ some_cap (split "_" "live_capt_01")
search_pattern_iff_example = search_pattern_iff "live_capt_01"
