-- ===== src/Ai.antt =====
-- modules/ai: the numbers of a weekly report (interfaces/ai-provider.interface.ts) and how campaigns
-- are split and summed up (utils/campaign-splitter.ts).
pub mod Pattern
pub mod Split
mod Tests
use Prim.Native.Char.{Char, code}
use Prim.Native.String
use trafego_flow.Common.{
  ℕ, ◌+◌, ltb, Bool, true, false, not, ◌&&◌, ◌||◌, ◌==◌, Option, none, some, String, str_eq,
  or_else, List, [], ◌∷◌, filter, find?, if◌then◌else◌,
}
use trafego_flow.Insights.{MetaAction, MetaInsights}

-- What the code uses of JavaScript's numbers. Counts are natural numbers; a sum of money, a rate or
-- a cost is a floating-point number, of which nothing is assumed. `to_fixed_2` is
-- `parseFloat(x.toFixed(2))`.
pub record Numbers : Type 1 where
  pub Float : Type 0
  pub zero : Float
  pub add : Float → Float → Float
  pub sub : Float → Float → Float
  pub mul : Float → Float → Float
  pub div : Float → Float → Float
  pub is_positive : Float → Bool
  pub of_count : ℕ → Float
  pub to_fixed_2 : Float → Float
  pub parse_float : String → Float
  pub parse_int : String → ℕ

pub record InsightsSummary (Float : Type 0) : Type 0 where
  pub spend : Float
  pub reach : ℕ
  pub impressions : ℕ
  pub clicks : ℕ
  pub ctr : Float
  pub cpm : Float
  pub purchases : ℕ
  pub add_to_cart : ℕ
  pub page_views : ℕ
  pub messages_started : ℕ
  pub content_views : ℕ
  pub checkout_initiated : ℕ
  pub live_views : ℕ

-- The sums of the loop over the rows.
pub record Totals (Float : Type 0) : Type 0 where
  pub spend : Float
  pub impressions : ℕ
  pub clicks : ℕ
  pub reach : ℕ
  pub purchases : ℕ
  pub add_to_cart : ℕ
  pub page_views : ℕ
  pub messages_started : ℕ
  pub content_views : ℕ
  pub checkout_initiated : ℕ
  pub live_views : ℕ

-- a letter of either case, by the code of the capital
abbrev pub is_letter : ℕ → Char → Bool
is_letter capital c = (code c == capital) || (code c == capital + 32)

-- `(?:_|$)`
abbrev pub ends_word : String → Bool
ends_word String.[] = true
ends_word (String.◌∷◌ c s) = code c == b'_'

-- `[T]?(?:_|$)`
abbrev pub after_cap : String → Bool
after_cap String.[] = true
after_cap (String.◌∷◌ c s) = ends_word (String.◌∷◌ c s) || (is_letter b'T' c && ends_word s)

abbrev after_ca : String → Bool
after_ca String.[] = false
after_ca (String.◌∷◌ c s) = is_letter b'P' c && after_cap s

abbrev after_c : String → Bool
after_c String.[] = false
after_c (String.◌∷◌ c s) = is_letter b'A' c && after_ca s

-- `CAP[T]?(?:_|$)`, without regard to case
abbrev pub matches_here : String → Bool
matches_here String.[] = false
matches_here (String.◌∷◌ c s) = is_letter b'C' c && after_c s

-- The search for ACQUISITION_PATTERN; the flag tells whether `(^|_)` matches before the text.
unfoldable pub search_pattern : Bool → String → Bool
search_pattern boundary String.[] = false
search_pattern boundary (String.◌∷◌ c s) =
    (boundary && matches_here (String.◌∷◌ c s)) || search_pattern (code c == b'_') s

-- `isAcquisition`
abbrev pub is_acquisition : MetaInsights → Bool
is_acquisition row = search_pattern true (or_else row.campaign_name "")

module _ (numbers : Numbers) where
  abbrev pub find_value : Option (List MetaAction) → String → Option String
  find_value none type = none
  find_value (some actions) type = elim (find? (λ a. str_eq a.action_type type) actions) [
    | none ↦ none
    | some a ↦ some a.value
  ]

  -- `findAction`
  abbrev pub find_action : Option (List MetaAction) → String → ℕ
  find_action actions type = numbers.parse_int (or_else (find_value actions type) "0")

  abbrev pub no_totals : Totals numbers.Float
  no_totals = record {
    spend = numbers.zero;
    impressions = 0;
    clicks = 0;
    reach = 0;
    purchases = 0;
    add_to_cart = 0;
    page_views = 0;
    messages_started = 0;
    content_views = 0;
    checkout_initiated = 0;
    live_views = 0;
  }

  -- one pass of the loop
  abbrev pub add_row : Totals numbers.Float → MetaInsights → Totals numbers.Float
  add_row t row = record {
    spend = numbers.add t.spend (numbers.parse_float row.spend);
    impressions = t.impressions + numbers.parse_int row.impressions;
    clicks = t.clicks + numbers.parse_int row.clicks;
    reach = t.reach + numbers.parse_int row.reach;
    purchases = t.purchases + find_action row.actions "purchase";
    add_to_cart = t.add_to_cart + find_action row.actions "add_to_cart";
    page_views = t.page_views + find_action row.actions "landing_page_view";
    messages_started =
        t.messages_started + find_action row.actions "messaging_conversation_started_7d";
    content_views = t.content_views + find_action row.actions "view_content";
    checkout_initiated = t.checkout_initiated + find_action row.actions "initiate_checkout";
    live_views = t.live_views + find_action row.actions "video_play";
  }

  abbrev pub totals_from : Totals numbers.Float → List MetaInsights → Totals numbers.Float
  totals_from t [] = t
  totals_from t (row ∷ rows) = totals_from (add_row t row) rows

  -- a rate of the impressions, times a factor
  abbrev pub rate : numbers.Float → ℕ → ℕ → numbers.Float
  rate x impressions factor =
      if ltb 0 impressions
      then numbers.mul (numbers.div x (numbers.of_count impressions)) (numbers.of_count factor)
      else numbers.of_count 0

  abbrev pub summary : Totals numbers.Float → InsightsSummary numbers.Float
  summary t = record {
    spend = t.spend;
    reach = t.reach;
    impressions = t.impressions;
    clicks = t.clicks;
    ctr = numbers.to_fixed_2 (rate (numbers.of_count t.clicks) t.impressions 100);
    cpm = numbers.to_fixed_2 (rate t.spend t.impressions 1000);
    purchases = t.purchases;
    add_to_cart = t.add_to_cart;
    page_views = t.page_views;
    messages_started = t.messages_started;
    content_views = t.content_views;
    checkout_initiated = t.checkout_initiated;
    live_views = t.live_views;
  }

  -- `aggregateRows`
  abbrev pub aggregate_rows : List MetaInsights → InsightsSummary numbers.Float
  aggregate_rows rows = summary (totals_from no_totals rows)

  abbrev pub aggregate_some : List MetaInsights → Option (InsightsSummary numbers.Float)
  aggregate_some [] = none
  aggregate_some (row ∷ rows) = some (aggregate_rows (row ∷ rows))

pub record CampaignSplit (Float : Type 0) : Type 0 where
  pub acquisition : Option (InsightsSummary Float)
  pub sales : Option (InsightsSummary Float)
  pub total : InsightsSummary Float

-- `splitAndAggregateCampaigns`
unfoldable pub split_and_aggregate_campaigns :
    (numbers : Numbers) → List MetaInsights → CampaignSplit numbers.Float
unfolding search_pattern
split_and_aggregate_campaigns numbers rows = record {
  acquisition = aggregate_some numbers (filter is_acquisition rows);
  sales = aggregate_some numbers (filter (λ r. not (is_acquisition r)) rows);
  total = aggregate_rows numbers rows;
}
