-- ===== src/Ai/Split.antt =====
-- modules/ai/utils/campaign-splitter.ts: the two parts of the campaigns and all of them.
use trafego_flow.Common.{
  ◌+◌, ◌≡◌, refl, Bool, not, Bool-cases, inl, inr, Option, none, some, List, [], ◌∷◌, filter, arith,
}
use trafego_flow.Insights.{MetaInsights}
use trafego_flow.Ai.{
  Numbers, InsightsSummary, Totals, is_acquisition, no_totals, add_row, totals_from, summary,
  aggregate_rows, aggregate_some, split_and_aggregate_campaigns,
}

-- Each count of a summary is the sum of those of two others.
pub record IsSum {Float : Type 0} (all one other : InsightsSummary Float) : Type 0 where
  pub reach_sum : all.reach ≡ one.reach + other.reach
  pub impressions_sum : all.impressions ≡ one.impressions + other.impressions
  pub clicks_sum : all.clicks ≡ one.clicks + other.clicks
  pub purchases_sum : all.purchases ≡ one.purchases + other.purchases
  pub add_to_cart_sum : all.add_to_cart ≡ one.add_to_cart + other.add_to_cart
  pub page_views_sum : all.page_views ≡ one.page_views + other.page_views
  pub messages_started_sum : all.messages_started ≡ one.messages_started + other.messages_started
  pub content_views_sum : all.content_views ≡ one.content_views + other.content_views
  pub checkout_initiated_sum :
      all.checkout_initiated ≡ one.checkout_initiated + other.checkout_initiated
  pub live_views_sum : all.live_views ≡ one.live_views + other.live_views

-- a part without campaigns counts nothing
abbrev pub or_nothing :
    (numbers : Numbers) → Option (InsightsSummary numbers.Float) → InsightsSummary numbers.Float
or_nothing numbers none = aggregate_rows numbers []
or_nothing numbers (some s) = s

module _ (numbers : Numbers) where
  abbrev Sums : (all one other : Totals numbers.Float) → Type 0
  Sums all one other = IsSum (summary numbers all) (summary numbers one) (summary numbers other)

  add_one :
      (t u v : Totals numbers.Float) (row : MetaInsights)
      → Sums t u v
      → Sums (add_row numbers t row) (add_row numbers u row) v
  add_one t u v row h = record {
    reach_sum = omega (arith, h.reach_sum);
    impressions_sum = omega (arith, h.impressions_sum);
    clicks_sum = omega (arith, h.clicks_sum);
    purchases_sum = omega (arith, h.purchases_sum);
    add_to_cart_sum = omega (arith, h.add_to_cart_sum);
    page_views_sum = omega (arith, h.page_views_sum);
    messages_started_sum = omega (arith, h.messages_started_sum);
    content_views_sum = omega (arith, h.content_views_sum);
    checkout_initiated_sum = omega (arith, h.checkout_initiated_sum);
    live_views_sum = omega (arith, h.live_views_sum);
  }

  add_other :
      (t u v : Totals numbers.Float) (row : MetaInsights)
      → Sums t u v
      → Sums (add_row numbers t row) u (add_row numbers v row)
  add_other t u v row h = record {
    reach_sum = omega (arith, h.reach_sum);
    impressions_sum = omega (arith, h.impressions_sum);
    clicks_sum = omega (arith, h.clicks_sum);
    purchases_sum = omega (arith, h.purchases_sum);
    add_to_cart_sum = omega (arith, h.add_to_cart_sum);
    page_views_sum = omega (arith, h.page_views_sum);
    messages_started_sum = omega (arith, h.messages_started_sum);
    content_views_sum = omega (arith, h.content_views_sum);
    checkout_initiated_sum = omega (arith, h.checkout_initiated_sum);
    live_views_sum = omega (arith, h.live_views_sum);
  }

  module _ (p : MetaInsights → Bool) where
    filter-Sums :
        (t u v : Totals numbers.Float) (rows : List MetaInsights)
        → Sums t u v
        → Sums
            (totals_from numbers t rows)
            (totals_from numbers u (filter p rows))
            (totals_from numbers v (filter (λ r. not (p r)) rows))
    filter-Sums t u v [] h = h
    filter-Sums t u v (row ∷ rows) h = elim (Bool-cases (p row)) [
      | inl e ↦
          rw e (
            filter-Sums (add_row numbers t row) (add_row numbers u row) v rows
              (add_one t u v row h))
      | inr e ↦ rw e (
          filter-Sums (add_row numbers t row) u (add_row numbers v row) rows
            (add_other t u v row h))
    ]

  aggregate_some_same :
      (rows : List MetaInsights)
      → or_nothing numbers (aggregate_some numbers rows) ≡ aggregate_rows numbers rows
  aggregate_some_same [] = refl
  aggregate_some_same (row ∷ rows) = refl

  -- Each count of the total over the campaigns, from reach to live views, is that over the
  -- acquisition campaigns and that over the others together, where a part without campaigns counts
  -- nothing.
  pub split_and_aggregate_campaigns-IsSum :
      (rows : List MetaInsights)
      → IsSum
          (split_and_aggregate_campaigns numbers rows).total
          (or_nothing numbers (split_and_aggregate_campaigns numbers rows).acquisition)
          (or_nothing numbers (split_and_aggregate_campaigns numbers rows).sales)
  unfolding split_and_aggregate_campaigns
  split_and_aggregate_campaigns-IsSum rows = rw (aggregate_some_same (filter is_acquisition rows)) (
      rw (aggregate_some_same (filter (λ r. not (is_acquisition r)) rows)) (
        filter-Sums is_acquisition (no_totals numbers) (no_totals numbers) (no_totals numbers) rows
          (record {
            reach_sum = refl;
            impressions_sum = refl;
            clicks_sum = refl;
            purchases_sum = refl;
            add_to_cart_sum = refl;
            page_views_sum = refl;
            messages_started_sum = refl;
            content_views_sum = refl;
            checkout_initiated_sum = refl;
            live_views_sum = refl;
          })))
