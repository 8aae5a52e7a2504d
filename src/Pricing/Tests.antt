-- ===== src/Pricing/Tests.antt =====
-- Eleven observations, and the theorem about their summary.
use gundam_tcg_hub.Base.{ℕ, ◌≤◌, ◌≡◌, refl, List, [], ◌∷◌, length, false}
use gundam_tcg_hub.Pricing.Summary.{
  PriceSummary, summary, summarise_prices, is_outlier, sort, trim_count, percentile_cents,
  interpolate, apply_source_weights, break_pull, user_report,
}
use gundam_tcg_hub.Pricing.Spread.{summary_in_order}

abbrev prices : List ℕ
prices = 900 ∷ 100 ∷ 200 ∷ 5000 ∷ 300 ∷ 400 ∷ 1 ∷ 500 ∷ 600 ∷ 700 ∷ 800 ∷ []

-- The 1 and the 5000 are trimmed.
abbrev published : PriceSummary
published = record {
  median_cents = 500;
  p25_cents = 300;
  p75_cents = 700;
  count = 11;
  trimmed_count = 2;
  low_cents = 1;
  high_cents = 5000;
}

publishes : summarise_prices 3 prices ≡ summary published
unfolding summarise_prices sort trim_count percentile_cents interpolate
publishes = refl

weighs :
    apply_source_weights ((250, break_pull) ∷ (90, user_report) ∷ []) ≡ 250 ∷ 250 ∷ 250 ∷ 90 ∷ []
unfolding apply_source_weights
weighs = refl

summary_in_order_example :
    (1 ≤ 300)
    × (300 ≤ 500)
    × (500 ≤ 700)
    × (700 ≤ 5000)
    × (published.count ≡ length prices)
    × (3 ≤ 11)
    × ((c : ℕ) → 300 ≤ c → c ≤ 700 → is_outlier c published 3 ≡ false)
summary_in_order_example = summary_in_order 3 3 prices published publishes
