-- ===== src/Pricing/Summary.antt =====
-- What is published of a card's observed prices (packages/core/src/pricing.ts). Prices are whole cents
-- that are not negative, and the trim is the tenth at each end that every caller uses: `floor(n * 0.1)`
-- is `n / 10`, since the double 0.1 lies above a tenth by less than its rounding. A quartile `k` stands
-- for the percentile `k / 4`, whose interpolation is exact in doubles.
use gundam_tcg_hub.Base.{
  ℕ, zero, suc, ◌+◌, ◌-◌, ◌*◌, ◌/◌, ◌%◌, min, Bool, ◌||◌, ◌==◌, ltb, leb, if◌then◌else◌, List, [],
  ◌∷◌, ◌++◌, length, take, drop,
}
use gundam_tcg_hub.Fairness.Arrays.{nth}

pub record PriceSummary : Type 0 where
  pub median_cents : ℕ
  pub p25_cents : ℕ
  pub p75_cents : ℕ
  pub count : ℕ
  pub trimmed_count : ℕ
  pub low_cents : ℕ
  pub high_cents : ℕ

-- `null`, a `RangeError`, or a summary.
pub data PriceResult : Type 0 where
  insufficient_data nothing_observed : PriceResult
  summary : PriceSummary → PriceResult

abbrev pub min_observations : ℕ
min_observations = 3

unfoldable pub trim_count : ℕ → ℕ
trim_count n = if leb n 2 then 0 else min (n / 10) ((n - 1) / 2)

-- `Math.round(low + (high - low) * (r / 4))`, at the place `q` and `r` quarters towards the next.
unfoldable pub interpolate : ℕ → ℕ → ℕ → ℕ
interpolate low high r = (2 * (4 * low + (high - low) * r) + 4) / 8

-- The percentile `k / 4` of a sorted list that is not empty.
unfoldable pub percentile_cents : List ℕ → ℕ → ℕ
unfolding interpolate
percentile_cents sorted k =
    let position = (length sorted - 1) * k in
    if length sorted == 1
    then nth sorted 0
    else if position % 4 == 0
    then nth sorted (position / 4)
    else interpolate (nth sorted (position / 4)) (nth sorted (position / 4 + 1)) (position % 4)

abbrev pub insert_sorted : ℕ → List ℕ → List ℕ
insert_sorted x [] = x ∷ []
insert_sorted x (y ∷ ys) = if leb x y then x ∷ y ∷ ys else y ∷ insert_sorted x ys

-- `[...xs].sort((a, b) => a - b)`
unfoldable pub sort : List ℕ → List ℕ
sort [] = []
sort (x ∷ xs) = insert_sorted x (sort xs)

abbrev pub kept_prices : List ℕ → ℕ → List ℕ
kept_prices sorted n = if n == 0 then sorted else take (length sorted - n - n) (drop n sorted)

unfoldable pub summarise_prices : ℕ → List ℕ → PriceResult
unfolding sort trim_count percentile_cents
summarise_prices minimum observations =
    let count = length observations in
    let sorted = sort observations in
    let n = trim_count count in
    let rest = kept_prices sorted n in
    if ltb count minimum
    then insufficient_data
    else if count == 0
    then nothing_observed
    else summary record {
      median_cents = percentile_cents rest 2;
      p25_cents = percentile_cents rest 1;
      p75_cents = percentile_cents rest 3;
      count = count;
      trimmed_count = n * 2;
      low_cents = nth sorted 0;
      high_cents = nth sorted (count - 1);
    }

-- The default multiplier is 3. The bounds are compared without a difference below zero.
unfoldable pub is_outlier : ℕ → PriceSummary → ℕ → Bool
is_outlier cents s multiplier =
    let iqr = s.p75_cents - s.p25_cents in
    if iqr == 0
    then ltb cents s.p25_cents || ltb s.p75_cents cents
    else ltb (cents + multiplier * iqr) s.p25_cents || ltb (s.p75_cents + multiplier * iqr) cents

pub data PriceSource : Type 0 where
  break_pull live_sale ebay_api walmart_api user_report : PriceSource

-- `SOURCE_WEIGHTS`
abbrev pub source_weight : PriceSource → ℕ
source_weight break_pull = 3
source_weight live_sale = 3
source_weight ebay_api = 2
source_weight walmart_api = 2
source_weight user_report = 1

abbrev pub repeated : ℕ → ℕ → List ℕ
repeated zero x = []
repeated (suc n) x = x ∷ repeated n x

unfoldable pub apply_source_weights : List (ℕ × PriceSource) → List ℕ
apply_source_weights [] = []
apply_source_weights (o ∷ os) = repeated (source_weight o.1) o.0 ++ apply_source_weights os
