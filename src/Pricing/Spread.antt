-- ===== src/Pricing/Spread.antt =====
-- The order of the published numbers (packages/core/src/pricing.ts).
use native.Mathlib.Nat.{mul-le-mul_left}
use gundam_tcg_hub.Base.{
  ℕ, suc, ◌+◌, ◌-◌, ◌*◌, ◌/◌, ◌%◌, ◌<◌, ◌≤◌, ◌≡◌, inl, inr, refl, subst, sym, ap, ◌∙◌, false, ◌==◌,
  List, length, arith, Bool-cases, ==_iff,
}
use gundam_tcg_hub.Fairness.Arrays.{nth}
use gundam_tcg_hub.Pricing.Summary.{
  interpolate, percentile_cents, sort, kept_prices, trim_count, PriceSummary, summary,
  summarise_prices, is_outlier,
}
use gundam_tcg_hub.Pricing.Sorted.{
  IsSorted, length-sort, sort-IsSorted, length-kept_prices, nth-kept_prices, kept_prices-IsSorted,
}

-- The value at a place that is told in quarters.
abbrev at_quarters : List ℕ → ℕ → ℕ
at_quarters xs t = interpolate (nth xs (t / 4)) (nth xs (t / 4 + 1)) (t % 4)

interpolate_zero : (low high : ℕ) → interpolate low high 0 ≡ low
unfolding interpolate
interpolate_zero low high = omega arith

percentile-at_quarters :
    (xs : List ℕ) (k : ℕ) → percentile_cents xs k ≡ at_quarters xs ((length xs - 1) * k)
unfolding percentile_cents
percentile-at_quarters xs k =
    let t = (length xs - 1) * k in
    elim (Bool-cases (length xs == 1)) [
      | inl e ↦
          let one : length xs - 1 ≡ 0 = ground arith in
          let zero_times : 0 * k ≡ 0 = omega arith in
          let none_left : t ≡ 0 = ap (λ d. d * k) one ∙ zero_times in
          rw e (
            subst (λ u. nth xs 0 ≡ at_quarters xs u) (sym none_left)
              (sym (interpolate_zero (nth xs 0) (nth xs 1))))
      | inr e ↦ elim (Bool-cases (t % 4 == 0)) [
        | inl f ↦
            let whole : t % 4 ≡ 0 = (==_iff (t % 4) 0).0 f in
            rw (e, f)
              (subst (λ r. nth xs (t / 4) ≡ interpolate (nth xs (t / 4)) (nth xs (t / 4 + 1)) r)
                (sym whole) (sym (interpolate_zero (nth xs (t / 4)) (nth xs (t / 4 + 1)))))
        | inr f ↦ rw (e, f) refl
      ]
    ]

low-le-interpolate : (low high r : ℕ) → low ≤ interpolate low high r
unfolding interpolate
low-le-interpolate low high r = omega arith

interpolate-le-high : (low high r : ℕ) → low ≤ high → r ≤ 4 → interpolate low high r ≤ high
unfolding interpolate
interpolate-le-high low high r h k = omega (arith, mul-le-mul_left (high - low) k)

interpolate_mono : (low high r s : ℕ) → r ≤ s → interpolate low high r ≤ interpolate low high s
unfolding interpolate
interpolate_mono low high r s h = omega (arith, mul-le-mul_left (high - low) h)

at_quarters_mono :
    (xs : List ℕ) (m t u : ℕ)
    → length xs ≡ suc m
    → IsSorted xs
    → t ≤ u
    → u ≤ 4 * m
    → at_quarters xs t ≤ at_quarters xs u
at_quarters_mono xs m t u l s h k = elim (Bool-cases (t / 4 == u / 4)) [
  | inl e ↦
      let same : t / 4 ≡ u / 4 = (==_iff (t / 4) (u / 4)).0 e in
      subst
        (λ q.
          interpolate (nth xs (t / 4)) (nth xs (t / 4 + 1)) (t % 4)
          ≤ interpolate (nth xs q) (nth xs (q + 1)) (u % 4))
        same
        (interpolate_mono (nth xs (t / 4)) (nth xs (t / 4 + 1)) (t % 4) (u % 4)
          (omega (arith, same)))
  | inr e ↦
      let below : t / 4 < u / 4 = ground arith in
      let step = s (t / 4) (t / 4 + 1) (omega arith) (omega (arith, l, below)) in
      let rest = s (t / 4 + 1) (u / 4) (omega (arith, below)) (omega (arith, l)) in
      let first =
        interpolate-le-high (nth xs (t / 4)) (nth xs (t / 4 + 1)) (t % 4) step (omega arith) in
      let last = low-le-interpolate (nth xs (u / 4)) (nth xs (u / 4 + 1)) (u % 4) in
      omega (arith, first, rest, last)
]

percentile_mono :
    (xs : List ℕ) (m j k : ℕ)
    → length xs ≡ suc m
    → IsSorted xs
    → j ≤ k
    → k ≤ 4
    → percentile_cents xs j ≤ percentile_cents xs k
percentile_mono xs m j k l s h b =
    let d = length xs - 1 in
    let between =
      at_quarters_mono xs m (d * j) (d * k) l s (mul-le-mul_left d h)
        (omega (arith, mul-le-mul_left d b, l)) in
    omega (arith, percentile-at_quarters xs j, percentile-at_quarters xs k, between)

percentile-le-last :
    (xs : List ℕ) (m k : ℕ)
    → length xs ≡ suc m
    → IsSorted xs
    → k ≤ 4
    → percentile_cents xs k ≤ nth xs m
percentile-le-last xs m k l s b =
    let d = length xs - 1 in
    let between =
      at_quarters_mono xs m (d * k) (4 * m) l s (omega (arith, mul-le-mul_left d b, l))
        (omega arith) in
    let place : 4 * m / 4 ≡ m = omega arith in
    let rest : 4 * m % 4 ≡ 0 = omega arith in
    let at_last : at_quarters xs (4 * m) ≡ nth xs m =
      rw (place, rest) (interpolate_zero (nth xs m) (nth xs (m + 1))) in
    omega (arith, percentile-at_quarters xs k, between, at_last)

first-le-percentile :
    (xs : List ℕ) (m k : ℕ)
    → length xs ≡ suc m
    → IsSorted xs
    → k ≤ 4
    → nth xs 0 ≤ percentile_cents xs k
first-le-percentile xs m k l s b =
    let d = length xs - 1 in
    let between =
      at_quarters_mono xs m 0 (d * k) l s (omega arith) (omega (arith, mul-le-mul_left d b, l)) in
    omega (arith, percentile-at_quarters xs k, between, interpolate_zero (nth xs 0) (nth xs 1))

trim_count-lt : (n : ℕ) → 1 ≤ n → 2 * trim_count n < n
unfolding trim_count
trim_count-lt n h = ground arith

-- What the percentiles are taken of lies between the ends of the sorted observations.
kept_ends :
    (xs : List ℕ) (n m : ℕ)
    → 2 * n < length xs
    → length xs - n - n ≡ suc m
    → IsSorted xs
    → (nth xs 0 ≤ nth (kept_prices xs n) 0) × (nth (kept_prices xs n) m ≤ nth xs (length xs - 1))
kept_ends xs n m h l s =
    let low = s 0 (n + 0) (omega arith) (omega arith) in
    let high = s (n + m) (length xs - 1) (omega arith) (omega arith) in
    (
      omega (arith, low, nth-kept_prices xs n 0 h (omega arith)),
      omega (arith, high, nth-kept_prices xs n m h (omega arith)),
    )

between_quartiles :
    (c multiplier : ℕ) (r : PriceSummary)
    → r.p25_cents ≤ c
    → c ≤ r.p75_cents
    → is_outlier c r multiplier ≡ false
unfolding is_outlier
between_quartiles c multiplier r h k = ground arith

summary_fields :
    (minimum : ℕ) (xs : List ℕ) (r : PriceSummary)
    → summarise_prices minimum xs ≡ summary r
    → let rest = kept_prices (sort xs) (trim_count (length xs)) in
      (r.median_cents ≡ percentile_cents rest 2)
      × (r.p25_cents ≡ percentile_cents rest 1)
      × (r.p75_cents ≡ percentile_cents rest 3)
      × (r.count ≡ length xs)
      × (r.low_cents ≡ nth (sort xs) 0)
      × (r.high_cents ≡ nth (sort xs) (length xs - 1))
      × (minimum ≤ length xs)
      × (1 ≤ length xs)
unfolding summarise_prices
summary_fields minimum xs r h = ground arith

-- A published index is in order, low to p25 to median to p75 to high, it counts every observation, and
-- no price from p25 to p75 is an outlier of it, whatever the multiplier.
pub summary_in_order :
    (minimum multiplier : ℕ) (xs : List ℕ) (r : PriceSummary)
    → summarise_prices minimum xs ≡ summary r
    → (r.low_cents ≤ r.p25_cents)
      × (r.p25_cents ≤ r.median_cents)
      × (r.median_cents ≤ r.p75_cents)
      × (r.p75_cents ≤ r.high_cents)
      × (r.count ≡ length xs)
      × (minimum ≤ r.count)
      × ((c : ℕ) → r.p25_cents ≤ c → c ≤ r.p75_cents → is_outlier c r multiplier ≡ false)
summary_in_order minimum multiplier xs r h =
    let (median, p25, p75, count, low, high, enough, some_price) = summary_fields minimum xs r h in
    let n = trim_count (length xs) in
    let sorted = sort xs in
    let rest = kept_prices sorted n in
    let m = length xs - n - n - 1 in
    let small : 2 * n < length sorted =
      omega (arith, trim_count-lt (length xs) some_price, length-sort xs) in
    let size : length rest ≡ suc m =
      omega (arith, length-kept_prices sorted n small, length-sort xs, small) in
    let s = kept_prices-IsSorted sorted n small (sort-IsSorted xs) in
    let (bottom, top) =
      kept_ends sorted n m small (omega (arith, small, length-sort xs)) (sort-IsSorted xs) in
    let last : nth sorted (length sorted - 1) ≡ nth sorted (length xs - 1) =
      ap (λ l. nth sorted (l - 1)) (length-sort xs) in
    (
      omega (arith, low, p25, bottom, first-le-percentile rest m 1 size s (omega arith)),
      omega (arith, p25, median, percentile_mono rest m 1 2 size s (omega arith) (omega arith)),
      omega (arith, median, p75, percentile_mono rest m 2 3 size s (omega arith) (omega arith)),
      omega (arith, p75, high, top, last, percentile-le-last rest m 3 size s (omega arith)),
      count,
      omega (arith, count, enough),
      λ c a b. between_quartiles c multiplier r a b,
    )
