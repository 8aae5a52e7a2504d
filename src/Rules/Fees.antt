-- ===== src/Rules/Fees.antt =====
-- What the platform keeps (packages/core/src/fees.ts). A number that reaches the functions is an
-- integer, positive or negative.
use gundam_tcg_hub.Base.{ℕ, ◌+◌, ◌-◌, ◌*◌, ◌/◌, ◌≤◌, ◌<◌, min, ◌≡◌, arith, ltb, if◌then◌else◌}
use gundam_tcg_hub.Base.Int.{pos_part, ℤ, pos, negsuc}

abbrev pub bps_per_percent : ℕ
bps_per_percent = 100

abbrev pub whole_bps : ℕ
whole_bps = 10000

-- The two messages of `FeeError`.
pub data FeeError : Type 0 where
  bad_amount bad_fee : FeeError

pub data FeeResult : Type 0 where
  fee : ℕ → FeeResult
  thrown : FeeError → FeeResult

-- `Math.round(n / d)` for n ≥ 0 and d > 0: the nearest whole number, ties upwards. The source
-- divides in floating point, which is exact here as long as `n` is below 2^53.
abbrev pub round_div : ℕ → ℕ → ℕ
round_div n d = (2 * n + d) / (2 * d)

abbrev pub nonneg_fee : ℕ → ℕ → ℕ
nonneg_fee amount bps = min (round_div (amount * bps) 10000) amount

unfoldable pub application_fee_cents : ℤ → ℤ → FeeResult
application_fee_cents (negsuc _) bps = thrown bad_amount
application_fee_cents (pos amount) (negsuc _) = thrown bad_fee
application_fee_cents (pos amount) (pos bps) =
    if ltb 10000 bps then thrown bad_fee else fee (nonneg_fee amount bps)

pub data ProceedsResult : Type 0 where
  proceeds : ℕ → ProceedsResult
  thrown : FeeError → ProceedsResult

unfoldable pub seller_proceeds_cents : ℤ → ℤ → ProceedsResult
unfolding application_fee_cents
seller_proceeds_cents amount bps = elim (application_fee_cents amount bps) [
  | fee f ↦ proceeds (pos_part amount - f)
  | FeeResult.thrown e ↦ ProceedsResult.thrown e
]

nonneg_fee-le : (amount bps : ℕ) → nonneg_fee amount bps ≤ amount
nonneg_fee-le amount bps = omega arith

round_div-le : (amount bps : ℕ) → bps ≤ 10000 → round_div (amount * bps) 10000 ≤ amount
round_div-le amount bps h = grind arith

-- For a rate of at most 100% the call returns a fee: the nearest whole number of cents to
-- `amount * bps / 10000`, half a cent rounded up, and never more than the amount.
pub application_fee_nearest :
    (amount bps : ℕ)
    → bps ≤ 10000
    → (f : ℕ) × (application_fee_cents (pos amount) (pos bps) ≡ fee f)
      × (f ≤ amount)
      × (20000 * f ≤ 2 * (amount * bps) + 10000)
      × (2 * (amount * bps) + 10000 < 20000 * f + 20000)
unfolding application_fee_cents
application_fee_nearest amount bps h = (
  nonneg_fee amount bps,
  ground arith,
  nonneg_fee-le amount bps,
  omega (arith, round_div-le amount bps h),
  omega (arith, round_div-le amount bps h),
)

-- What the platform keeps and what the seller receives add up to what the buyer paid.
pub fee-add-proceeds :
    (amount bps f p : ℕ)
    → application_fee_cents (pos amount) (pos bps) ≡ fee f
    → seller_proceeds_cents (pos amount) (pos bps) ≡ proceeds p
    → f + p ≡ amount
unfolding application_fee_cents seller_proceeds_cents
fee-add-proceeds amount bps f p e q = ground arith

split_lem :
    (x y z : ℕ)
    → x + y ≡ z
    → (round_div z 10000 ≤ round_div x 10000 + round_div y 10000 + 1)
      × (round_div x 10000 + round_div y 10000 ≤ round_div z 10000 + 1)
split_lem x y z h = omega arith

-- Selling two lots together rather than apart changes the total fee by at most one cent.
pub application_fee_split :
    (a b r f g t : ℕ)
    → application_fee_cents (pos a) (pos r) ≡ fee f
    → application_fee_cents (pos b) (pos r) ≡ fee g
    → application_fee_cents (pos (a + b)) (pos r) ≡ fee t
    → (t ≤ f + g + 1) × (f + g ≤ t + 1)
unfolding application_fee_cents
application_fee_split a b r f g t e p q = ground (
  arith,
  split_lem (a * r) (b * r) ((a + b) * r),
  round_div-le a r,
  round_div-le b r,
  round_div-le (a + b) r,
)
