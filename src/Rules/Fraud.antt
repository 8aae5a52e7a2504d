-- ===== src/Rules/Fraud.antt =====
-- Velocity and new-account limits (packages/core/src/fraud.ts).
use gundam_tcg_hub.Base.{
  ℕ, ◌*◌, ◌≤◌, ◌<◌, ◌≡◌, ◌↔◌, ◌&&◌, Option, none, some, arith, ltb, leb, if◌then◌else◌, ◌⊎◌,
}

abbrev pub new_account_hours : ℕ
new_account_hours = 24

abbrev pub new_account_max_order_cents : ℕ
new_account_max_order_cents = 15000

abbrev pub new_account_max_orders_per_day : ℕ
new_account_max_orders_per_day = 3

abbrev pub max_orders_per_hour : ℕ
max_orders_per_hour = 10

abbrev pub max_listings_per_hour : ℕ
max_listings_per_hour = 60

pub data FraudRefusal : Type 0 where
  new_account_order_too_large new_account_daily_limit order_velocity listing_velocity : FraudRefusal

pub record PurchaseAttempt : Type 0 where
  pub account_age_ms : ℕ
  pub amount_cents : ℕ
  pub orders_last_day : ℕ
  pub orders_last_hour : ℕ

abbrev pub new_account_ms : ℕ
new_account_ms = new_account_hours * 60 * 60 * 1000

unfoldable pub check_purchase : PurchaseAttempt → Option FraudRefusal
check_purchase attempt =
    let is_new = ltb attempt.account_age_ms new_account_ms in
    if is_new && ltb new_account_max_order_cents attempt.amount_cents
    then some new_account_order_too_large
    else if is_new && leb new_account_max_orders_per_day attempt.orders_last_day
    then some new_account_daily_limit
    else if leb max_orders_per_hour attempt.orders_last_hour
    then some order_velocity
    else none

unfoldable pub check_listing : ℕ → Option FraudRefusal
check_listing listings_last_hour =
    if leb max_listings_per_hour listings_last_hour then some listing_velocity else none

-- A purchase goes ahead exactly when fewer than ten orders were opened in the last hour and the
-- account is either a day old, or is new, spends at most $150 and opened fewer than three orders.
pub purchase_allowed_iff :
    (a : PurchaseAttempt)
    → (check_purchase a ≡ none) ↔ (
        (a.orders_last_hour < 10)
        × ((86400000 ≤ a.account_age_ms) ⊎ ((a.amount_cents ≤ 15000) × (a.orders_last_day < 3))))
unfolding check_purchase
purchase_allowed_iff a = (λ h. grind arith, λ h. ground arith)
