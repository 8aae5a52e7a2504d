-- ===== src/Rules/Tests.antt =====
-- Runs of the rules, and the theorems about them at concrete inputs.
use gundam_tcg_hub.Base.{◌≡◌, refl, none, some}
use gundam_tcg_hub.Base.Int.{pos}
use gundam_tcg_hub.Rules.Fees.{application_fee_cents, fee}
use gundam_tcg_hub.Rules.Payouts.{HoldStatus}
use gundam_tcg_hub.Rules.Fraud.{PurchaseAttempt}
use gundam_tcg_hub.Rules.Listing.{validate_listing, ListingDraft}

-- 5% of $12.50 is 62.5 cents, which rounds up.
fee_tie : application_fee_cents (pos 1250) (pos 500) ≡ fee 63
unfolding application_fee_cents
fee_tie = refl

abbrev veteran : HoldStatus
veteran = record { completed_orders = 3; first_completed_at = some 1000 }

abbrev first_purchase : PurchaseAttempt
first_purchase = record {
  account_age_ms = 60000;
  amount_cents = 15000;
  orders_last_day = 2;
  orders_last_hour = 2;
}

-- Two copies of a card, one cent above the price from which photos are required.
abbrev offered : ListingDraft
offered = record { price_cents = pos 2501; quantity = pos 2; notes_length = none }

accepts_offered : validate_listing offered ≡ none
unfolding validate_listing
accepts_offered = refl
