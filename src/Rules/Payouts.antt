-- ===== src/Rules/Payouts.antt =====
-- When a new seller's payouts start running themselves (packages/core/src/payouts.ts). Times are
-- milliseconds since the epoch.
use gundam_tcg_hub.Base.{
  Option-cases, ◌≢◌, ℕ, ◌+◌, ◌*◌, ◌≤◌, ◌≡◌, ◌↔◌, Option, none, some, arith, ltb, ◌==◌,
  if◌then◌else◌, ◌⊎◌, inl, inr,
}
use gundam_tcg_hub.Base.Int.{pos, sub_ℕ, ltb_ℤ}

abbrev pub hold_release_after_orders : ℕ
hold_release_after_orders = 3

abbrev pub hold_release_after_days : ℕ
hold_release_after_days = 7

abbrev pub hold_ms : ℕ
hold_ms = hold_release_after_days * 24 * 60 * 60 * 1000

pub record HoldStatus : Type 0 where
  pub completed_orders : ℕ
  pub first_completed_at : Option ℕ

pub data HoldReason : Type 0 where
  no_completed_orders too_few_orders too_soon : HoldReason

pub data HoldDecision : Type 0 where
  release : HoldDecision
  hold : HoldReason → HoldDecision

-- `now - first` may be negative, so it is an integer.
release_after : ℕ → ℕ → ℕ → HoldDecision
release_after completed first now =
    if ltb completed hold_release_after_orders
    then hold too_few_orders
    else if ltb_ℤ (sub_ℕ now first) (pos hold_ms)
    then hold too_soon
    else release

unfoldable pub can_release_hold : HoldStatus → ℕ → HoldDecision
unfolding release_after
can_release_hold status now = elim status.first_completed_at [
  | none ↦ hold no_completed_orders
  | some first ↦
      if status.completed_orders == 0
      then hold no_completed_orders
      else release_after status.completed_orders first now
]

unfoldable pub hold_reviewable_at : HoldStatus → Option ℕ
hold_reviewable_at status = elim status.first_completed_at [
  | none ↦ none
  | some first ↦
      if ltb status.completed_orders hold_release_after_orders then none else some (first + hold_ms)
]

released_reviewable :
    (status : HoldStatus) (first now : ℕ)
    → status.first_completed_at ≡ some first
    → can_release_hold status now ≡ release
    → (hold_reviewable_at status ≡ some (first + hold_ms)) × (first + hold_ms ≤ now)
unfolding can_release_hold hold_reviewable_at
released_reviewable status first now e h = ground arith

not_released :
    (status : HoldStatus) (now : ℕ)
    → status.first_completed_at ≡ none
    → can_release_hold status now ≢ release
unfolding can_release_hold
not_released status now e h = ground arith

reviewable_released :
    (status : HoldStatus) (date now : ℕ)
    → hold_reviewable_at status ≡ some date
    → date ≤ now
    → can_release_hold status now ≡ release
unfolding can_release_hold hold_reviewable_at
reviewable_released status date now e h = ground arith

-- The date that is shown to a seller is the truth: a hold is released at a time `now` exactly when
-- there is a date to show and it has come.
pub released_iff_reviewable :
    (status : HoldStatus) (now : ℕ)
    → (can_release_hold status now ≡ release)
      ↔ ((date : ℕ) × (hold_reviewable_at status ≡ some date) × (date ≤ now))
released_iff_reviewable status now = (forth (Option-cases status.first_completed_at), back)
  where
    forth :
        (status.first_completed_at ≡ none)
          ⊎ ((first : ℕ) × (status.first_completed_at ≡ some first))
        → can_release_hold status now ≡ release
        → (date : ℕ) × (hold_reviewable_at status ≡ some date) × (date ≤ now)
    forth (inl e) h = absurd (not_released status now e h)
    forth (inr (first, e)) h =
        let r = released_reviewable status first now e h in (first + hold_ms, r.0, r.1)

    back :
        (date : ℕ) × (hold_reviewable_at status ≡ some date) × (date ≤ now)
        → can_release_hold status now ≡ release
    back (date, e, h) = reviewable_released status date now e h
