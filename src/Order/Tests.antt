-- ===== src/Order/Tests.antt =====
-- Runs of the table of moves, and the theorems about it at concrete inputs.
use gundam_tcg_hub.Base.{◌≡◌, refl, true, false, List, [], ◌∷◌}
use gundam_tcg_hub.Order.{
  OrderStatus, paid, shipped, completed, cancelled, refunded, disputed, OrderActor, buyer, seller,
  admin, stripe, system, transition, money_has_moved, next_states,
}
use gundam_tcg_hub.Order.Safety.{Request, after, run, cancelled_after_paid}

next_states_paid : next_states paid ≡ shipped ∷ refunded ∷ disputed ∷ cancelled ∷ []
unfolding next_states
next_states_paid = refl

abbrev by : OrderActor → OrderStatus → Request
by a s = record { to = s; actor = a }

abbrev quarrel : List Request
quarrel = by seller shipped ∷ by buyer completed ∷ by buyer disputed ∷ by seller completed ∷ []

quarrel_ends : run paid quarrel ≡ disputed
unfolding run transition
quarrel_ends = refl

abbrev pleas : List Request
pleas = by buyer paid ∷ by admin refunded ∷ by system cancelled ∷ []

cancelled_after_paid_example :
    let s = after paid (transition paid cancelled admin) in
    (run s (by stripe refunded ∷ []) ≡ cancelled)
    × (money_has_moved paid ≡ true)
    × (money_has_moved (run s (by stripe refunded ∷ [])) ≡ false)
cancelled_after_paid_example = cancelled_after_paid (by stripe refunded ∷ [])
