-- ===== src/Orders/Shipping.antt =====
-- Shipping an order (`shipOrder` of packages/db/src/queries/orders.ts) on every branch.
use gundam_tcg_hub.Base.{
  ℕ, ◌≡◌, refl, true, false, ◌&&◌, not, none, some, ◌==◌, if◌then◌else◌, arith, Option-cases,
  Bool-cases, inl, inr, ◌⊎◌,
}
use gundam_tcg_hub.Base.Table.{find}
use gundam_tcg_hub.Order.{paid, shipped, same_status, seller, transition, not_a_transition}
use gundam_tcg_hub.Order.Safety.{same_status→eq}
use gundam_tcg_hub.Orders.Schema.{
  OrderEvent, Order, Store, order_checks, holds_listing, event_checks,
}
use gundam_tcg_hub.Orders.Db.{
  web, ok, err, Result, order_not_found, wrong_party, the_seller, illegal_transition, is_party,
  sees, may_write, select_order,
}
use gundam_tcg_hub.Orders.Queries.{move, check_party, ship_order, ship_input}
use gundam_tcg_hub.Orders.Effects.{advanced_store}
use gundam_tcg_hub.Orders.Constraints.{IsSound}
use gundam_tcg_hub.Orders.Live.{Narrows, refusal-none, move_live}

-- The order as the seller has posted it.
abbrev pub posted : ℕ → ℕ → ℕ → Order → Order
posted carrier number at o = record o {
  status = shipped;
  tracking_carrier = some carrier;
  tracking_number = some number;
  shipped_at = some at;
  updated_at = at;
}

abbrev pub posting : ℕ → ℕ → ℕ → OrderEvent
posting id user at = record {
  order_id = id;
  from_status = paid;
  to_status = shipped;
  actor = seller;
  actor_id = some user;
  reason = none;
  at_time = at;
}

-- What shipping should answer, told without the machinery of the queries.
abbrev pub ship_reference : ℕ → ℕ → ℕ → ℕ → Store → Result (Order × Store)
ship_reference user id carrier number s = elim (find id s.orders) [
  | none ↦ err order_not_found
  | some o ↦
      if not (is_party user o)
      then err order_not_found
      else if not (o.seller_id == user)
      then err (wrong_party the_seller)
      else if not (same_status o.status paid)
      then err (illegal_transition o.status shipped seller not_a_transition)
      else ok (
        posted carrier number s.clock o,
        advanced_store s id (posted carrier number s.clock o) (posting id user s.clock),
      )
]

posted-checks :
    (carrier number at : ℕ) (o : Order)
    → o.status ≡ paid
    → order_checks o ≡ true
    → order_checks (posted carrier number at o) ≡ true
unfolding order_checks
posted-checks carrier number at o p c = ground arith

posted-Narrows :
    (carrier number at : ℕ) (o : Order) → o.status ≡ paid → Narrows o (posted carrier number at o)
unfolding holds_listing
posted-Narrows carrier number at o p = record {
  listing = refl;
  holds = λ _. rw p;
  checkout = refl;
  intent = refl;
}

ship_refused :
    (user id carrier number : ℕ) (s : Store) (o : Order)
    → find id s.orders ≡ some o
    → (is_party user o ≡ false)
      ⊎ ((o.seller_id == user) ≡ false)
      ⊎ (same_status o.status paid ≡ false)
    → ship_order user id carrier number s ≡ ship_reference user id carrier number s
unfolding ship_order move select_order check_party transition sees
ship_refused user id carrier number s o e why = ground arith

ship_missing :
    (user id carrier number : ℕ) (s : Store)
    → find id s.orders ≡ none
    → ship_order user id carrier number s ≡ ship_reference user id carrier number s
unfolding ship_order move select_order
ship_missing user id carrier number s e = ground arith

ship_granted :
    (user id carrier number since : ℕ) (s : Store) (o : Order)
    → IsSound s
    → find user s.users ≡ some since
    → find id s.orders ≡ some o
    → (o.seller_id == user) ≡ true
    → same_status o.status paid ≡ true
    → ship_order user id carrier number s ≡ ship_reference user id carrier number s
unfolding ship_order sees may_write check_party transition event_checks
ship_granted user id carrier number since s o v u e p q =
    let st : o.status ≡ paid = same_status→eq o.status paid q in
    let made =
      move_live (web user) id (ship_input user carrier number s.clock) s o e (ground arith)
        (ground arith) (ground arith) (ground arith) (ground arith)
        (refusal-none id o (posted carrier number s.clock o) s v e
          (posted-checks carrier number s.clock o st (v.checked id o e))
          (posted-Narrows carrier number s.clock o st))
        (ground arith) (ground arith) in
    ground (arith, made)

-- Shipping answers as `ship_reference` says, on every branch: an order that is not there or not theirs
-- is not found, the buyer is the wrong party, an order that is not `paid` cannot be shipped, and in
-- every other case the row, with its tracking, and one event are written.
pub ship_order-eq-reference :
    (user id carrier number since : ℕ) (s : Store)
    → IsSound s
    → find user s.users ≡ some since
    → ship_order user id carrier number s ≡ ship_reference user id carrier number s
ship_order-eq-reference user id carrier number since s v u =
    elim (Option-cases (find id s.orders)) [
      | inl e ↦ ship_missing user id carrier number s e
      | inr (o, e) ↦ elim (Bool-cases ((o.seller_id == user) && same_status o.status paid)) [
        | inl both_hold ↦
            ship_granted user id carrier number since s o v u e (ground arith) (ground arith)
        | inr one_fails ↦ ship_refused user id carrier number s o e (ground arith)
      ]
    ]
