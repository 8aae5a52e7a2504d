-- ===== src/Orders/Refinement.antt =====
-- Every order query is a step of the specification (packages/db/src/queries/orders.ts).
use gundam_tcg_hub.Base.{
  ℕ, ◌≡◌, refl, ◌≢◌, Option, none, some, ◌==◌, if◌then◌else◌, inl, inr, arith, Option-cases,
}
use gundam_tcg_hub.Base.Table.{find}
use gundam_tcg_hub.Order.{OrderStatus, OrderActor, buyer, seller}
use gundam_tcg_hub.Orders.Schema.{Order, Store, Text}
use gundam_tcg_hub.Orders.Db.{ok, worker, web, Role, select_order}
use gundam_tcg_hub.Orders.Queries.{
  TransitionSet, MoveInput, move, move_columns, move_event, ship_order, cancel_order, dispute_order,
  mark_order_delivered, complete_order, ByActor, cancel_input,
}
use gundam_tcg_hub.Orders.Effects.{move_ok, MoveDone}
use gundam_tcg_hub.Orders.Step.{Frozen, Writes, Step, advanced}

pub move_missing :
    (role : Role) (id : ℕ) (input : MoveInput) (s t : Store) (o' : Order)
    → find id s.orders ≡ none
    → move role id input s ≢ ok (o', t)
unfolding move select_order
move_missing role id input s t o' e h = ground arith

move-Frozen :
    (role : Role) (to : OrderStatus) (columns : TransitionSet) (at : ℕ) (o : Order)
    → Frozen role o (move_columns to columns at o)
move-Frozen (web user) to columns at o = (refl, refl, refl)
move-Frozen worker to columns at o = tt

move_found-Writes :
    (role : Role) (id : ℕ) (input : MoveInput) (s t : Store) (o o' : Order)
    → find id s.orders ≡ some o
    → MoveDone role id input s o o' t
    → Writes role id o o' s t
move_found-Writes role id input s t o o' e d = record {
  row = e;
  visible = d.0;
  allowed = d.3;
  accepted = d.4;
  terms = ground arith;
  frozen = rw d.2 (move-Frozen role input.to input.columns s.clock o);
  written = ground arith;
}

move_found-Step :
    (role : Role) (id : ℕ) (input : MoveInput) (s t : Store) (o o' : Order)
    → find id s.orders ≡ some o
    → MoveDone role id input s o o' t
    → Step role s t
move_found-Step role id input s t o o' e d =
    advanced id o o' (move_event id o.status input.to input s.clock)
      (move_found-Writes role id input s t o o' e d) (ground arith) (ground arith)

pub move-Step :
    (role : Role) (id : ℕ) (input : MoveInput) (s t : Store) (o' : Order)
    → move role id input s ≡ ok (o', t)
    → Step role s t
move-Step role id input s t o' h = elim (Option-cases (find id s.orders)) [
  | inl e ↦ absurd (move_missing role id input s t o' e h)
  | inr (o, e) ↦ move_found-Step role id input s t o o' e (move_ok role id input s t o o' e h)
]

pub ship-Step :
    (user id carrier number : ℕ) (s t : Store) (o' : Order)
    → ship_order user id carrier number s ≡ ok (o', t)
    → Step (web user) s t
unfolding ship_order
ship-Step user id carrier number s t o' h = move-Step (web user) id _ s t o' h

pub dispute-Step :
    (user id : ℕ) (reason : Text) (s t : Store) (o' : Order)
    → dispute_order user id reason s ≡ ok (o', t)
    → Step (web user) s t
unfolding dispute_order
dispute-Step user id reason s t o' h = move-Step (web user) id _ s t o' h

pub delivered-Step :
    (id : ℕ) (by : ByActor) (a : Option ℕ) (reason : Option Text) (s t : Store) (o' : Order)
    → mark_order_delivered id by a reason s ≡ ok (o', t)
    → Step worker s t
unfolding mark_order_delivered
delivered-Step id by a reason s t o' h = move-Step worker id _ s t o' h

pub complete-Step :
    (id : ℕ) (by : ByActor) (a : Option ℕ) (reason : Option Text) (s t : Store) (o' : Order)
    → complete_order id by a reason s ≡ ok (o', t)
    → Step worker s t
unfolding complete_order
complete-Step id by a reason s t o' h = move-Step worker id _ s t o' h

cancelled_by : (user : ℕ) → Order → OrderActor
cancelled_by user o = if o.buyer_id == user then buyer else seller

cancel_moves :
    (user id : ℕ) (reason : Option Text) (s t : Store) (o o' : Order)
    → find id s.orders ≡ some o
    → cancel_order user id reason s ≡ ok (o', t)
    → move (web user) id (cancel_input (cancelled_by user o) user reason) s ≡ ok (o', t)
unfolding cancel_order select_order cancelled_by
cancel_moves user id reason s t o o' e h = ground arith

cancel_missing :
    (user id : ℕ) (reason : Option Text) (s t : Store) (o' : Order)
    → find id s.orders ≡ none
    → cancel_order user id reason s ≢ ok (o', t)
unfolding cancel_order select_order
cancel_missing user id reason s t o' e h = ground arith

pub cancel-Step :
    (user id : ℕ) (reason : Option Text) (s t : Store) (o' : Order)
    → cancel_order user id reason s ≡ ok (o', t)
    → Step (web user) s t
cancel-Step user id reason s t o' h = elim (Option-cases (find id s.orders)) [
  | inl e ↦ absurd (cancel_missing user id reason s t o' e h)
  | inr (o, e) ↦ move-Step (web user) id _ s t o' (cancel_moves user id reason s t o o' e h)
]
