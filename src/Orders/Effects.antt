-- ===== src/Orders/Effects.antt =====
-- What a query that returns has done to the store: inversion of the queries of
-- packages/db/src/queries/orders.ts.
use gundam_tcg_hub.Base.{
  ℕ, ◌≡◌, refl, true, Option, none, some, [], ◌∷◌, ◌++◌, ◌⊎◌, inl, inr, arith, Option-cases,
  Bool-cases,
}
use gundam_tcg_hub.Base.Table.{find, write}
use gundam_tcg_hub.Order.{
  OrderStatus, OrderActor, Reason, moved, refused, transition, can_transition, moves, includes,
}
use gundam_tcg_hub.Orders.Schema.{Order, OrderEvent, Store, event_checks}
use gundam_tcg_hub.Orders.Db.{
  Result, ok, err, Role, select_order, update_order, insert_event, refusal, may_write, sees,
}
use gundam_tcg_hub.Orders.Queries.{MoveInput, move, check_party, move_columns, move_event}

pub transition_cases :
    (from to : OrderStatus) (a : OrderActor)
    → ((transition from to a ≡ moved to) × (can_transition from to a ≡ true))
      ⊎ ((r : Reason) × (transition from to a ≡ refused from to a r))
unfolding transition can_transition
transition_cases from to a = elim (Option-cases (moves from to)) [
  | inl e ↦ inr (Reason.not_a_transition, rw (e, transition))
  | inr (actors, e) ↦ elim (Bool-cases (includes actors a)) [
    | inl p ↦ inl (ground arith, ground arith)
    | inr p ↦ inr (Reason.not_this_actor, ground arith)
  ]
]

-- The store after a row is rewritten and an event is appended.
abbrev pub advanced_store : Store → ℕ → Order → OrderEvent → Store
advanced_store s id o e = record s { orders = write id o s.orders; events = s.events ++ (e ∷ []) }

abbrev pub MoveDone : Role → ℕ → MoveInput → Store → Order → Order → Store → Type 0
MoveDone role id input s o o' t =
    let e = move_event id o.status input.to input s.clock in
    (sees role o ≡ true)
    × (can_transition o.status input.to input.actor ≡ true)
    × (o' ≡ move_columns input.to input.columns s.clock o)
    × (may_write role o' ≡ true)
    × (refusal id o' s ≡ none)
    × (event_checks e ≡ true)
    × (t ≡ advanced_store s id o' e)

pub insert_event_ok :
    (role : Role) (e : OrderEvent) (s t : Store) (u : Unit {0})
    → insert_event role e s ≡ ok (u, t)
    → (event_checks e ≡ true) × (t ≡ record s { events = s.events ++ (e ∷ []) })
unfolding insert_event
insert_event_ok role e s t u h = ground arith

pub update_order_ok :
    (role : Role) (id : ℕ) (f : Order → Order) (s t : Store) (o o' : Order)
    → find id s.orders ≡ some o
    → update_order role id f s ≡ ok (some o', t)
    → (sees role o ≡ true)
      × (o' ≡ f o)
      × (may_write role o' ≡ true)
      × (refusal id o' s ≡ none)
      × (t ≡ record s { orders = write id o' s.orders })
unfolding update_order
update_order_ok role id f s t o o' e h = ground arith

module _ (role : Role) (id : ℕ) (input : MoveInput) (s t : Store) (o o' : Order)
    (e : find id s.orders ≡ some o) (h : move role id input s ≡ ok (o', t)) where
  move_allowed :
      (transition o.status input.to input.actor ≡ moved input.to)
      × (can_transition o.status input.to input.actor ≡ true)
      × (check_party input.must_be input.actor_id o s ≡ ok (tt, s))
  unfolding move select_order
  move_allowed = ground (arith, transition_cases o.status input.to input.actor)

  abbrev moved_columns : Order → Order
  moved_columns = move_columns input.to input.columns s.clock

  abbrev moved_event : OrderEvent
  moved_event = move_event id o.status input.to input s.clock

  move_wrote :
      (r : Result (Option Order × Store))
      → update_order role id moved_columns s ≡ r
      → (w : Store) × (update_order role id moved_columns s ≡ ok (some o', w))
        × (insert_event role moved_event w ≡ ok (tt, t))
  unfolding move select_order
  move_wrote (ok (some x, w)) q = let a = move_allowed in (w, ground arith, ground arith)
  move_wrote (ok (none, w)) q = let a = move_allowed in absurd (ground arith)
  move_wrote (err x) q = let a = move_allowed in absurd (ground arith)

  pub move_ok : MoveDone role id input s o o' t
  move_ok =
      let (w, wrote, logged) = move_wrote _ refl in
      let u = update_order_ok role id moved_columns s w o o' e wrote in
      let v = insert_event_ok role moved_event w t tt logged in
      (u.0, move_allowed.1, u.1, u.2, u.3, v.0, cc)
