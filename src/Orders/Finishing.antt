-- ===== src/Orders/Finishing.antt =====
-- The clock completes a delivered order (`completeOrder` in packages/db/src/queries/orders.ts).
use gundam_tcg_hub.Base.{ℕ, ◌≡◌, refl, true, none, some, [], ◌∷◌, arith, subst}
use gundam_tcg_hub.Base.Table.{find}
use gundam_tcg_hub.Order.{delivered, completed, system, transition}
use gundam_tcg_hub.Orders.Schema.{
  Order, Store, order_checks, holds_listing, event_checks, OrderEvent,
}
use gundam_tcg_hub.Orders.Db.{ok, worker, sees, may_write}
use gundam_tcg_hub.Orders.Queries.{
  complete_order, by_system, worker_input, nothing_set, check_party,
}
use gundam_tcg_hub.Orders.Effects.{advanced_store}
use gundam_tcg_hub.Orders.Calls.{completes, perform, perform_all}
use gundam_tcg_hub.Orders.Constraints.{IsSound, perform_all-IsSound}
use gundam_tcg_hub.Orders.Live.{Narrows, refusal-none, move_live}

abbrev pub finished : ℕ → Order → Order
finished at o = record o { status = completed; completed_at = some at; updated_at = at }

pub finish_event : ℕ → ℕ → OrderEvent
finish_event id at = record {
  order_id = id;
  from_status = delivered;
  to_status = completed;
  actor = system;
  actor_id = none;
  reason = none;
  at_time = at;
}

finished-checks :
    (at : ℕ) (o : Order)
    → o.status ≡ delivered
    → order_checks o ≡ true
    → order_checks (finished at o) ≡ true
unfolding order_checks
finished-checks at o p c = ground arith

finished-Narrows : (at : ℕ) (o : Order) → o.status ≡ delivered → Narrows o (finished at o)
unfolding holds_listing
finished-Narrows at o p = record {
  listing = refl;
  holds = λ _. rw p;
  checkout = refl;
  intent = refl;
}

-- In a sound store the clock can complete every delivered order.
pub complete_order_live :
    (id : ℕ) (s : Store) (o : Order)
    → IsSound s
    → find id s.orders ≡ some o
    → o.status ≡ delivered
    → complete_order id by_system none none s
      ≡ ok (finished s.clock o, advanced_store s id (finished s.clock o) (finish_event id s.clock))
unfolding complete_order sees may_write check_party transition event_checks finish_event
complete_order_live id s o v e st =
    let made =
      move_live worker id
        (worker_input completed by_system none none
          (record nothing_set { completed_at = some s.clock }))
        s o e (ground arith) (ground arith) (ground arith) (ground arith) (ground arith)
        (refusal-none id o (finished s.clock o) s v e
          (finished-checks s.clock o st (v.checked id o e)) (finished-Narrows s.clock o st))
        (ground arith) (ground arith) in
    ground (arith, made)

abbrev pub finished_store : ℕ → Order → Store → Store
finished_store id o s = advanced_store s id (finished s.clock o) (finish_event id s.clock)

one_call :
    (id : ℕ) (s : Store) (o : Order)
    → IsSound s
    → find id s.orders ≡ some o
    → o.status ≡ delivered
    → perform_all (completes id by_system none none ∷ []) s ≡ finished_store id o s
unfolding perform_all perform
one_call id s o v e st = rw (complete_order_live id s o v e st) refl

pub finished_store-IsSound :
    (id : ℕ) (s : Store) (o : Order)
    → IsSound s
    → find id s.orders ≡ some o
    → o.status ≡ delivered
    → IsSound (finished_store id o s)
finished_store-IsSound id s o v e st =
    subst IsSound (one_call id s o v e st)
      (perform_all-IsSound (completes id by_system none none ∷ []) s v)
