-- ===== src/Orders/Queries.antt =====
-- The order queries (packages/db/src/queries/orders.ts), one definition for each function that writes.
use gundam_tcg_hub.Base.{
  ℕ, Bool, ◌&&◌, not, Option, none, some, ◌==◌, if◌then◌else◌, any, is_some, get_or, same_option,
}
use gundam_tcg_hub.Base.Table.{find, insert}
use gundam_tcg_hub.Order.{
  OrderStatus, created, shipped, delivered, completed, cancelled, disputed, OrderActor, buyer,
  seller, admin, stripe, system, Outcome, moved, refused, transition,
}
use gundam_tcg_hub.Orders.Schema.{Order, OrderEvent, Store, Text}
use gundam_tcg_hub.Orders.Db.{
  Db, Error, pg, listing_unavailable, missing_listing, order_not_found, wrong_party,
  illegal_transition, vanished, ok, err, pure, throw, or_throw, ◌>>=◌, ◌>>◌, now, throw_if, Role,
  web, worker, Party, the_buyer, the_seller, select_order, update_order, insert_event, refusal,
  orders_pkey, one_open_per_listing, unique_violation, foreign_key_violation, PgError,
}

pub record CreateOrderInput : Type 0 where
  pub seller_id : ℕ
  pub listing_id : ℕ
  pub card_variant_id : ℕ
  pub condition : ℕ
  pub quantity : ℕ
  pub amount_cents : ℕ
  pub fee_cents : ℕ
  pub currency : ℕ

-- The nine columns of the insert; the others take their defaults.
abbrev pub new_order : ℕ → CreateOrderInput → ℕ → Order
new_order buyer_id input at = record {
  buyer_id = buyer_id;
  seller_id = input.seller_id;
  listing_id = some input.listing_id;
  card_variant_id = input.card_variant_id;
  condition = input.condition;
  quantity = input.quantity;
  status = created;
  amount_cents = input.amount_cents;
  fee_cents = input.fee_cents;
  tax_cents = 0;
  currency = input.currency;
  stripe_checkout_id = none;
  stripe_payment_intent_id = none;
  tracking_carrier = none;
  tracking_number = none;
  paid_at = none;
  shipped_at = none;
  delivered_at = none;
  completed_at = none;
  created_at = at;
  updated_at = at;
}

abbrev pub references_ok : Order → Store → Bool
references_ok o s =
    is_some (find o.buyer_id s.users)
    && is_some (find o.seller_id s.users)
    && is_some (find (get_or o.listing_id 0) s.listings)
    && any (λ (v : ℕ). v == o.card_variant_id) s.variants

-- The `catch` of `createOrder`.
abbrev pub insert_failure : PgError → Error
insert_failure (unique_violation one_open_per_listing) = listing_unavailable
insert_failure foreign_key_violation = missing_listing
insert_failure e = pg e

-- The INSERT of `createOrder`. The key is what `gen_random_uuid()` has drawn.
unfoldable pub insert_order : ℕ → Order → Db (Unit {0})
insert_order id o s =
    if is_some (find id s.orders)
    then err (insert_failure (unique_violation orders_pkey))
    else elim (refusal id o s) [
      | some e ↦ err (insert_failure e)
      | none ↦
          if references_ok o s
          then ok (tt, record s { orders = insert id o s.orders })
          else err (insert_failure foreign_key_violation)
    ]

unfoldable pub create_order : ℕ → ℕ → CreateOrderInput → Db Order
unfolding insert_order
create_order id buyer_id input = do
  at ← now
  insert_order id (new_order buyer_id input at)
  row ← select_order (web buyer_id) id
  or_throw row vanished

abbrev pub checkout_columns : ℕ → ℕ → Order → Order
checkout_columns session at o = record o { stripe_checkout_id = some session; updated_at = at }

unfoldable pub attach_checkout_session : ℕ → ℕ → ℕ → Db (Unit {0})
attach_checkout_session buyer_id id session = do
  at ← now
  row ← update_order (web buyer_id) id (checkout_columns session at)
  pure tt

pub record TransitionSet : Type 0 where
  pub tracking_carrier : Option ℕ
  pub tracking_number : Option ℕ
  pub shipped_at : Option ℕ
  pub delivered_at : Option ℕ
  pub completed_at : Option ℕ

abbrev pub nothing_set : TransitionSet
nothing_set = record {
  tracking_carrier = none;
  tracking_number = none;
  shipped_at = none;
  delivered_at = none;
  completed_at = none;
}

pub record MoveInput : Type 0 where
  pub to : OrderStatus
  pub actor : OrderActor
  pub actor_id : Option ℕ
  pub reason : Option Text
  pub columns : TransitionSet
  pub must_be : Option Party

abbrev pub or_else : Option ℕ → Option ℕ → Option ℕ
or_else none old = old
or_else (some v) old = some v

-- `.set({ status: to, ...(input.set ?? {}), updatedAt: new Date() })`
abbrev pub move_columns : OrderStatus → TransitionSet → ℕ → Order → Order
move_columns to c at o = record o {
  status = to;
  tracking_carrier = or_else c.tracking_carrier o.tracking_carrier;
  tracking_number = or_else c.tracking_number o.tracking_number;
  shipped_at = or_else c.shipped_at o.shipped_at;
  delivered_at = or_else c.delivered_at o.delivered_at;
  completed_at = or_else c.completed_at o.completed_at;
  updated_at = at;
}

abbrev pub party_of : Party → Order → ℕ
party_of the_buyer o = o.buyer_id
party_of the_seller o = o.seller_id

unfoldable pub check_party : Option Party → Option ℕ → Order → Db (Unit {0})
check_party none actor_id o = pure tt
check_party (some p) actor_id o =
    throw_if (not (same_option (some (party_of p o)) actor_id)) (wrong_party p)

-- `transition`, which throws where it refuses.
abbrev pub or_illegal : Outcome → Db OrderStatus
or_illegal (moved to) = pure to
or_illegal (refused from to actor reason) = throw (illegal_transition from to actor reason)

-- A machine is not a person.
abbrev pub recorded_actor : OrderActor → Option ℕ → Option ℕ
recorded_actor stripe id = none
recorded_actor system id = none
recorded_actor _ id = id

abbrev pub move_event : ℕ → OrderStatus → OrderStatus → MoveInput → ℕ → OrderEvent
move_event id from to input at = record {
  order_id = id;
  from_status = from;
  to_status = to;
  actor = input.actor;
  actor_id = recorded_actor input.actor input.actor_id;
  reason = input.reason;
  at_time = at;
}

unfoldable pub move : Role → ℕ → MoveInput → Db Order
unfolding check_party
move role id input = do
  found ← select_order role id
  existing ← or_throw found order_not_found
  check_party input.must_be input.actor_id existing
  to ← or_illegal (transition existing.status input.to input.actor)
  at ← now
  written ← update_order role id (move_columns to input.columns at)
  updated ← or_throw written vanished
  insert_event role (move_event id existing.status to input at)
  pure updated

abbrev pub ship_input : ℕ → ℕ → ℕ → ℕ → MoveInput
ship_input seller_id carrier number at = record {
  to = shipped;
  actor = seller;
  actor_id = some seller_id;
  reason = none;
  columns = record nothing_set {
    tracking_carrier = some carrier;
    tracking_number = some number;
    shipped_at = some at;
  };
  must_be = some the_seller;
}

unfoldable pub ship_order : ℕ → ℕ → ℕ → ℕ → Db Order
ship_order seller_id id carrier number = do
  at ← now
  move (web seller_id) id (ship_input seller_id carrier number at)

abbrev pub cancel_input : OrderActor → ℕ → Option Text → MoveInput
cancel_input actor user_id reason = record {
  to = cancelled;
  actor = actor;
  actor_id = some user_id;
  reason = reason;
  columns = nothing_set;
  must_be = none;
}

unfoldable pub cancel_order : ℕ → ℕ → Option Text → Db Order
cancel_order user_id id reason = do
  found ← select_order (web user_id) id
  existing ← or_throw found order_not_found
  let actor = if existing.buyer_id == user_id then buyer else seller
  move (web user_id) id (cancel_input actor user_id reason)

abbrev pub dispute_input : ℕ → Text → MoveInput
dispute_input buyer_id reason = record {
  to = disputed;
  actor = buyer;
  actor_id = some buyer_id;
  reason = some reason;
  columns = nothing_set;
  must_be = some the_buyer;
}

unfoldable pub dispute_order : ℕ → ℕ → Text → Db Order
dispute_order buyer_id id reason = move (web buyer_id) id (dispute_input buyer_id reason)

-- `by: { actor: 'system' | 'admin'; actorId?; reason? }`
pub data ByActor : Type 0 where
  by_system : ByActor
  by_admin : ByActor

abbrev pub actor_of : ByActor → OrderActor
actor_of by_system = system
actor_of by_admin = admin

abbrev pub worker_input : OrderStatus → ByActor → Option ℕ → Option Text → TransitionSet → MoveInput
worker_input to by actor_id reason columns = record {
  to = to;
  actor = actor_of by;
  actor_id = actor_id;
  reason = reason;
  columns = columns;
  must_be = none;
}

unfoldable pub mark_order_delivered : ℕ → ByActor → Option ℕ → Option Text → Db Order
mark_order_delivered id by actor_id reason = do
  at ← now
  move worker id
      (worker_input delivered by actor_id reason (record nothing_set { delivered_at = some at }))

unfoldable pub complete_order : ℕ → ByActor → Option ℕ → Option Text → Db Order
complete_order id by actor_id reason = do
  at ← now
  move worker id
      (worker_input completed by actor_id reason (record nothing_set { completed_at = some at }))
