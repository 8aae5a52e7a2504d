-- ===== src/Orders/History.antt =====
-- The history of an order (`order_events`) against its status: replaying what is recorded gives the
-- status that the row has (packages/db/src/queries/orders.ts, `move` and `markOrderPaid`).
use gundam_tcg_hub.Base.{
  ℕ, ◌≡◌, refl, Bool, true, false, ◌&&◌, Option, none, some, List, [], ◌∷◌, ◌++◌, ◌==◌,
  if◌then◌else◌, any, ◌≢◌, ◌∙◌, arith, Option-cases, Bool-cases, ==_iff, ==_refl, inl, inr, ◌⊎◌,
  ◌||◌,
}
use gundam_tcg_hub.Base.Table.{find, find-write, find-insert}
use gundam_tcg_hub.Order.{
  OrderStatus, created, paid, stripe, can_transition, same_status, money_has_moved, OrderActor,
  same_actor,
}
use gundam_tcg_hub.Order.Safety.{same_status→eq}
use gundam_tcg_hub.Orders.Schema.{Order, OrderEvent, Store}
use gundam_tcg_hub.Orders.Db.{Role}
use gundam_tcg_hub.Orders.Step.{Step, kept, opened, edited, advanced, Writes, Records}
use gundam_tcg_hub.Orders.Calls.{Call, perform_all, perform_all_induction}

-- One event of the order `id`: it must start where the order is, and be a legal move.
pub apply_event : ℕ → OrderEvent → OrderStatus → Option OrderStatus
apply_event id e s =
    if e.order_id == id
    then (if same_status e.from_status s && can_transition s e.to_status e.actor
        then some e.to_status
        else none)
    else some s

unfoldable pub replay : ℕ → List OrderEvent → OrderStatus → Option OrderStatus
replay id [] s = some s
replay id (e ∷ es) s = elim (apply_event id e s) [ none ↦ none | some u ↦ replay id es u ]

unfoldable pub mentions : ℕ → List OrderEvent → Bool
mentions id [] = false
mentions id (e ∷ es) = (e.order_id == id) || mentions id es

replay-append :
    (id : ℕ) (es : List OrderEvent) (e : OrderEvent) (s u : OrderStatus)
    → replay id es s ≡ some u
    → replay id (es ++ (e ∷ [])) s ≡ apply_event id e u
unfolding replay
replay-append id [] e s u h = ground arith
replay-append id (x ∷ es) e s u h = elim (Option-cases (apply_event id x s)) [
  | inl n ↦ absurd (ground arith)
  | inr (w, m) ↦ rw (m, replay) (replay-append id es e w u (ground arith))
]

replay_unmentioned :
    (id : ℕ) (es : List OrderEvent) (s : OrderStatus)
    → mentions id es ≡ false
    → replay id es s ≡ some s
unfolding replay mentions apply_event
replay_unmentioned id [] s h = refl
replay_unmentioned id (x ∷ es) s h = ground (arith, replay_unmentioned id es s)

mentions-append :
    (id : ℕ) (es : List OrderEvent) (e : OrderEvent)
    → mentions id (es ++ (e ∷ [])) ≡ (mentions id es || (e.order_id == id))
unfolding mentions
mentions-append id [] e = ground arith
mentions-append id (x ∷ es) e = ground (arith, mentions-append id es e)

same_status_refl : (s : OrderStatus) → same_status s s ≡ true
same_status_refl s = ==_refl _

-- Each order's recorded history, replayed from `created`, leads to the status that its row has, and
-- no event is about an order that is not there.
pub record IsConsistent (s : Store) : Type 0 where
  pub replays :
      (id : ℕ) (o : Order) → find id s.orders ≡ some o → replay id s.events created ≡ some o.status
  pub known : (id : ℕ) → find id s.orders ≡ none → mentions id s.events ≡ false

abbrev pub ConsistentRow : Store → ℕ → Option Order → Type 0
ConsistentRow s id none = mentions id s.events ≡ false
ConsistentRow s id (some o) = replay id s.events created ≡ some o.status

apply_event_self :
    (id : ℕ) (o o' : Order) (e : OrderEvent)
    → Records id o o' e
    → apply_event id e o.status ≡ some o'.status
unfolding apply_event
apply_event_self id o o' e r = rw (r.order, r.from, r.to, same_status_refl, ==_refl, r.legal)

apply_event_other :
    (id : ℕ) (e : OrderEvent) (s : OrderStatus) → e.order_id ≢ id → apply_event id e s ≡ some s
unfolding apply_event
apply_event_other id e s n = ground arith

module _ (role : Role) (s t : Store) (c : IsConsistent s) where
  replays_advanced :
      (id : ℕ) (o o' : Order) (e : OrderEvent)
      → Writes role id o o' s t
      → Records id o o' e
      → t.events ≡ s.events ++ (e ∷ [])
      → (j : ℕ) (p : Order) → find j t.orders ≡ some p
      → replay j t.events created ≡ some p.status
  replays_advanced id o o' e w r v j p q = ground (
    arith,
    c.replays j p,
    c.replays id o w.row,
    find-write j id o' s.orders,
    replay-append id s.events e created o.status,
    replay-append j s.events e created p.status,
    apply_event_self id o o' e r,
    apply_event_other j e p.status,
    r.order,
    ==_iff id j,
  )

  Step-replays :
      Step role s t
      → (j : ℕ) (p : Order) → find j t.orders ≡ some p
      → replay j t.events created ≡ some p.status
  Step-replays (kept a b) j p q = ground (arith, c.replays j p)
  Step-replays (opened id o n st ref a b) j p q = ground (
    arith,
    c.replays j p,
    find-insert j id o s.orders,
    c.known id n,
    replay_unmentioned id s.events created,
  )
  Step-replays (edited id o o' w st b) j p q =
      ground (arith, c.replays j p, find-write j id o' s.orders, c.replays id o w.row)
  Step-replays (advanced id o o' e w r b) j p q = replays_advanced id o o' e w r b j p q

  Step-known : Step role s t → (j : ℕ) → find j t.orders ≡ none → mentions j t.events ≡ false
  Step-known (kept a b) j q = ground (arith, c.known j)
  Step-known (opened id o n st ref a b) j q = ground (arith, c.known j, find-insert j id o s.orders)
  Step-known (edited id o o' w st b) j q = ground (arith, c.known j, find-write j id o' s.orders)
  Step-known (advanced id o o' e w r b) j q =
      ground (arith, c.known j, find-write j id o' s.orders, mentions-append j s.events e)

Step-IsConsistent : (role : Role) (s t : Store) → Step role s t → IsConsistent s → IsConsistent t
Step-IsConsistent role s t st c = record {
  replays = Step-replays role s t c st;
  known = Step-known role s t c st;
}

-- Whatever calls are made, in whatever order and by whomever: if at the start each order's history
-- explains its status, then so it is at the end. The history is replayed from `created`, and each
-- event in it is a move that the table allows its actor.
pub perform_all-IsConsistent :
    (cs : List Call) (s : Store) → IsConsistent s → IsConsistent (perform_all cs s)
perform_all-IsConsistent = perform_all_induction IsConsistent Step-IsConsistent

-- An event that says that Stripe moved the order from `created` to `paid`.
abbrev pub is_payment : ℕ → OrderEvent → Bool
is_payment id e =
    (e.order_id == id)
    && same_status e.from_status created
    && same_status e.to_status paid
    && same_actor e.actor stripe

first_money :
    (from to : OrderStatus) (a : OrderActor)
    → can_transition from to a ≡ true
    → money_has_moved from ≡ false
    → money_has_moved to ≡ true
    → (from ≡ created) × (to ≡ paid) × (a ≡ stripe)
unfolding can_transition money_has_moved
first_money from to a h p q = ground arith

apply_event_cases :
    (id : ℕ) (e : OrderEvent) (s u : OrderStatus)
    → apply_event id e s ≡ some u
    → (u ≡ s)
      ⊎ (((e.order_id == id) ≡ true)
          × (e.from_status ≡ s)
          × (e.to_status ≡ u)
          × (can_transition s u e.actor ≡ true))
unfolding apply_event
apply_event_cases id e s u h = ground (arith, same_status→eq e.from_status s)

payment_test :
    (id : ℕ) (e : OrderEvent)
    → (e.order_id == id) ≡ true
    → e.from_status ≡ created
    → e.to_status ≡ paid
    → e.actor ≡ stripe
    → is_payment id e ≡ true
payment_test id e a b c d = rw (a, b, c, d)

event_step :
    (id : ℕ) (e : OrderEvent) (s u : OrderStatus)
    → apply_event id e s ≡ some u
    → money_has_moved s ≡ false
    → (is_payment id e ≡ true) ⊎ (money_has_moved u ≡ false)
event_step id e s u h m = elim (Bool-cases (money_has_moved u)) [
  | inr q ↦ inr q
  | inl q ↦ elim (apply_event_cases id e s u h) [
    | inl same ↦ absurd (ground arith)
    | inr (a, b, c, d) ↦
        let f = first_money s u e.actor d m q in inl (payment_test id e a (b ∙ f.0) (c ∙ f.1) f.2)
  ]
]

replay_payment :
    (id : ℕ) (es : List OrderEvent) (s u : OrderStatus)
    → replay id es s ≡ some u
    → money_has_moved s ≡ false
    → money_has_moved u ≡ true
    → any (is_payment id) es ≡ true
unfolding replay
replay_payment id [] s u h p q = absurd (ground arith)
replay_payment id (e ∷ es) s u h p q = elim (Option-cases (apply_event id e s)) [
  | inl n ↦ absurd (ground arith)
  | inr (w, m) ↦ elim (event_step id e s w m p) [
    | inl found ↦ rw found
    | inr unmoved ↦ ground (arith, replay_payment id es w u)
  ]
]

-- In a store that any calls have made from one where each order's history explains its status, an
-- order for which `money_has_moved` holds has an event in its history by which Stripe moved it from
-- `created` to `paid`.
pub money_has_evidence :
    (cs : List Call) (s : Store) (id : ℕ) (o : Order)
    → IsConsistent s
    → find id (perform_all cs s).orders ≡ some o
    → money_has_moved o.status ≡ true
    → any (is_payment id) (perform_all cs s).events ≡ true
unfolding money_has_moved
money_has_evidence cs s id o c f m =
    replay_payment id _ created o.status ((perform_all-IsConsistent cs s c).replays id o f) refl m
