-- ===== src/Webhook/Payment.antt =====
-- A paid Checkout session from the request to the order, and deliveries among the other calls
-- (apps/api/src/routes/stripe-webhook.ts).
use gundam_tcg_hub.Base.{
  ℕ, ◌≡◌, refl, true, false, Option, none, some, arith, inl, inr, ==_refl, ◌∙◌, sym, ap, subst,
  List, [], ◌∷◌, ◌++◌, ◌≤◌, get_or,
}
use gundam_tcg_hub.Base.Table.{find, insert, find-insert, write-insert}
use gundam_tcg_hub.Order.{created, cancelled, transition, not_a_transition}
use gundam_tcg_hub.Orders.Schema.{Store, Order, max_integer}
use gundam_tcg_hub.Orders.Calls.{Call, perform, perform_all}
use gundam_tcg_hub.Orders.Payments.{
  get_order_by_payment_intent, mark_order_refunded, OrderPaidInput, mark_order_paid, applied,
}
use gundam_tcg_hub.Orders.History.{IsConsistent, perform_all-IsConsistent}
use gundam_tcg_hub.Orders.Constraints.{IsSound, perform_all-IsSound}
use gundam_tcg_hub.Orders.Receipt.{Unclaimed, paid_store, received, mark_order_paid_live}
use gundam_tcg_hub.Orders.Db.{ok, select_order, seen, sees}
use gundam_tcg_hub.Orders.Queries.{move}
use gundam_tcg_hub.Webhook.State.{
  Event, EventType, checkout_session_completed, charge_refunded, refund_refused, World, reply,
  bind_with, Delivery, processed, attempt, write_audit_log, order_paid, claim_webhook_event,
  mark_webhook_processed,
}
use gundam_tcg_hub.Webhook.Handlers.{
  handle, charge_refunded_handler, refund_order, refund_answer, full_refund, payment_intent_of,
  checkout_completed, payment_of, payment_answer,
}
use gundam_tcg_hub.Webhook.Effects.{OneCall}
use gundam_tcg_hub.Webhook.Receive.{Request, Response, process, respond, receive, handle_claimed}
use gundam_tcg_hub.Webhook.Once.{receive_cases, receive_event}

-- The order is paid, and the audit log says so.
abbrev pub paid_world : OrderPaidInput → Order → World → World
paid_world input o w = record w {
  store = paid_store input o w.store;
  audit = w.audit ++ (order_paid input.order_id o.amount_cents o.fee_cents ∷ []);
}

handle_payment :
    (e : Event) (input : OrderPaidInput) (o : Order) (w : World)
    → e.event_type ≡ checkout_session_completed
    → payment_of e.payload ≡ some input
    → mark_order_paid input w.store
      ≡ ok (applied (received input w.store.clock o), paid_store input o w.store)
    → handle e w ≡ reply tt (paid_world input o w)
unfolding handle checkout_completed payment_answer attempt write_audit_log
handle_payment e input o w t p m = ground arith

-- A request by anybody, or a call of an order query.
pub data Happening : Type 0 where
  delivered : Request → Happening
  called : Call → Happening

module _ (construct_event : ℕ → ℕ → Option Event) where
  unfoldable pub happen : Happening → World → World
  happen (delivered request) w = (receive construct_event request w).1
  happen (called c) w = record w { store = perform c w.store }

  unfoldable pub happen_all : List Happening → World → World
  happen_all [] w = w
  happen_all (h ∷ hs) w = happen_all hs (happen h w)

  delivered-OneCall :
      (request : Request) (w : World) → OneCall w.store (receive construct_event request w).1.store
  delivered-OneCall request w =
      elim (receive_cases construct_event request w (receive construct_event request w).1
        (receive construct_event request w).0 refl) [
          | inl (_, same) ↦ inl (ap (λ v. v.store) same)
          | inr (e, signature, s, c, inl (_, _, call)) ↦ call
          | inr (e, signature, s, c, inr (_, same)) ↦ inl (ap (λ v. v.store) same)
        ]

  happen-OneCall : (h : Happening) (w : World) → OneCall w.store (happen h w).store
  unfolding happen
  happen-OneCall (delivered request) w = delivered-OneCall request w
  happen-OneCall (called c) w = inr (c, refl)

  abbrev Intact : Store → Type 0
  Intact s = IsConsistent s × IsSound s

  OneCall-Intact : (s t : Store) → OneCall s t → Intact s → Intact t
  unfolding perform_all
  OneCall-Intact s t (inl e) i = subst Intact (sym e) i
  OneCall-Intact s t (inr (c, e)) i =
      subst Intact (sym e)
        (perform_all-IsConsistent (c ∷ []) s i.0, perform_all-IsSound (c ∷ []) s i.1)

  -- However deliveries, genuine, repeated or forged, and calls follow one another: if each order's
  -- history explained its status and the constraints held, then they still do.
  pub happen_all-Intact :
      (hs : List Happening) (w : World)
      → IsConsistent w.store
      → IsSound w.store
      → IsConsistent (happen_all hs w).store × IsSound (happen_all hs w).store
  unfolding happen_all
  happen_all-Intact [] w c v = (c, v)
  happen_all-Intact (h ∷ hs) w c v =
      let i = OneCall-Intact w.store (happen h w).store (happen-OneCall h w) (c, v) in
      happen_all-Intact hs (happen h w) i.0 i.1

-- The row of an event, before and after its handler.
abbrev pub delivery : EventType → Option ℕ → Delivery
delivery type at = record { event_type = type; processed_at = at }

abbrev with_delivery : ℕ → Delivery → World → World
with_delivery id d w = record w { webhooks = insert id d w.webhooks }

claim_made :
    (id : ℕ) (type : EventType) (w : World)
    → find id w.webhooks ≡ none
    → claim_webhook_event id type w ≡ reply true (with_delivery id (delivery type none) w)
unfolding claim_webhook_event
claim_made id type w e = rw e refl

mark_made :
    (id : ℕ) (type : EventType) (w x : World)
    → find id w.webhooks ≡ none
    → x.webhooks ≡ insert id (delivery type none) w.webhooks
    → mark_webhook_processed id x
      ≡ reply tt (record x { webhooks = insert id (delivery type (some x.store.clock)) w.webhooks })
unfolding mark_webhook_processed
mark_made id type w x e same =
    let d = delivery type none in
    let found : find id x.webhooks ≡ some d =
      ground (arith, find-insert id id d w.webhooks, ==_refl id) in
    let wrote = write-insert id d (processed x.store.clock d) w.webhooks e in
    ground (arith, found, wrote)

process_payment :
    (e : Event) (input : OrderPaidInput) (o : Order) (w : World)
    → find e.id w.webhooks ≡ none
    → e.event_type ≡ checkout_session_completed
    → payment_of e.payload ≡ some input
    → mark_order_paid input w.store
      ≡ ok (applied (received input w.store.clock o), paid_store input o w.store)
    → process e.id e.event_type (handle e) w
      ≡ reply false
          (with_delivery e.id (delivery e.event_type (some w.store.clock)) (paid_world input o w))
unfolding process handle_claimed
process_payment e input o w fresh t p m =
    let u = with_delivery e.id (delivery e.event_type none) w in
    let x = paid_world input o u in
    bind_with (claim_webhook_event e.id e.event_type) (handle_claimed e.id (handle e)) w u true
      (claim_made e.id e.event_type w fresh)
    ∙ bind_with (handle e) _ u x tt (handle_payment e input o u t p m)
    ∙ bind_with (mark_webhook_processed e.id) _ x _ tt (mark_made e.id e.event_type w x fresh refl)

-- A genuine request with a new event that says that Checkout for an order is paid, while the order is
-- `created`, no other order has the payment and its tax, where one is told, fits its column, in a store where the constraints hold: it is answered
-- with `received`, the order, its history and its listing are written as `markOrderPaid` writes them,
-- the payment is in the audit log, the event is marked as processed, and nothing else changes.
pub receive_payment :
    (construct_event : ℕ → ℕ → Option Event) (request : Request) (signature : ℕ) (e : Event)
    (input : OrderPaidInput) (o : Order) (w : World)
    → request.signature ≡ some signature
    → construct_event request.body signature ≡ some e
    → find e.id w.webhooks ≡ none
    → e.event_type ≡ checkout_session_completed
    → payment_of e.payload ≡ some input
    → IsSound w.store
    → find input.order_id w.store.orders ≡ some o
    → o.status ≡ created
    → Unclaimed input o w.store
    → get_or input.tax_cents 0 ≤ max_integer
    → receive construct_event request w ≡ (
      Response.received,
      record (paid_world input o w) {
        webhooks = insert e.id (delivery e.event_type (some w.store.clock)) w.webhooks;
      },
    )
receive_payment construct_event request signature e input o w s c fresh t p v f st u tax =
    receive_event construct_event request w e signature s c
    ∙ ap (respond w)
        (process_payment e input o w fresh t p (mark_order_paid_live input w.store o v f st u tax))

-- A full refund of an order that is `cancelled` is acknowledged: the handler leaves the orders as they
-- are, whatever money has moved, and its one trace is the entry `order.refund_refused` in the audit log.
pub refund_of_cancelled :
    (e : Event) (w : World) (intent refunded id : ℕ) (o : Order)
    → e.event_type ≡ charge_refunded
    → payment_intent_of e.payload.payment_intent ≡ some intent
    → full_refund e.payload.amount e.payload.amount_refunded ≡ some refunded
    → get_order_by_payment_intent intent w.store ≡ some (id, o)
    → find id w.store.orders ≡ some o
    → o.status ≡ cancelled
    → handle e w
      ≡ reply tt
          (record w { audit = w.audit ++ (refund_refused id cancelled not_a_transition ∷ []) })
unfolding handle charge_refunded_handler refund_order refund_answer attempt write_audit_log
    mark_order_refunded move transition select_order seen sees
refund_of_cancelled e w intent refunded id o t p f g found st = ground arith
