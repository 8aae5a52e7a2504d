-- ===== src/Webhook/Effects.antt =====
-- What a handler does to the deliveries and to the orders
-- (apps/api/src/routes/stripe-webhook.ts).
use gundam_tcg_hub.Base.{ℕ, ◌≡◌, refl, ◌∙◌, Option, some, arith, Option-cases, inl, inr, ◌⊎◌}
use gundam_tcg_hub.Orders.Schema.{Store, Text}
use gundam_tcg_hub.Orders.Calls.{Call, pays, refunds, charges_back, perform, after}
use gundam_tcg_hub.Orders.Db.{Db, Result, ok, err}
use gundam_tcg_hub.Orders.Payments.{
  get_order_by_payment_intent, mark_order_refunded, mark_order_charged_back, mark_order_paid,
}
use gundam_tcg_hub.Webhook.State.{
  Event, Payload, bind_reply, checkout_session_completed, charge_refunded, charge_dispute_created,
  another_type, ◌>>=◌, EventType, AccountStatus, World, reply, Hook, Attempt, attempt, caught,
  write_audit_log,
}
use gundam_tcg_hub.Webhook.Handlers.{
  handle, refund_order, refund_answer, chargeback_answer, payment_answer, charge_refunded_handler,
  charge_disputed_handler, checkout_completed, full_refund, payment_intent_of, payment_of,
  chargeback_reason, refund_text,
}
use gundam_tcg_hub.Webhook.Accounts.{V2Event, handle_v2, record_status, update_seller_capabilities}

-- A handler leaves the deliveries alone, and does to the orders nothing, or what one call does.
abbrev pub OneCall : Store → Store → Type 0
OneCall s t = (t ≡ s) ⊎ ((c : Call) × (t ≡ perform c s))

abbrev pub Mild : World → World → Type 0
Mild w v = (v.webhooks ≡ w.webhooks) × OneCall w.store v.store

caught-after :
    {A : Type 0} (w v : World) (r : Result (A × Store)) (a : Attempt A)
    → caught w r ≡ reply a v
    → (v.webhooks ≡ w.webhooks) × (v.store ≡ after w.store r)
caught-after w v (ok (b, s)) a h = ground arith
caught-after w v (err e) a h = ground arith

attempt-after :
    {A : Type 0} (m : Db A) (w v : World) (a : Attempt A)
    → attempt m w ≡ reply a v
    → (v.webhooks ≡ w.webhooks) × (v.store ≡ after w.store (m w.store))
unfolding attempt
attempt-after m w v a h = caught-after w v (m w.store) a h

-- What comes after an attempt touches neither the deliveries nor the orders.
abbrev Silent : {A : Type 0} → (A → Hook (Unit {0})) → Type 0
Silent {A} f =
    (a : A) (w v : World) → f a w ≡ reply tt v → (v.webhooks ≡ w.webhooks) × (v.store ≡ w.store)

refund_answer-Silent : (id refunded : ℕ) → Silent (refund_answer id refunded)
unfolding refund_answer write_audit_log
refund_answer-Silent id refunded a w v h = ground arith

chargeback_answer-Silent : (reason : Text) → Silent (chargeback_answer reason)
unfolding chargeback_answer write_audit_log
chargeback_answer-Silent reason a w v h = ground arith

payment_answer-Silent : (id : ℕ) → Silent (payment_answer id)
unfolding payment_answer write_audit_log
payment_answer-Silent id a w v h = ground arith

attempt-Mild :
    {A : Type 0} (c : Call) (m : Db A) (f : Attempt A → Hook (Unit {0}))
    → ((s : Store) → after s (m s) ≡ perform c s)
    → Silent f
    → (w v : World) → (attempt m >>= f) w ≡ reply tt v
    → Mild w v
attempt-Mild c m f same silent w v h =
    let (a, u, first, rest) = bind_reply (attempt m) f w tt v h in
    let (kept_first, store_first) = attempt-after m w u a first in
    let (kept_rest, store_rest) = silent a u v rest in
    (kept_rest ∙ kept_first, inr (c, store_rest ∙ store_first ∙ same w.store))

refund_order-Mild :
    (id refunded : ℕ) (w v : World) → refund_order id refunded w ≡ reply tt v → Mild w v
unfolding refund_order perform
refund_order-Mild id refunded w v h =
    attempt-Mild (refunds id (some refund_text)) (mark_order_refunded id (some refund_text))
      (refund_answer id refunded) (λ s. refl) (refund_answer-Silent id refunded) w v h

charge_disputed-Mild :
    (p : Payload) (w v : World) → charge_disputed_handler p w ≡ reply tt v → Mild w v
unfolding charge_disputed_handler perform
charge_disputed-Mild p w v h = elim (Option-cases (payment_intent_of p.payment_intent)) [
  | inl e ↦ ground arith
  | inr (intent, e) ↦
      let reason = chargeback_reason p.reason in
      attempt-Mild (charges_back intent (some reason))
        (mark_order_charged_back intent (some reason)) (chargeback_answer reason) (λ s. refl)
        (chargeback_answer-Silent reason) w v (ground arith)
]

checkout_completed-Mild :
    (p : Payload) (w v : World) → checkout_completed p w ≡ reply tt v → Mild w v
unfolding checkout_completed perform
checkout_completed-Mild p w v h = elim (Option-cases (payment_of p)) [
  | inl e ↦ ground arith
  | inr (input, e) ↦
      attempt-Mild (pays input) (mark_order_paid input) (payment_answer input.order_id) (λ s. refl)
        (payment_answer-Silent input.order_id) w v (ground arith)
]

charge_refunded-Mild :
    (p : Payload) (w v : World) → charge_refunded_handler p w ≡ reply tt v → Mild w v
unfolding charge_refunded_handler
charge_refunded-Mild p w v h = elim (Option-cases (payment_intent_of p.payment_intent)) [
  | inl e ↦ ground arith
  | inr (intent, e) ↦ elim (Option-cases (full_refund p.amount p.amount_refunded)) [
    | inl n ↦ ground arith
    | inr (refunded, n) ↦ elim (Option-cases (get_order_by_payment_intent intent w.store)) [
      | inl g ↦ ground arith
      | inr (row, g) ↦ refund_order-Mild row.0 refunded w v (ground arith)
    ]
  ]
]

Type-cases :
    (t : EventType)
    → (t ≡ checkout_session_completed)
      ⊎ (t ≡ charge_refunded)
      ⊎ (t ≡ charge_dispute_created)
      ⊎ ((n : ℕ) × (t ≡ another_type n))
Type-cases t = ground arith

pub handle-Mild : (e : Event) (w v : World) → handle e w ≡ reply tt v → Mild w v
unfolding handle
handle-Mild e w v h = elim (Type-cases e.event_type) [
  | inl t ↦ checkout_completed-Mild e.payload w v (ground arith)
  | inr (inl t) ↦ charge_refunded-Mild e.payload w v (ground arith)
  | inr (inr (inl t)) ↦ charge_disputed-Mild e.payload w v (ground arith)
  | inr (inr (inr (n, t))) ↦ ground arith
]

pub handle_v2-Mild :
    (status_of : ℕ → Option AccountStatus) (e : V2Event) (w v : World)
    → handle_v2 status_of e w ≡ reply tt v
    → Mild w v
unfolding handle_v2 record_status update_seller_capabilities write_audit_log
handle_v2-Mild status_of e w v h = ground arith
