-- ===== src/Webhook/Handlers.antt =====
-- The handlers of the payment events (apps/api/src/routes/stripe-webhook.ts). The order that the
-- metadata of a session names is taken to be a UUID, as payments/stripe.ts puts it there; Postgres
-- throws at any other text, which here is an order that is not found.
use gundam_tcg_hub.Base.{ℕ, ◌+◌, Bool, true, Option, none, some, ltb, if◌then◌else◌}
use gundam_tcg_hub.Orders.Schema.{Order, Text}
use gundam_tcg_hub.Orders.Payments.{
  OrderPaidInput, OrderPaidResult, applied, mark_order_paid, mark_order_refunded,
  mark_order_charged_back, get_order_by_payment_intent,
}
use gundam_tcg_hub.Webhook.State.{
  Value, text, number, expanded, Payload, Event, checkout_session_completed, charge_refunded,
  charge_dispute_created, another_type, Hook, return, ◌>>=◌, Attempt, done, stopped, attempt,
  write_audit_log, order_paid, payment_refused, order_refunded, refund_refused, order_chargeback,
}

unfoldable pub payment_intent_of : Value → Option ℕ
payment_intent_of (text t) = some t.code
payment_intent_of (expanded id) = some id
payment_intent_of _ = none

abbrev pub refund_text : Text
refund_text = record { code = 0; length = 18 }

unfoldable pub chargeback_reason : Value → Text
chargeback_reason (text t) = record { code = 2 + t.code; length = 11 + t.length }
chargeback_reason _ = record { code = 1; length = 17 }

-- `amount_refunded`, where both amounts are numbers and nothing of the charge is left.
unfoldable pub full_refund : Value → Value → Option ℕ
full_refund (number amount) (number refunded) = if ltb refunded amount then none else some refunded
full_refund _ _ = none

unfoldable pub refund_answer : ℕ → ℕ → Attempt (Option Order) → Hook (Unit {0})
refund_answer id refunded (stopped from to actor reason) =
    write_audit_log (refund_refused id from reason)
refund_answer id refunded (done none) = return tt
refund_answer id refunded (done (some _)) = write_audit_log (order_refunded id refunded)

unfoldable pub refund_order : ℕ → ℕ → Hook (Unit {0})
unfolding refund_answer
refund_order id refunded = do
  result ← attempt (mark_order_refunded id (some refund_text))
  refund_answer id refunded result

abbrev refund_by_intent : ℕ → ℕ → Hook (Unit {0})
refund_by_intent intent refunded w = elim (get_order_by_payment_intent intent w.store) [
  | none ↦ return tt w
  | some (id, _) ↦ refund_order id refunded w
]

unfoldable pub charge_refunded_handler : Payload → Hook (Unit {0})
unfolding payment_intent_of full_refund refund_order
charge_refunded_handler charge = elim (payment_intent_of charge.payment_intent) [
  | none ↦ return tt
  | some intent ↦ elim (full_refund charge.amount charge.amount_refunded) [
    | none ↦ return tt
    | some refunded ↦ refund_by_intent intent refunded
  ]
]

unfoldable pub chargeback_answer : Text → Attempt (Option (ℕ × Order)) → Hook (Unit {0})
chargeback_answer reason (done (some (id, _))) = write_audit_log (order_chargeback id reason)
chargeback_answer reason _ = return tt

unfoldable pub charge_disputed_handler : Payload → Hook (Unit {0})
unfolding payment_intent_of chargeback_reason chargeback_answer
charge_disputed_handler dispute = elim (payment_intent_of dispute.payment_intent) [
  | none ↦ return tt
  | some intent ↦ do
    result ← attempt (mark_order_charged_back intent (some (chargeback_reason dispute.reason)))
    chargeback_answer (chargeback_reason dispute.reason) result
]

abbrev pub tax_of : Value → Option ℕ
tax_of (number n) = some n
tax_of _ = none

-- What a session says of a payment, or `none` where it is not paid or not shaped as expected.
abbrev pub payment_input : Bool → Value → Value → Value → Value → Option OrderPaidInput
payment_input true (text order) (text intent) (text session) tax = some record {
  order_id = order.code;
  payment_intent_id = intent.code;
  checkout_session_id = session.code;
  tax_cents = tax_of tax;
}
payment_input _ _ _ _ _ = none

unfoldable pub payment_of : Payload → Option OrderPaidInput
payment_of s = payment_input s.is_paid s.order_id s.payment_intent s.session_id s.amount_tax

unfoldable pub payment_answer : ℕ → Attempt OrderPaidResult → Hook (Unit {0})
payment_answer id (stopped from to actor reason) =
    write_audit_log (payment_refused id from to reason)
payment_answer id (done (applied o)) = write_audit_log (order_paid id o.amount_cents o.fee_cents)
payment_answer id (done _) = return tt

unfoldable pub checkout_completed : Payload → Hook (Unit {0})
unfolding payment_of payment_answer
checkout_completed session = elim (payment_of session) [
  | none ↦ return tt
  | some input ↦ do result ← attempt (mark_order_paid input); payment_answer input.order_id result
]

unfoldable pub handle : Event → Hook (Unit {0})
unfolding checkout_completed charge_refunded_handler charge_disputed_handler
handle event = elim event.event_type [
  | checkout_session_completed ↦ checkout_completed event.payload
  | charge_refunded ↦ charge_refunded_handler event.payload
  | charge_dispute_created ↦ charge_disputed_handler event.payload
  | another_type _ ↦ return tt
]
