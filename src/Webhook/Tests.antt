-- ===== src/Webhook/Tests.antt =====
-- Deliveries on a small shop, and the theorems about them at concrete inputs.
use gundam_tcg_hub.Base.{
  if◌then◌else◌, ◌==◌, ℕ, ◌≡◌, refl, true, Option, none, some, [], ◌∷◌, ◌⊎◌, arith,
}
use gundam_tcg_hub.Base.Table.{find, insert, any_row, first_row}
use gundam_tcg_hub.Order.{cancelled, not_a_transition}
use gundam_tcg_hub.Orders.Schema.{Order}
use gundam_tcg_hub.Orders.Calls.{ships}
use gundam_tcg_hub.Orders.History.{IsConsistent}
use gundam_tcg_hub.Orders.Constraints.{IsSound}
use gundam_tcg_hub.Orders.Payments.{get_order_by_payment_intent}
use gundam_tcg_hub.Orders.Samples.{
  opened_shop, ordered, payment, opened_shop-IsSound, opened_shop-IsConsistent,
}
use gundam_tcg_hub.Webhook.State.{
  Value, absent, text, number, Payload, Event, checkout_session_completed, charge_refunded, World,
  reply, refund_refused,
}
use gundam_tcg_hub.Webhook.Handlers.{handle, payment_of, payment_intent_of, full_refund}
use gundam_tcg_hub.Webhook.Receive.{
  Request, missing_signature, invalid_signature, received, duplicate, receive,
}
use gundam_tcg_hub.Webhook.Once.{Settled, receive_cases, receive_twice}
use gundam_tcg_hub.Webhook.Payment.{
  paid_world, delivery, delivered, called, happen_all, happen_all-Intact, receive_payment,
  refund_of_cancelled,
}

abbrev name : ℕ → Value
name n = text (record { code = n; length = 36 })

-- Order 30 is paid by the payment 900 in the session 800, with a dollar of tax.
abbrev paid_session : Payload
paid_session = record {
  session_id = name 800;
  payment_intent = name 900;
  is_paid = true;
  order_id = name 30;
  amount_tax = number 100;
  amount = absent;
  amount_refunded = absent;
  reason = absent;
}

abbrev paid_event : Event
paid_event = record { id = 5000; event_type = checkout_session_completed; payload = paid_session }

-- A library that accepts the signature 1 and reads every body as the payment.
abbrev reads_payment : ℕ → ℕ → Option Event
reads_payment body signature = if signature == 1 then some paid_event else none

abbrev request : Request
request = record { signature = some 1; body = 0 }

abbrev forged : Request
forged = record { signature = some 2; body = 0 }

abbrev world : World
world = record { store = opened_shop; webhooks = []; accounts = []; audit = [] }

abbrev world_after : World
world_after = record (paid_world payment ordered world) {
  webhooks = insert 5000 (delivery checkout_session_completed (some 1000)) [];
}

receive_payment_example : receive reads_payment request world ≡ (received, world_after)
unfolding find any_row payment_of
receive_payment_example =
    receive_payment reads_payment request 1 paid_event payment ordered world refl refl refl refl
      refl opened_shop-IsSound refl refl refl (omega arith)

receive_payment_run : receive reads_payment request world ≡ (received, world_after)
unfolding find any_row payment_of
receive_payment_run =
    receive_payment reads_payment request 1 paid_event payment ordered world refl refl refl refl
      refl opened_shop-IsSound refl refl refl (omega arith)

receive_twice_example : receive reads_payment request world_after ≡ (duplicate, world_after)
receive_twice_example =
    receive_twice reads_payment request request world world_after paid_event paid_event 1 1 refl
      refl refl refl refl receive_payment_run

receive_cases_example :
    (((received ≡ missing_signature) ⊎ (received ≡ invalid_signature)) × (world_after ≡ world))
    ⊎ ((e : Event) × (signature : ℕ) × (some 1 ≡ some signature)
        × (reads_payment 0 signature ≡ some e)
        × Settled e.id world world_after received)
receive_cases_example =
    receive_cases reads_payment request world world_after received receive_payment_run

happen_all-Intact_example :
    let end =
      (happen_all reads_payment
        (delivered forged ∷ delivered request ∷ called (ships 2 30 11 12) ∷ delivered request ∷ [])
        world).store in
    IsConsistent end × IsSound end
happen_all-Intact_example =
    happen_all-Intact reads_payment
      (delivered forged ∷ delivered request ∷ called (ships 2 30 11 12) ∷ delivered request ∷ [])
      world opened_shop-IsConsistent opened_shop-IsSound

abbrev cancelled_order : Order
cancelled_order = record ordered { status = cancelled; stripe_payment_intent_id = some 900 }

abbrev cancelled_world : World
cancelled_world = record world {
  store = record opened_shop { orders = (30, cancelled_order) ∷ [] };
}

abbrev refund_event : Event
refund_event = record {
  id = 5001;
  event_type = charge_refunded;
  payload = record paid_session { amount = number 1350; amount_refunded = number 1350 };
}

refund_of_cancelled_example :
    handle refund_event cancelled_world
    ≡ reply tt
        (record cancelled_world { audit = refund_refused 30 cancelled not_a_transition ∷ [] })
unfolding payment_intent_of full_refund get_order_by_payment_intent first_row find
refund_of_cancelled_example =
    refund_of_cancelled refund_event cancelled_world 900 1350 30 cancelled_order refl refl refl refl
      refl refl
