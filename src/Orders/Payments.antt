-- ===== src/Orders/Payments.antt =====
-- What a verified webhook does to an order (packages/db/src/queries/orders.ts), on the worker's role.
use gundam_tcg_hub.Base.{ℕ, Bool, ◌||◌, Option, none, some, if◌then◌else◌, get_or, same_option}
use gundam_tcg_hub.Base.Table.{find, first_row}
use gundam_tcg_hub.Order.{OrderStatus, paid, refunded, disputed, stripe, same_status, transition}
use gundam_tcg_hub.Orders.Schema.{Order, OrderEvent, Store, Text}
use gundam_tcg_hub.Orders.Db.{
  Db, vanished, ok, pure, or_throw, ◌>>=◌, ◌>>◌, now, worker, update_order, insert_event,
  sell_listing,
}
use gundam_tcg_hub.Orders.Queries.{MoveInput, move, or_illegal, nothing_set}

pub record OrderPaidInput : Type 0 where
  pub order_id : ℕ
  pub payment_intent_id : ℕ
  pub checkout_session_id : ℕ
  pub tax_cents : Option ℕ

pub data OrderPaidResult : Type 0 where
  applied : Order → OrderPaidResult
  already_paid unknown_order : OrderPaidResult

abbrev pub paid_columns : OrderStatus → OrderPaidInput → ℕ → Order → Order
paid_columns to input at o = record o {
  status = to;
  stripe_payment_intent_id = some input.payment_intent_id;
  stripe_checkout_id = some input.checkout_session_id;
  tax_cents = get_or input.tax_cents o.tax_cents;
  paid_at = some at;
  updated_at = at;
}

abbrev pub paid_event : ℕ → OrderStatus → OrderStatus → ℕ → OrderEvent
paid_event id from to at = record {
  order_id = id;
  from_status = from;
  to_status = to;
  actor = stripe;
  actor_id = none;
  reason = none;
  at_time = at;
}

unfoldable pub sell : Option ℕ → Db (Unit {0})
unfolding sell_listing
sell none = pure tt
sell (some listing) = sell_listing listing

unfoldable pub pay : OrderPaidInput → Order → Db OrderPaidResult
pay input existing = do
  to ← or_illegal (transition existing.status paid stripe)
  at ← now
  written ← update_order worker input.order_id (paid_columns to input at)
  updated ← or_throw written vanished
  insert_event worker (paid_event input.order_id existing.status to at)
  sell existing.listing_id
  pure (applied updated)

unfoldable pub mark_order_paid : OrderPaidInput → Db OrderPaidResult
mark_order_paid input s = elim (find input.order_id s.orders) [
  | none ↦ ok (unknown_order, s)
  | some existing ↦
      if same_status existing.status paid then ok (already_paid, s) else pay input existing s
]

abbrev pub stripe_input : OrderStatus → Option Text → MoveInput
stripe_input to reason = record {
  to = to;
  actor = stripe;
  actor_id = none;
  reason = reason;
  columns = nothing_set;
  must_be = none;
}

-- `{ applied: boolean; order? }`: `none` where nothing was applied.
unfoldable pub mark_order_refunded : ℕ → Option Text → Db (Option Order)
mark_order_refunded id reason s = elim (find id s.orders) [
  | none ↦ ok (none, s)
  | some existing ↦
      if same_status existing.status refunded
      then ok (none, s)
      else (do order ← move worker id (stripe_input refunded reason); pure (some order)) s
]

abbrev pub has_intent : ℕ → ℕ → Order → Bool
has_intent intent _ o = same_option o.stripe_payment_intent_id (some intent)

unfoldable pub get_order_by_payment_intent : ℕ → Store → Option (ℕ × Order)
get_order_by_payment_intent intent s = first_row (has_intent intent) s.orders

-- The default reason, where the caller gives none.
abbrev pub chargeback_text : Text
chargeback_text = record { code = 0; length = 39 }

unfoldable pub mark_order_charged_back : ℕ → Option Text → Db (Option (ℕ × Order))
unfolding get_order_by_payment_intent
mark_order_charged_back intent reason s = elim (get_order_by_payment_intent intent s) [
  | none ↦ ok (none, s)
  | some (id, existing) ↦
      if same_status existing.status disputed || same_status existing.status refunded
      then ok (none, s)
      else (do
        order ← move worker id (stripe_input disputed (some (get_or reason chargeback_text)))
        pure (some (id, order)))
          s
]
