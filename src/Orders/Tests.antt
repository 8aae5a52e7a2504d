-- ===== src/Orders/Tests.antt =====
-- Runs of the order queries on a small store, and the theorems about them at concrete inputs.
use gundam_tcg_hub.Base.{
  ℕ, ◌≡◌, refl, true, Option, none, some, [], ◌∷◌, any, length, min, ◌⊎◌, arith,
}
use gundam_tcg_hub.Base.Table.{find, insert, write, any_row, select_rows}
use gundam_tcg_hub.Order.{OrderStatus, completed, transition, money_has_moved}
use gundam_tcg_hub.Orders.Schema.{
  Order, Store, order_checks, event_checks, holds_listing, listing_clash, payment_clash,
}
use gundam_tcg_hub.Orders.Db.{
  worker, ok, refusal, sees, may_write, select_order, update_order, insert_event, sell_listing,
}
use gundam_tcg_hub.Orders.Queries.{
  move, create_order, ship_order, mark_order_delivered, complete_order,
}
use gundam_tcg_hub.Orders.Payments.{mark_order_paid, applied, already_paid, pay, sell}
use gundam_tcg_hub.Orders.Step.{Step}
use gundam_tcg_hub.Orders.Calls.{pays, perform, perform_all, perform-Step}
use gundam_tcg_hub.Orders.History.{
  IsConsistent, is_payment, perform_all-IsConsistent, money_has_evidence,
}
use gundam_tcg_hub.Orders.Constraints.{perform_all-IsSound}
use gundam_tcg_hub.Orders.Shipping.{ship_reference, ship_order-eq-reference}
use gundam_tcg_hub.Orders.Receipt.{
  received, paid_store, mark_order_paid_live, mark_order_paid_twice,
}
use gundam_tcg_hub.Orders.Nightly.{
  due_row, is_due, sort_by_date, orders_ready_to_complete, complete_each, complete_delivered_job,
}
use gundam_tcg_hub.Orders.Completing.{Finished, LeftOver, complete_delivered_job_lem}
use gundam_tcg_hub.Orders.Samples.{
  arrival, shop, payment, sale, ordered, opened_shop, shop-IsSound, shop-IsConsistent,
  opened_shop-IsSound, opened_shop-IsConsistent,
}

abbrev status_at : ℕ → Store → Option OrderStatus
status_at id s = elim (find id s.orders) [ none ↦ none | some o ↦ some o.status ]

sale_completes : status_at 30 (perform_all sale shop) ≡ some completed
unfolding perform_all perform create_order move select_order update_order insert_event ship_order
    mark_order_delivered complete_order mark_order_paid pay sell find insert write any_row
    order_checks listing_clash holds_listing payment_clash event_checks sees may_write refusal
    transition
sale_completes = refl

perform-Step_example : Step worker shop (perform (pays payment) shop)
perform-Step_example = perform-Step (pays payment) shop

perform_all-IsConsistent_example : IsConsistent (perform_all sale shop)
perform_all-IsConsistent_example = perform_all-IsConsistent sale shop shop-IsConsistent

money_has_evidence_example :
    any (is_payment 30) (perform_all (pays payment ∷ []) opened_shop).events ≡ true
unfolding perform_all perform mark_order_paid pay sell sell_listing update_order insert_event find
    write any_row order_checks listing_clash holds_listing payment_clash event_checks sees may_write
    refusal transition money_has_moved
money_has_evidence_example =
    money_has_evidence (pays payment ∷ []) opened_shop 30 (received payment 1000 ordered)
      opened_shop-IsConsistent refl refl

ship_order-eq-reference_example :
    ship_order 2 30 11 12 opened_shop ≡ ship_reference 2 30 11 12 opened_shop
unfolding find
ship_order-eq-reference_example =
    ship_order-eq-reference 2 30 11 12 0 opened_shop opened_shop-IsSound refl

mark_order_paid_live_example :
    mark_order_paid payment opened_shop
    ≡ ok (applied (received payment 1000 ordered), paid_store payment ordered opened_shop)
unfolding find any_row
mark_order_paid_live_example =
    mark_order_paid_live payment opened_shop ordered opened_shop-IsSound refl refl refl
      (omega arith)

mark_order_paid_live_run :
    mark_order_paid payment opened_shop
    ≡ ok (applied (received payment 1000 ordered), paid_store payment ordered opened_shop)
unfolding find any_row
mark_order_paid_live_run =
    mark_order_paid_live payment opened_shop ordered opened_shop-IsSound refl refl refl
      (omega arith)

mark_order_paid_twice_example :
    mark_order_paid payment (paid_store payment ordered opened_shop)
    ≡ ok (already_paid, paid_store payment ordered opened_shop)
mark_order_paid_twice_example =
    mark_order_paid_twice payment payment opened_shop (paid_store payment ordered opened_shop)
      (received payment 1000 ordered) refl mark_order_paid_live_run

abbrev arrived : Store
arrived = perform_all arrival shop

-- Seven days after the delivery at 1005 the job completes the order, and not before.
completes_in_time : status_at 30 (complete_delivered_job 604801005 arrived).left ≡ some completed
unfolding perform_all perform create_order move select_order update_order insert_event ship_order
    mark_order_delivered complete_order mark_order_paid pay sell find insert write any_row
    order_checks listing_clash holds_listing payment_clash event_checks sees may_write refusal
    transition complete_delivered_job complete_each orders_ready_to_complete sort_by_date is_due
    select_rows
completes_in_time = refl

waits_for_the_window : (complete_delivered_job 604801004 arrived).completed_count ≡ 0
unfolding perform_all perform create_order move select_order update_order insert_event ship_order
    mark_order_delivered complete_order mark_order_paid pay sell find insert write any_row
    order_checks listing_clash holds_listing payment_clash event_checks sees may_write refusal
    transition complete_delivered_job complete_each orders_ready_to_complete sort_by_date is_due
    select_rows
waits_for_the_window = refl

complete_delivered_job_lem_example :
    let r = complete_delivered_job 604801005 arrived in
    (r.skipped ≡ [])
    × (r.completed_count ≡ min 200 (length (select_rows (due_row 604801005 7) arrived.orders)))
    × ((j : ℕ) (o : Order)
        → find j arrived.orders ≡ some o
        → Finished 604801005 arrived r.left j o ⊎ LeftOver 604801005 arrived r j o)
complete_delivered_job_lem_example =
    complete_delivered_job_lem 604801005 arrived (perform_all-IsSound arrival shop shop-IsSound)
