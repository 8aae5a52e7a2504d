-- ===== src/Orders/Nightly.antt =====
-- The nightly job that completes delivered orders (`completeDeliveredJob` in packages/db/src/jobs.ts and
-- `ordersReadyToComplete` in packages/db/src/queries/orders.ts).
use gundam_tcg_hub.Base.{
  ℕ, suc, ◌+◌, ◌*◌, Bool, false, ◌&&◌, none, some, List, [], ◌∷◌, leb, if◌then◌else◌, take, get_or,
}
use gundam_tcg_hub.Base.Table.{Table, select_rows}
use gundam_tcg_hub.Order.{delivered, same_status}
use gundam_tcg_hub.Orders.Schema.{Order, Store}
use gundam_tcg_hub.Orders.Db.{Error, ok, err}
use gundam_tcg_hub.Orders.Queries.{complete_order, by_system}

abbrev pub auto_complete_after_days : ℕ
auto_complete_after_days = 7

-- `status = 'delivered' and delivered_at <= now - days`, which a null date does not satisfy.
unfoldable pub is_due : ℕ → ℕ → Order → Bool
is_due now days o =
    same_status o.status delivered
    && elim o.delivered_at [ none ↦ false | some d ↦ leb (d + days * 86400000) now ]

abbrev pub due_row : ℕ → ℕ → ℕ → Order → Bool
due_row now days id o = is_due now days o

-- `orderBy(orders.deliveredAt)`, earliest first; equal dates keep the table's order.
abbrev pub insert_by_date : ℕ → Order → Table Order → Table Order
insert_by_date id o [] = (id, o) ∷ []
insert_by_date id o ((j, p) ∷ t) =
    if leb (get_or o.delivered_at 0) (get_or p.delivered_at 0)
    then (id, o) ∷ (j, p) ∷ t
    else (j, p) ∷ insert_by_date id o t

unfoldable pub sort_by_date : Table Order → Table Order
sort_by_date [] = []
sort_by_date ((id, o) ∷ t) = insert_by_date id o (sort_by_date t)

unfoldable pub orders_ready_to_complete : ℕ → ℕ → Store → Table Order
orders_ready_to_complete now days s =
    take 200 (sort_by_date (select_rows (due_row now days) s.orders))

-- The lines of the report carry two counts and the orders that were skipped, with what they threw.
pub record Report : Type 0 where
  pub completed_count : ℕ
  pub skipped : List (ℕ × Error)
  pub left : Store

-- The loop: an order that throws is noted, and the rest goes on.
unfoldable pub complete_each : Table Order → Store → Report
complete_each [] s = record { completed_count = 0; skipped = []; left = s }
complete_each ((id, o) ∷ rest) s = elim (complete_order id by_system none none s) [
  | ok (_, t) ↦ let r = complete_each rest t in record r { completed_count = suc r.completed_count }
  | err e ↦ let r = complete_each rest s in record r { skipped = (id, e) ∷ r.skipped }
]

unfoldable pub complete_delivered_job : ℕ → Store → Report
complete_delivered_job now s =
    complete_each (orders_ready_to_complete now auto_complete_after_days s) s
