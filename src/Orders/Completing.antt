-- ===== src/Orders/Completing.antt =====
-- What the nightly job does (`completeDeliveredJob` in packages/db/src/jobs.ts).
use gundam_tcg_hub.Base.{
  ℕ, suc, ◌≡◌, refl, none, some, [], ◌∷◌, length, arith, inl, inr, ==_iff, Bool-cases, ◌∙◌, subst,
  sym, true, ap, ◌+◌, ◌*◌, ◌≤◌, ◌≢◌, ◌↔◌, ◌⊎◌, min, length-take, Option-cases,
}
use gundam_tcg_hub.Base.Table.{Table, find, find-write, Distinct, select_rows}
use gundam_tcg_hub.Order.{delivered}
use gundam_tcg_hub.Order.Safety.{same_status→eq}
use gundam_tcg_hub.Orders.Schema.{Order, Store}
use gundam_tcg_hub.Orders.Db.{ok}
use gundam_tcg_hub.Orders.Queries.{complete_order, by_system}
use gundam_tcg_hub.Orders.Constraints.{IsSound}
use gundam_tcg_hub.Orders.Live.{find-write_self}
use gundam_tcg_hub.Orders.Nightly.{
  Report, due_row, is_due, auto_complete_after_days, orders_ready_to_complete, complete_each,
  complete_delivered_job, sort_by_date,
}
use gundam_tcg_hub.Orders.Ready.{
  AllRows, AllRows-map, Selected, ready-Selected, ready-Distinct, select_rows-Distinct,
}
use gundam_tcg_hub.Orders.Earliest.{
  date, AllRows-find, find-select_rows_kept, find-sort_by_date_kept, sort_by_date-InOrder,
  take-InOrder, length-sort_by_date,
}
use gundam_tcg_hub.Orders.Finishing.{
  finished, complete_order_live, finished_store, finished_store-IsSound,
}

-- The row stands in the store as it was listed, delivered.
abbrev Waits : Store → ℕ → Order → Type 0
Waits s id o = (find id s.orders ≡ some o) × (o.status ≡ delivered)

-- The row that was listed is now the completed order.
abbrev pub Completed : ℕ → Store → ℕ → Order → Type 0
Completed at t id o = find id t.orders ≡ some (finished at o)

Waits-later :
    (s : Store) (id : ℕ) (o : Order) (rows : Table Order)
    → find id rows ≡ none
    → AllRows (Waits s) rows
    → AllRows (Waits (finished_store id o s)) rows
unfolding AllRows find
Waits-later s id o [] n a = tt
Waits-later s id o ((j, p) ∷ rows) n ((e, d), a) = (
  (ground (arith, e, ==_iff j id, find-write j id (finished s.clock o) s.orders), d),
  Waits-later s id o rows (ground (arith, n)) a,
)

-- The report says that every row was completed, and so it was.
abbrev Reports : Table Order → Store → Report → Type 0
Reports rows s r =
    (r.completed_count ≡ length rows)
    × (r.skipped ≡ [])
    × AllRows (Completed s.clock r.left) rows
    × ((j : ℕ) → find j rows ≡ none → find j r.left.orders ≡ find j s.orders)

abbrev AllDone : Table Order → Store → Type 0
AllDone rows s = Reports rows s (complete_each rows s)

others_kept :
    (id : ℕ) (o : Order) (rows : Table Order) (s : Store) (j : ℕ)
    → ((k : ℕ)
        → find k rows ≡ none
        → find k (complete_each rows (finished_store id o s)).left.orders
          ≡ find k (finished_store id o s).orders)
    → find j ((id, o) ∷ rows) ≡ none
    → find j (complete_each rows (finished_store id o s)).left.orders ≡ find j s.orders
unfolding find
others_kept id o rows s j others q =
    others j (ground (arith, q))
    ∙ ground (arith, q, ==_iff id j, find-write j id (finished s.clock o) s.orders)

-- One order more has been completed.
abbrev counted : Report → Report
counted r = record r { completed_count = suc r.completed_count }

complete_each_more :
    (id : ℕ) (o : Order) (rows : Table Order) (s : Store)
    → complete_order id by_system none none s ≡ ok (finished s.clock o, finished_store id o s)
    → complete_each ((id, o) ∷ rows) s ≡ counted (complete_each rows (finished_store id o s))
unfolding complete_each
complete_each_more id o rows s done = rw (done, complete_each) refl

AllDone-step :
    (id : ℕ) (o : Order) (rows : Table Order) (s : Store)
    → complete_order id by_system none none s ≡ ok (finished s.clock o, finished_store id o s)
    → find id s.orders ≡ some o
    → find id rows ≡ none
    → AllDone rows (finished_store id o s)
    → AllDone ((id, o) ∷ rows) s
unfolding AllRows
AllDone-step id o rows s done e n (count, none_skipped, listed, others) =
    subst (Reports ((id, o) ∷ rows) s) (sym (complete_each_more id o rows s done)) (
      rw count refl,
      none_skipped,
      (others id n ∙ find-write_self id o (finished s.clock o) s.orders e, listed),
      λ j q. others_kept id o rows s j others q,
    )

complete_each-AllDone :
    (rows : Table Order) (s : Store)
    → IsSound s
    → Distinct rows
    → AllRows (Waits s) rows
    → AllDone rows s
unfolding AllRows complete_each
complete_each-AllDone [] s v d a = (refl, refl, tt, λ j e. refl)
complete_each-AllDone ((id, o) ∷ rows) s v (n, d) ((e, st), a) =
    AllDone-step id o rows s (complete_order_live id s o v e st) e n (
      complete_each-AllDone rows (finished_store id o s) (finished_store-IsSound id s o v e st) d
        (Waits-later s id o rows n a))

due-Waits :
    (now : ℕ) (s : Store) (id : ℕ) (o : Order)
    → Selected (due_row now auto_complete_after_days) s.orders id o
    → Waits s id o
unfolding is_due
due-Waits now s id o (e, d) = (e, same_status→eq o.status delivered (ground (arith, d)))

-- Delivered, at a known time, seven times 24 hours ago or more.
abbrev pub Due : ℕ → Order → Type 0
Due now o =
    (o.status ≡ delivered) × ((d : ℕ) × (o.delivered_at ≡ some d) × (d + 7 * 86400000 ≤ now))

is_due_iff : (now : ℕ) (o : Order) → (is_due now auto_complete_after_days o ≡ true) ↔ Due now o
unfolding is_due
is_due_iff now o = (forth, back)
  where
    forth : is_due now auto_complete_after_days o ≡ true → Due now o
    forth h =
        let st = same_status→eq o.status delivered (ground arith) in
        elim (Option-cases o.delivered_at) [
          | inl e ↦ absurd (ground (arith, e, h))
          | inr (d, e) ↦ (st, (d, e, ground (arith, e, h)))
        ]

    back : Due now o → is_due now auto_complete_after_days o ≡ true
    back (st, (d, e, past)) = ground (arith, st, e, past)

-- The order was due and is completed now.
abbrev pub Finished : ℕ → Store → Store → ℕ → Order → Type 0
Finished now s t j o = Due now o × (find j t.orders ≡ some (finished s.clock o))

-- The order is as it was: it was not due, or the run has completed its 200, and each order that it has
-- changed was delivered no later.
abbrev pub LeftOver : ℕ → Store → Report → ℕ → Order → Type 0
LeftOver now s r j o =
    (find j r.left.orders ≡ some o)
    × ((¬ Due now o)
        ⊎ ((r.completed_count ≡ 200)
            × ((i : ℕ) (p : Order)
                → find i s.orders ≡ some p
                → find i r.left.orders ≢ some p
                → date p ≤ date o)))

-- The run over the rows that are ready.
module _ (now : ℕ) (s : Store) (v : IsSound s) where
  abbrev ready : Table Order
  ready = orders_ready_to_complete now auto_complete_after_days s

  abbrev all_due : Table Order
  all_due = select_rows (due_row now auto_complete_after_days) s.orders

  job_done : Reports ready s (complete_delivered_job now s)
  unfolding complete_delivered_job
  job_done =
      complete_each-AllDone ready s v (ready-Distinct now auto_complete_after_days s v.keys) (
        AllRows-map _ (Waits s) ready (due-Waits now s)
          (ready-Selected now auto_complete_after_days s v.keys))

  length-ready : length ready ≡ min 200 (length all_due)
  unfolding orders_ready_to_complete
  length-ready = length-take 200 (sort_by_date all_due) ∙ ap (min 200) (length-sort_by_date all_due)

  -- A row that is due and not listed stands behind 200 that are.
  cut_off :
      (j : ℕ) (o : Order)
      → find j s.orders ≡ some o
      → is_due now auto_complete_after_days o ≡ true
      → find j ready ≡ none
      → (length ready ≡ 200) × AllRows (λ i p. date p ≤ date o) ready
  unfolding orders_ready_to_complete
  cut_off j o e d n =
      take-InOrder 200 (sort_by_date all_due) j o (sort_by_date-InOrder all_due)
        (find-sort_by_date_kept j all_due (select_rows-Distinct _ s.orders v.keys)
          ∙ find-select_rows_kept _ s.orders j o e d)
        n

  listed-Finished :
      (j : ℕ) (o p : Order)
      → find j s.orders ≡ some o
      → find j ready ≡ some p
      → Finished now s (complete_delivered_job now s).left j o
  listed-Finished j o p e f =
      let (there, due) =
        AllRows-find _ ready j p (ready-Selected now auto_complete_after_days s v.keys) f in
      let same : p ≡ o = cc in
      let done = AllRows-find _ ready j p job_done.2 f in
      subst (Finished now s (complete_delivered_job now s).left j) same
        ((is_due_iff now p).0 due, done)

  unlisted-LeftOver :
      (j : ℕ) (o : Order)
      → find j s.orders ≡ some o
      → find j ready ≡ none
      → LeftOver now s (complete_delivered_job now s) j o
  unlisted-LeftOver j o e n =
      let (count, none_skipped, listed, others) = job_done in
      (
        others j n ∙ e,
        elim (Bool-cases (is_due now auto_complete_after_days o)) [
          | inr early ↦ inl λ due. let d = (is_due_iff now o).1 due in ground (arith, d, early)
          | inl due ↦
              let (full, before) = cut_off j o e due n in
              inr (
                count ∙ full,
                λ i p f changed. elim (Option-cases (find i ready)) [
                  | inl m ↦ absurd (changed (others i m ∙ f))
                  | inr (q, m) ↦
                      let (there, _) =
                        AllRows-find _ ready i q
                          (ready-Selected now auto_complete_after_days s v.keys) m in
                      let same : q ≡ p = cc in
                      subst (λ x. date x ≤ date o) same (AllRows-find _ ready i q before m)
                ],
              )
        ],
      )

-- In a sound store the nightly job skips no order. It counts as many as are due, 200 at most. Each order
-- of the store that was delivered seven times 24 hours ago or more is afterwards the same order
-- `completed` at that time, or it is as it was because the run has completed 200 orders and every
-- order that it changed was delivered no later; every other order is as it was.
pub complete_delivered_job_lem :
    (now : ℕ) (s : Store)
    → IsSound s
    → let r = complete_delivered_job now s in
      (r.skipped ≡ [])
      × (r.completed_count
          ≡ min 200 (length (select_rows (due_row now auto_complete_after_days) s.orders)))
      × ((j : ℕ) (o : Order)
          → find j s.orders ≡ some o
          → Finished now s r.left j o ⊎ LeftOver now s r j o)
complete_delivered_job_lem now s v =
    let done = job_done now s v in
    (
      done.1,
      done.0 ∙ length-ready now s v,
      λ j o e. elim (Option-cases (find j (ready now s v))) [
        | inl n ↦ inr (unlisted-LeftOver now s v j o e n)
        | inr (p, f) ↦ inl (listed-Finished now s v j o p e f)
      ],
    )
