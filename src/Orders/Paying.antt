-- ===== src/Orders/Paying.antt =====
-- A payment is a step of the specification (`markOrderPaid` of packages/db/src/queries/orders.ts).
use gundam_tcg_hub.Base.{
  ℕ, ◌≡◌, refl, true, Option, none, some, [], ◌∷◌, ◌++◌, ◌⊎◌, inl, inr, arith, Option-cases,
  Bool-cases,
}
use gundam_tcg_hub.Base.Table.{find, write}
use gundam_tcg_hub.Order.{moved, transition, can_transition, paid, stripe, same_status}
use gundam_tcg_hub.Orders.Schema.{Order, OrderEvent, Store, event_checks}
use gundam_tcg_hub.Orders.Db.{
  ok, err, Result, worker, update_order, insert_event, sell_listing, refusal, may_write, sees,
}
use gundam_tcg_hub.Orders.Payments.{
  sell, applied, OrderPaidInput, mark_order_paid, pay, paid_columns, paid_event, OrderPaidResult,
}
use gundam_tcg_hub.Orders.Effects.{update_order_ok, insert_event_ok, transition_cases}
use gundam_tcg_hub.Orders.Step.{Step, advanced}
use gundam_tcg_hub.Orders.Settlement.{same-Step}

sell_ok :
    (l : Option ℕ) (s t : Store) (u : Unit {0})
    → sell l s ≡ ok (u, t)
    → (t.orders ≡ s.orders) × (t.events ≡ s.events)
unfolding sell sell_listing
sell_ok none s t u h = ground arith
sell_ok (some l) s t u h = ground arith

module _ (input : OrderPaidInput) (s : Store) (o : Order) where
  abbrev paying : Order → Order
  paying = paid_columns paid input s.clock

  abbrev paying_event : OrderEvent
  paying_event = paid_event input.order_id o.status paid s.clock

  abbrev paying_row : Result (Option Order × Store)
  paying_row = update_order worker input.order_id paying s

  module _ (t : Store) (r : OrderPaidResult) (h : pay input o s ≡ ok (r, t)) where
    pay_allowed :
        (transition o.status paid stripe ≡ moved paid)
        × (can_transition o.status paid stripe ≡ true)
    unfolding pay
    pay_allowed = ground (arith, transition_cases o.status paid stripe)

    pay_row :
        (x : Result (Option Order × Store))
        → paying_row ≡ x
        → (o' : Order) × (w : Store) × (paying_row ≡ ok (some o', w))
    unfolding pay
    pay_row (ok (some o', w)) q = (o', w, q)
    pay_row (ok (none, w)) q = let a = pay_allowed in absurd (ground arith)
    pay_row (err y) q = let a = pay_allowed in absurd (ground arith)

    pay_logged :
        (o' : Order) (w : Store)
        → paying_row ≡ ok (some o', w)
        → (x : Result (Unit {0} × Store)) → insert_event worker paying_event w ≡ x
        → (v : Store) × (insert_event worker paying_event w ≡ ok (tt, v))
    unfolding pay
    pay_logged o' w p (ok (u, v)) q = (v, q)
    pay_logged o' w p (err y) q = let a = pay_allowed in absurd (ground arith)

    pay_sold :
        (o' : Order) (w v : Store)
        → paying_row ≡ ok (some o', w)
        → insert_event worker paying_event w ≡ ok (tt, v)
        → (y : Result (Unit {0} × Store)) → sell o.listing_id v ≡ y
        → (r ≡ applied o') × (sell o.listing_id v ≡ ok (tt, t))
    unfolding pay
    pay_sold o' w v p q (ok (u, z)) m = let a = pay_allowed in (ground arith, ground arith)
    pay_sold o' w v p q (err z) m = let a = pay_allowed in absurd (ground arith)

    -- What a payment that is applied has written.
    pub pay_ok :
        find input.order_id s.orders ≡ some o
        → (o' : Order) × (r ≡ applied o')
          × (o' ≡ paying o)
          × (can_transition o.status paid stripe ≡ true)
          × (refusal input.order_id o' s ≡ none)
          × (event_checks paying_event ≡ true)
          × (t.orders ≡ write input.order_id o' s.orders)
          × (t.events ≡ s.events ++ (paying_event ∷ []))
    pay_ok e =
        let (o', w, p) = pay_row _ refl in
        let (v, q) = pay_logged o' w p _ refl in
        let (applies, m) = pay_sold o' w v p q _ refl in
        let d = update_order_ok worker input.order_id paying s w o o' e p in
        let g = insert_event_ok worker paying_event w v tt q in
        let f = sell_ok o.listing_id v t tt m in
        (o', applies, d.1, pay_allowed.1, d.3, g.0, ground arith, ground arith)

    pay-Step : find input.order_id s.orders ≡ some o → Step worker s t
    unfolding sees may_write
    pay-Step e =
        let (o', _, columns, legal, accepted, checked, orders, events) = pay_ok e in
        advanced input.order_id o o' paying_event (ground arith) (ground arith) events

module _ (input : OrderPaidInput) (s t : Store) (r : OrderPaidResult) where
  paid_missing : find input.order_id s.orders ≡ none → mark_order_paid input s ≡ ok (r, t) → t ≡ s
  unfolding mark_order_paid
  paid_missing e h = ground arith

  paid_found :
      (o : Order)
      → find input.order_id s.orders ≡ some o
      → mark_order_paid input s ≡ ok (r, t)
      → (t ≡ s) ⊎ (pay input o s ≡ ok (r, t))
  unfolding mark_order_paid
  paid_found o e h = elim (Bool-cases (same_status o.status paid)) [
    | inl p ↦ inl (ground arith)
    | inr p ↦ inr (ground arith)
  ]

  pub paid-Step : mark_order_paid input s ≡ ok (r, t) → Step worker s t
  paid-Step h = elim (Option-cases (find input.order_id s.orders)) [
    | inl e ↦ same-Step worker s t (paid_missing e h)
    | inr (o, e) ↦ elim (paid_found o e h) [
      | inl same ↦ same-Step worker s t same
      | inr q ↦ pay-Step input s o t r q e
    ]
  ]
