-- ===== src/Orders/Settlement.antt =====
-- The queries that a webhook reaches, the opening of an order and the attached Checkout session are
-- steps of the specification (packages/db/src/queries/orders.ts).
use gundam_tcg_hub.Base.{
  ap, subst, ℕ, ◌≡◌, refl, ◌≢◌, ◌||◌, Option, none, some, get_or, ◌⊎◌, inl, inr, arith,
  Option-cases, Bool-cases,
}
use gundam_tcg_hub.Base.Table.{find, insert}
use gundam_tcg_hub.Order.{same_status}
use gundam_tcg_hub.Orders.Schema.{Order, Store, Text}
use gundam_tcg_hub.Orders.Db.{
  ok, err, Result, pure, ◌>>=◌, worker, web, Role, select_order, update_order, refusal,
}
use gundam_tcg_hub.Orders.Queries.{
  MoveInput, move, create_order, insert_order, new_order, attach_checkout_session, checkout_columns,
  CreateOrderInput,
}
use gundam_tcg_hub.Orders.Payments.{
  get_order_by_payment_intent, stripe_input, chargeback_text, mark_order_refunded,
  mark_order_charged_back,
}
use gundam_tcg_hub.Orders.Effects.{update_order_ok}
use gundam_tcg_hub.Orders.Step.{Step, kept, opened, edited}
use gundam_tcg_hub.Orders.Refinement.{move-Step}
use gundam_tcg_hub.Order.{refunded, disputed}

update_order-none :
    (role : Role) (id : ℕ) (f : Order → Order) (s t : Store)
    → update_order role id f s ≡ ok (none, t)
    → t ≡ s
unfolding update_order
update_order-none role id f s t h = ground arith

update_order_missing :
    (role : Role) (id : ℕ) (f : Order → Order) (s t : Store) (o : Order)
    → find id s.orders ≡ none
    → update_order role id f s ≢ ok (some o, t)
unfolding update_order
update_order_missing role id f s t o e h = ground arith

pub same-Step : (role : Role) (s t : Store) → t ≡ s → Step role s t
same-Step role s t e = kept (ap (λ (u : Store). u.orders) e) (ap (λ (u : Store). u.events) e)

module _ (user id session : ℕ) (s : Store) where
  abbrev attached : Result (Option Order × Store)
  attached = update_order (web user) id (checkout_columns session s.clock) s

  attach_row :
      (t : Store) (o o' : Order)
      → find id s.orders ≡ some o
      → attached ≡ ok (some o', t)
      → Step (web user) s t
  attach_row t o o' e h =
      let d = update_order_ok (web user) id (checkout_columns session s.clock) s t o o' e h in
      edited id o o' (ground arith) (ground arith) (ground arith)

  attach_result :
      (t : Store) (u : Unit {0}) (r : Result (Option Order × Store))
      → attached ≡ r
      → attach_checkout_session user id session s ≡ ok (u, t)
      → (attached ≡ ok (none, t)) ⊎ ((o' : Order) × (attached ≡ ok (some o', t)))
  unfolding attach_checkout_session
  attach_result t u (ok (none, w)) q h = inl (ground arith)
  attach_result t u (ok (some x, w)) q h = inr (x, ground arith)
  attach_result t u (err x) q h = absurd (ground arith)

  pub attach-Step :
      (t : Store) (u : Unit {0})
      → attach_checkout_session user id session s ≡ ok (u, t)
      → Step (web user) s t
  attach-Step t u h = elim (attach_result t u attached refl h) [
    | inl q ↦ same-Step (web user) s t (update_order-none (web user) id _ s t q)
    | inr (o', q) ↦ elim (Option-cases (find id s.orders)) [
      | inl e ↦ absurd (update_order_missing (web user) id _ s t o' e q)
      | inr (o, e) ↦ attach_row t o o' e q
    ]
  ]

insert_order_ok :
    (id : ℕ) (o : Order) (s t : Store) (u : Unit {0})
    → insert_order id o s ≡ ok (u, t)
    → (find id s.orders ≡ none)
      × (refusal id o s ≡ none)
      × (t ≡ record s { orders = insert id o s.orders })
unfolding insert_order
insert_order_ok id o s t u h = ground arith

module _ (id user : ℕ) (input : CreateOrderInput) (s t : Store) (o : Order) where
  abbrev opening : Order
  opening = new_order user input s.clock

  create_result :
      (r : Result (Unit {0} × Store))
      → insert_order id opening s ≡ r
      → create_order id user input s ≡ ok (o, t)
      → insert_order id opening s ≡ ok (tt, t)
  unfolding create_order select_order
  create_result (ok (u, w)) q h = ground arith
  create_result (err x) q h = absurd (ground arith)

  pub create-Step : create_order id user input s ≡ ok (o, t) → Step (web user) s t
  create-Step h =
      let d = insert_order_ok id opening s t tt (create_result _ refl h) in
      opened id opening d.0 refl d.1 (ground arith) (ground arith)

move_result :
    {B : Type 0} (wrap : Order → B) (id : ℕ) (input : MoveInput) (s t : Store) (b : B)
    (r : Result (Order × Store))
    → move worker id input s ≡ r
    → (do o ← move worker id input; pure (wrap o)) s ≡ ok (b, t)
    → Step worker s t
move_result wrap id input s t b (ok (o, w)) q h =
    let e : w ≡ t = ground arith in subst (Step worker s) e (move-Step worker id input s w o q)
move_result wrap id input s t b (err x) q h = absurd (ground arith)

refund_missing :
    (id : ℕ) (reason : Option Text) (s t : Store) (r : Option Order)
    → find id s.orders ≡ none
    → mark_order_refunded id reason s ≡ ok (r, t)
    → t ≡ s
unfolding mark_order_refunded
refund_missing id reason s t r e h = ground arith

refund_found :
    (id : ℕ) (reason : Option Text) (s t : Store) (o : Order) (r : Option Order)
    → find id s.orders ≡ some o
    → mark_order_refunded id reason s ≡ ok (r, t)
    → (t ≡ s)
      ⊎ ((do order ← move worker id (stripe_input refunded reason); pure (some order)) s
          ≡ ok (r, t))
unfolding mark_order_refunded
refund_found id reason s t o r e h = elim (Bool-cases (same_status o.status refunded)) [
  | inl p ↦ inl (ground arith)
  | inr p ↦ inr (ground arith)
]

pub refund-Step :
    (id : ℕ) (reason : Option Text) (s t : Store) (r : Option Order)
    → mark_order_refunded id reason s ≡ ok (r, t)
    → Step worker s t
refund-Step id reason s t r h = elim (Option-cases (find id s.orders)) [
  | inl e ↦ same-Step worker s t (refund_missing id reason s t r e h)
  | inr (o, e) ↦ elim (refund_found id reason s t o r e h) [
    | inl same ↦ same-Step worker s t same
    | inr q ↦ move_result some id (stripe_input refunded reason) s t r _ refl q
  ]
]

module _ (intent : ℕ) (reason : Option Text) (s t : Store) (r : Option (ℕ × Order)) where
  chargeback_missing :
      get_order_by_payment_intent intent s ≡ none
      → mark_order_charged_back intent reason s ≡ ok (r, t)
      → t ≡ s
  unfolding mark_order_charged_back
  chargeback_missing e h = ground arith

  abbrev chargeback_input : MoveInput
  chargeback_input = stripe_input disputed (some (get_or reason chargeback_text))

  chargeback_found :
      (id : ℕ) (o : Order)
      → get_order_by_payment_intent intent s ≡ some (id, o)
      → mark_order_charged_back intent reason s ≡ ok (r, t)
      → (t ≡ s)
        ⊎ ((do order ← move worker id chargeback_input; pure (some (id, order))) s ≡ ok (r, t))
  unfolding mark_order_charged_back
  chargeback_found id o e h =
      elim (Bool-cases (same_status o.status disputed || same_status o.status refunded)) [
        | inl p ↦ inl (ground arith)
        | inr p ↦ inr (ground arith)
      ]

  pub chargeback-Step : mark_order_charged_back intent reason s ≡ ok (r, t) → Step worker s t
  chargeback-Step h = elim (Option-cases (get_order_by_payment_intent intent s)) [
    | inl e ↦ same-Step worker s t (chargeback_missing e h)
    | inr ((id, o), e) ↦ elim (chargeback_found id o e h) [
      | inl same ↦ same-Step worker s t same
      | inr q ↦ move_result (λ order. some (id, order)) id chargeback_input s t r _ refl q
    ]
  ]
