-- ===== src/Orders/Receipt.antt =====
-- Receiving a payment (`markOrderPaid` of packages/db/src/queries/orders.ts) on every branch, and once
-- only.
use gundam_tcg_hub.Base.{
  ℕ, ◌≡◌, refl, true, false, Option, none, some, [], ◌∷◌, ◌++◌, arith, Option-cases, inl, inr, ◌≢◌,
  ◌≤◌, get_or,
}
use gundam_tcg_hub.Base.Table.{Table, find, write, any_row}
use gundam_tcg_hub.Order.{created, paid, stripe, transition, not_a_transition}
use gundam_tcg_hub.Orders.Schema.{
  Order, Store, max_integer, order_checks, listing_clash, payment_clash, holds_listing,
  event_checks, Listing,
}
use gundam_tcg_hub.Orders.Db.{
  worker, refusal, other_row, ok, err, illegal_transition, sees, may_write, sell_listing, set_sold,
}
use gundam_tcg_hub.Orders.Payments.{
  mark_order_paid, OrderPaidInput, paid_columns, paid_event, applied, already_paid, pay, sell,
}
use gundam_tcg_hub.Orders.Paying.{pay_ok}
use gundam_tcg_hub.Orders.Constraints.{IsSound}
use gundam_tcg_hub.Orders.Live.{no_clash, update_order_live, insert_event_live, find-write_self}

-- What `markOrderPaid` should answer, told without the machinery of the queries.
abbrev pub received : OrderPaidInput → ℕ → Order → Order
received input at o = record o {
  status = paid;
  tax_cents = get_or input.tax_cents o.tax_cents;
  stripe_checkout_id = some input.checkout_session_id;
  stripe_payment_intent_id = some input.payment_intent_id;
  paid_at = some at;
  updated_at = at;
}

-- The listing, where the order came from one that is still there, is sold.
abbrev pub sold_listings : Option ℕ → ℕ → Table Listing → Table Listing
sold_listings none at t = t
sold_listings (some id) at t = elim (find id t) [ none ↦ t | some l ↦ write id (set_sold at l) t ]

abbrev pub paid_store : OrderPaidInput → Order → Store → Store
paid_store input o s = record s {
  orders = write input.order_id (received input s.clock o) s.orders;
  events = s.events ++ (paid_event input.order_id created paid s.clock ∷ []);
  listings = sold_listings o.listing_id s.clock s.listings;
}

sell-sold_listings :
    (l : Option ℕ) (s : Store)
    → sell l s ≡ ok (tt, record s { listings = sold_listings l s.clock s.listings })
unfolding sell sell_listing
sell-sold_listings none s = refl
sell-sold_listings (some l) s = ground arith

received-checks :
    (input : OrderPaidInput) (at : ℕ) (o : Order)
    → o.status ≡ created
    → order_checks o ≡ true
    → get_or input.tax_cents 0 ≤ max_integer
    → order_checks (received input at o) ≡ true
unfolding order_checks
received-checks input at o c h t = ground arith

-- The payment and the session are not those of another order.
abbrev pub Unclaimed : OrderPaidInput → Order → Store → Type 0
Unclaimed input o s =
    any_row (other_row payment_clash input.order_id (received input s.clock o)) s.orders ≡ false

received-clash :
    (input : OrderPaidInput) (at : ℕ) (o p : Order)
    → o.status ≡ created
    → listing_clash (received input at o) p ≡ true
    → listing_clash o p ≡ true
unfolding listing_clash holds_listing
received-clash input at o p c h = rw c h

refusal-received :
    (input : OrderPaidInput) (s : Store) (o : Order)
    → IsSound s
    → find input.order_id s.orders ≡ some o
    → o.status ≡ created
    → Unclaimed input o s
    → get_or input.tax_cents 0 ≤ max_integer
    → refusal input.order_id (received input s.clock o) s ≡ none
unfolding refusal
refusal-received input s o v e c u t =
    let checks = received-checks input s.clock o c (v.checked input.order_id o e) t in
    let holder =
      no_clash listing_clash input.order_id o (received input s.clock o) s.orders v.keys
        v.one_holder e (λ p. received-clash input s.clock o p c) in
    rw (checks, u, holder)

pay_live :
    (input : OrderPaidInput) (s : Store) (o : Order)
    → IsSound s
    → find input.order_id s.orders ≡ some o
    → o.status ≡ created
    → Unclaimed input o s
    → get_or input.tax_cents 0 ≤ max_integer
    → pay input o s ≡ ok (applied (received input s.clock o), paid_store input o s)
unfolding pay sees may_write transition event_checks
pay_live input s o v e c u t =
    let id = input.order_id in
    let o' = received input s.clock o in
    let written = write id o' s.orders in
    let event = paid_event id o.status paid s.clock in
    let wrote =
      update_order_live worker id (paid_columns paid input s.clock) s o e refl refl
        (refusal-received input s o v e c u t) in
    let logged =
      insert_event_live worker event (record s { orders = written }) o'
        (find-write_self id o o' s.orders e) refl refl refl in
    let sold =
      sell-sold_listings o.listing_id
        (record s { orders = written; events = s.events ++ (event ∷ []) }) in
    ground (arith, wrote, logged, sold)

-- An order that is `created` takes a payment that no other order has and whose tax, where one is told,
-- fits its column: the row, the event by Stripe and the sold listing are written, and nothing else.
pub mark_order_paid_live :
    (input : OrderPaidInput) (s : Store) (o : Order)
    → IsSound s
    → find input.order_id s.orders ≡ some o
    → o.status ≡ created
    → Unclaimed input o s
    → get_or input.tax_cents 0 ≤ max_integer
    → mark_order_paid input s ≡ ok (applied (received input s.clock o), paid_store input o s)
unfolding mark_order_paid
mark_order_paid_live input s o v e c u t = ground (arith, pay_live input s o v e c u t)

paid_again :
    (input : OrderPaidInput) (s : Store) (o : Order)
    → find input.order_id s.orders ≡ some o
    → o.status ≡ paid
    → mark_order_paid input s ≡ ok (already_paid, s)
unfolding mark_order_paid
paid_again input s o e p = ground arith

paid_was_applied :
    (input : OrderPaidInput) (s t : Store) (x o : Order)
    → find input.order_id s.orders ≡ some x
    → mark_order_paid input s ≡ ok (applied o, t)
    → pay input x s ≡ ok (applied o, t)
unfolding mark_order_paid
paid_was_applied input s t x o e h = ground arith

paid_was_known :
    (input : OrderPaidInput) (s t : Store) (o : Order)
    → find input.order_id s.orders ≡ none
    → mark_order_paid input s ≢ ok (applied o, t)
unfolding mark_order_paid
paid_was_known input s t o e h = ground arith

paid_row :
    (input : OrderPaidInput) (s t : Store) (x o : Order)
    → find input.order_id s.orders ≡ some x
    → pay input x s ≡ ok (applied o, t)
    → (p : Order) × (find input.order_id t.orders ≡ some p) × (p.status ≡ paid)
paid_row input s t x o e h =
    let (o', applies, columns, _, _, _, orders, _) = pay_ok input s x t (applied o) h e in
    (o', rw orders (find-write_self input.order_id x o' s.orders e), ground arith)

-- A delivery of the same payment after it was applied changes nothing, whatever it says of the
-- session and the tax: the order is `already_paid`.
pub mark_order_paid_twice :
    (input again : OrderPaidInput) (s t : Store) (o : Order)
    → again.order_id ≡ input.order_id
    → mark_order_paid input s ≡ ok (applied o, t)
    → mark_order_paid again t ≡ ok (already_paid, t)
mark_order_paid_twice input again s t o same h =
    elim (Option-cases (find input.order_id s.orders)) [
      | inl e ↦ absurd (paid_was_known input s t o e h)
      | inr (x, e) ↦
          let (p, found, st) = paid_row input s t x o e (paid_was_applied input s t x o e h) in
          paid_again again t p (rw same found) st
    ]

-- An order that is in no state to be paid throws, and what is thrown names the state it is in.
pub mark_order_paid_refused :
    (input : OrderPaidInput) (s : Store) (o : Order)
    → find input.order_id s.orders ≡ some o
    → o.status ≢ created
    → o.status ≢ paid
    → mark_order_paid input s ≡ err (illegal_transition o.status paid stripe not_a_transition)
unfolding mark_order_paid pay transition
mark_order_paid_refused input s o e c p = ground arith
