-- ===== src/Orders/Live.antt =====
-- When the order queries succeed (packages/db/src/queries/orders.ts): a move whose conditions hold is
-- made, and what it leaves behind is known exactly.
use gundam_tcg_hub.Base.{
  ℕ, ◌≡◌, Bool, true, false, none, some, [], ◌∷◌, ◌++◌, arith, Bool-cases, inl, inr, ◌∙◌, sym,
}
use gundam_tcg_hub.Base.Table.{Table, find, write, find-write, any_row, any_row-false, Distinct}
use gundam_tcg_hub.Order.{moved, transition}
use gundam_tcg_hub.Orders.Schema.{
  OrderEvent, Order, Store, order_checks, listing_clash, payment_clash, holds_listing, event_checks,
}
use gundam_tcg_hub.Orders.Db.{
  Role, refusal, other_row, ok, sees, may_write, update_order, insert_event, select_order,
  known_user,
}
use gundam_tcg_hub.Orders.Queries.{move, MoveInput, move_columns, move_event, check_party}
use gundam_tcg_hub.Orders.Effects.{advanced_store}
use gundam_tcg_hub.Orders.Constraints.{IsSound, NoClash}

-- The new row holds a listing, a Checkout session and a payment only if the old one did.
pub record Narrows (o o' : Order) : Type 0 where
  pub listing : o'.listing_id ≡ o.listing_id
  pub holds : holds_listing o'.status ≡ true → holds_listing o.status ≡ true
  pub checkout : o'.stripe_checkout_id ≡ o.stripe_checkout_id
  pub intent : o'.stripe_payment_intent_id ≡ o.stripe_payment_intent_id

listing_clash_narrow :
    (o o' p : Order) → Narrows o o' → listing_clash o' p ≡ true → listing_clash o p ≡ true
unfolding listing_clash
listing_clash_narrow o o' p n h = elim (Bool-cases (holds_listing o'.status)) [
  | inl held ↦ ground (arith, n.holds held, n.listing)
  | inr free ↦ absurd (ground arith)
]

payment_clash_narrow : (o o' p : Order) → Narrows o o' → payment_clash o' p ≡ payment_clash o p
unfolding payment_clash
payment_clash_narrow o o' p n = rw (n.checkout, n.intent)

pub no_clash :
    (clash : Order → Order → Bool) (id : ℕ) (o o' : Order) (t : Table Order)
    → Distinct t
    → NoClash clash t
    → find id t ≡ some o
    → ((p : Order) → clash o' p ≡ true → clash o p ≡ true)
    → any_row (other_row clash id o') t ≡ false
no_clash clash id o o' t d n e narrow = any_row-false _ t d at_row
  where
    at_row : (k : ℕ) (p : Order) → find k t ≡ some p → other_row clash id o' k p ≡ false
    at_row k p q = elim (Bool-cases (clash o' p)) [
      | inl c ↦ ground (arith, n id k o p e q (narrow p c))
      | inr c ↦ ground arith
    ]

-- In a sound store a row may be rewritten where the new row passes the CHECKs and takes hold of
-- nothing new.
pub refusal-none :
    (id : ℕ) (o o' : Order) (s : Store)
    → IsSound s
    → find id s.orders ≡ some o
    → order_checks o' ≡ true
    → Narrows o o'
    → refusal id o' s ≡ none
unfolding refusal
refusal-none id o o' s v e c n =
    let a =
      no_clash payment_clash id o o' s.orders v.keys v.one_payment e
        (λ p h. sym (payment_clash_narrow o o' p n) ∙ h) in
    let b =
      no_clash listing_clash id o o' s.orders v.keys v.one_holder e
        (λ p. listing_clash_narrow o o' p n) in
    rw (c, a, b)

pub update_order_live :
    (role : Role) (id : ℕ) (f : Order → Order) (s : Store) (o : Order)
    → find id s.orders ≡ some o
    → sees role o ≡ true
    → may_write role (f o) ≡ true
    → refusal id (f o) s ≡ none
    → update_order role id f s ≡ ok (some (f o), record s { orders = write id (f o) s.orders })
unfolding update_order
update_order_live role id f s o e see w a = ground arith

pub insert_event_live :
    (role : Role) (e : OrderEvent) (s : Store) (o : Order)
    → find e.order_id s.orders ≡ some o
    → sees role o ≡ true
    → event_checks e ≡ true
    → known_user e.actor_id s.users ≡ true
    → insert_event role e s ≡ ok (tt, record s { events = s.events ++ (e ∷ []) })
unfolding insert_event
insert_event_live role e s o f see c u = ground arith

pub find-write_self :
    (id : ℕ) (o o' : Order) (t : Table Order)
    → find id t ≡ some o
    → find id (write id o' t) ≡ some o'
find-write_self id o o' t e = ground (arith, find-write id id o' t)

-- A move whose conditions hold is made: the row is rewritten, the move is recorded, and nothing else
-- changes.
pub move_live :
    (role : Role) (id : ℕ) (input : MoveInput) (s : Store) (o : Order)
    → find id s.orders ≡ some o
    → sees role o ≡ true
    → check_party input.must_be input.actor_id o s ≡ ok (tt, s)
    → transition o.status input.to input.actor ≡ moved input.to
    → let o' = move_columns input.to input.columns s.clock o in
      let e = move_event id o.status input.to input s.clock in
      may_write role o' ≡ true
      → sees role o' ≡ true
      → refusal id o' s ≡ none
      → event_checks e ≡ true
      → known_user e.actor_id s.users ≡ true
      → move role id input s ≡ ok (o', advanced_store s id o' e)
unfolding move select_order
move_live role id input s o e see party legal write' see' acc checked user =
    let o' = move_columns input.to input.columns s.clock o in
    let event = move_event id o.status input.to input s.clock in
    let wrote =
      update_order_live role id (move_columns input.to input.columns s.clock) s o e see write'
        acc in
    let logged =
      insert_event_live role event (record s { orders = write id o' s.orders }) o'
        (find-write_self id o o' s.orders e) see' checked user in
    ground (arith, wrote, logged)
