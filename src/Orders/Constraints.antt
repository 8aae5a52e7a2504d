-- ===== src/Orders/Constraints.antt =====
-- What the constraints of `orders` (packages/db/src/schema/market.ts) keep true of every row, through
-- any sequence of the order queries.
use gundam_tcg_hub.Base.{
  ℕ, ◌≡◌, ◌≤◌, ◌<◌, refl, Bool, true, false, Option, none, some, List, is_some, arith, ◌⊎◌, ◌≢◌,
}
use gundam_tcg_hub.Base.Table.{
  Distinct, insert-Distinct, write-Distinct, Table, find, write, insert, find-write, find-insert,
  any_row, find-any_row,
}
use gundam_tcg_hub.Order.{created, shipped, delivered, completed, cancelled}
use gundam_tcg_hub.Orders.Schema.{Order, Store, order_checks, listing_clash, payment_clash, both}
use gundam_tcg_hub.Orders.Db.{Role, refusal, other_row}
use gundam_tcg_hub.Orders.Step.{Step, kept, opened, edited, advanced}
use gundam_tcg_hub.Orders.Calls.{Call, perform_all, perform_all_induction}

both_comm : (a b : Option ℕ) → both a b ≡ both b a
both_comm none none = refl
both_comm none (some b) = refl
both_comm (some a) none = refl
both_comm (some a) (some b) = ground arith

listing_clash_comm : (o p : Order) → listing_clash o p ≡ listing_clash p o
unfolding listing_clash
listing_clash_comm o p = ground (arith, both_comm o.listing_id p.listing_id)

payment_clash_comm : (o p : Order) → payment_clash o p ≡ payment_clash p o
unfolding payment_clash
payment_clash_comm o p = ground (
  arith,
  both_comm o.stripe_checkout_id p.stripe_checkout_id,
  both_comm o.stripe_payment_intent_id p.stripe_payment_intent_id,
)

-- Two rows that clash are one row.
abbrev pub NoClash : (Order → Order → Bool) → Table Order → Type 0
NoClash clash t =
    (j k : ℕ) (o p : Order) → find j t ≡ some o → find k t ≡ some p → clash o p ≡ true → j ≡ k

module _ (clash : Order → Order → Bool) (comm : (o p : Order) → clash o p ≡ clash p o) where
  pub write-NoClash :
      (id : ℕ) (o' : Order) (t : Table Order)
      → any_row (other_row clash id o') t ≡ false
      → NoClash clash t
      → NoClash clash (write id o' t)
  write-NoClash id o' t h n j k o p q r c = ground (
    arith,
    find-write j id o' t,
    find-write k id o' t,
    find-any_row (other_row clash id o') j o t,
    find-any_row (other_row clash id o') k p t,
    comm o p,
    n j k o p,
  )

  pub insert-NoClash :
      (id : ℕ) (o' : Order) (t : Table Order)
      → find id t ≡ none
      → any_row (other_row clash id o') t ≡ false
      → NoClash clash t
      → NoClash clash (insert id o' t)
  insert-NoClash id o' t e h n j k o p q r c = ground (
    arith,
    find-insert j id o' t,
    find-insert k id o' t,
    find-any_row (other_row clash id o') j o t,
    find-any_row (other_row clash id o') k p t,
    comm o p,
    n j k o p,
  )

-- No identifier is used twice, every row passes the CHECK constraints, no two orders hold one listing, and no two orders have one
-- Checkout session or one payment.
pub record IsSound (s : Store) : Type 0 where
  pub keys : Distinct s.orders
  pub checked : (id : ℕ) (o : Order) → find id s.orders ≡ some o → order_checks o ≡ true
  pub one_holder : NoClash listing_clash s.orders
  pub one_payment : NoClash payment_clash s.orders

accepted :
    (id : ℕ) (o : Order) (s : Store)
    → refusal id o s ≡ none
    → (order_checks o ≡ true)
      × (any_row (other_row listing_clash id o) s.orders ≡ false)
      × (any_row (other_row payment_clash id o) s.orders ≡ false)
unfolding refusal
accepted id o s h = ground arith

write-IsSound :
    (id : ℕ) (o : Order) (s t : Store)
    → refusal id o s ≡ none
    → t.orders ≡ write id o s.orders
    → IsSound s
    → IsSound t
write-IsSound id o s t h e v =
    let a = accepted id o s h in
    record {
      keys = rw e (write-Distinct id o s.orders v.keys);
      checked = λ j p q. ground (arith, find-write j id o s.orders, v.checked j p);
      one_holder =
          rw e (write-NoClash listing_clash listing_clash_comm id o s.orders a.1 v.one_holder);
      one_payment =
          rw e (write-NoClash payment_clash payment_clash_comm id o s.orders a.2 v.one_payment);
    }

insert-IsSound :
    (id : ℕ) (o : Order) (s t : Store)
    → find id s.orders ≡ none
    → refusal id o s ≡ none
    → t.orders ≡ insert id o s.orders
    → IsSound s
    → IsSound t
insert-IsSound id o s t n h e v =
    let a = accepted id o s h in
    record {
      keys = rw e (insert-Distinct id o s.orders n v.keys);
      checked = λ j p q. ground (arith, find-insert j id o s.orders, v.checked j p);
      one_holder =
          rw e (insert-NoClash listing_clash listing_clash_comm id o s.orders n a.1 v.one_holder);
      one_payment =
          rw e (insert-NoClash payment_clash payment_clash_comm id o s.orders n a.2 v.one_payment);
    }

kept-IsSound : (s t : Store) → t.orders ≡ s.orders → IsSound s → IsSound t
kept-IsSound s t e v = record {
  keys = rw e v.keys;
  checked = rw e v.checked;
  one_holder = rw e v.one_holder;
  one_payment = rw e v.one_payment;
}

Step-IsSound : (role : Role) (s t : Store) → Step role s t → IsSound s → IsSound t
Step-IsSound role s t (kept a b) v = kept-IsSound s t a v
Step-IsSound role s t (opened id o n st ref a b) v = insert-IsSound id o s t n ref a v
Step-IsSound role s t (edited id o o' w st b) v = write-IsSound id o' s t w.accepted w.written v
Step-IsSound role s t (advanced id o o' e w r b) v = write-IsSound id o' s t w.accepted w.written v

-- Any sequence of calls keeps the constraints: every row passes its CHECKs, at most one open order
-- holds a listing, and a Checkout session or payment belongs to at most one order.
pub perform_all-IsSound : (cs : List Call) (s : Store) → IsSound s → IsSound (perform_all cs s)
perform_all-IsSound = perform_all_induction IsSound Step-IsSound

-- What the CHECKs mean for one order.
pub record Sane (o : Order) : Type 0 where
  pub parties : o.buyer_id ≢ o.seller_id
  pub positive : 0 < o.amount_cents
  pub ceiling : o.amount_cents ≤ 100000000
  pub fee : o.fee_cents ≤ o.amount_cents
  pub payment :
      (o.status ≡ created) ⊎ (o.status ≡ cancelled) ⊎ (is_some o.stripe_payment_intent_id ≡ true)
  pub tracking :
      (o.status ≡ shipped) ⊎ (o.status ≡ delivered) ⊎ (o.status ≡ completed)
      → (is_some o.tracking_carrier ≡ true) × (is_some o.tracking_number ≡ true)

checks-Sane : (o : Order) → order_checks o ≡ true → Sane o
unfolding order_checks
checks-Sane o h = record {
  parties = ground arith;
  positive = ground arith;
  ceiling = ground arith;
  fee = ground arith;
  payment = ground arith;
  tracking = λ st. ground arith;
}

-- After any calls on a sound store, every order in it is `Sane`: its two parties differ, its amount
-- is 1 to 100000000 cents, the fee does not exceed it, an order that is neither `created` nor
-- `cancelled` has a payment, and one that is `shipped`, `delivered` or `completed` has tracking.
pub perform_all-Sane :
    (cs : List Call) (s : Store) (id : ℕ) (o : Order)
    → IsSound s
    → find id (perform_all cs s).orders ≡ some o
    → Sane o
perform_all-Sane cs s id o v e = checks-Sane o ((perform_all-IsSound cs s v).checked id o e)
