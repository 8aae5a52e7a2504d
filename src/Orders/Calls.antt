-- ===== src/Orders/Calls.antt =====
-- The order queries as calls on one database, one after another: a call that throws leaves the store
-- as it was, which is what its transaction's rollback does (packages/db/src/queries/orders.ts).
use gundam_tcg_hub.Base.{ℕ, ◌+◌, ◌≡◌, refl, Option, List, [], ◌∷◌}
use gundam_tcg_hub.Orders.Schema.{Store, Text}
use gundam_tcg_hub.Orders.Db.{ok, err, Result, worker, web, Role}
use gundam_tcg_hub.Orders.Queries.{
  create_order, attach_checkout_session, CreateOrderInput, ship_order, cancel_order, dispute_order,
  mark_order_delivered, complete_order, ByActor,
}
use gundam_tcg_hub.Orders.Payments.{
  OrderPaidInput, mark_order_paid, mark_order_refunded, mark_order_charged_back,
}
use gundam_tcg_hub.Orders.Step.{Step, kept}
use gundam_tcg_hub.Orders.Refinement.{
  ship-Step, cancel-Step, dispute-Step, delivered-Step, complete-Step,
}
use gundam_tcg_hub.Orders.Settlement.{create-Step, attach-Step, refund-Step, chargeback-Step}
use gundam_tcg_hub.Orders.Paying.{paid-Step}

pub data Call : Type 0 where
  creates : ℕ → ℕ → CreateOrderInput → Call
  attaches : ℕ → ℕ → ℕ → Call
  ships : ℕ → ℕ → ℕ → ℕ → Call
  cancels : ℕ → ℕ → Option Text → Call
  disputes : ℕ → ℕ → Text → Call
  delivers completes : ℕ → ByActor → Option ℕ → Option Text → Call
  pays : OrderPaidInput → Call
  refunds : ℕ → Option Text → Call
  charges_back : ℕ → Option Text → Call
  waits : ℕ → Call

-- The connection that the call runs on.
abbrev pub role_of : Call → Role
role_of (creates id user input) = web user
role_of (attaches user id session) = web user
role_of (ships user id carrier number) = web user
role_of (cancels user id reason) = web user
role_of (disputes user id reason) = web user
role_of other = worker

abbrev pub after : {A : Type 0} → Store → Result (A × Store) → Store
after s (ok (_, t)) = t
after s (err _) = s

unfoldable pub perform : Call → Store → Store
perform (creates id user input) s = after s (create_order id user input s)
perform (attaches user id session) s = after s (attach_checkout_session user id session s)
perform (ships user id carrier number) s = after s (ship_order user id carrier number s)
perform (cancels user id reason) s = after s (cancel_order user id reason s)
perform (disputes user id reason) s = after s (dispute_order user id reason s)
perform (delivers id by actor_id reason) s = after s (mark_order_delivered id by actor_id reason s)
perform (completes id by actor_id reason) s = after s (complete_order id by actor_id reason s)
perform (pays input) s = after s (mark_order_paid input s)
perform (refunds id reason) s = after s (mark_order_refunded id reason s)
perform (charges_back intent reason) s = after s (mark_order_charged_back intent reason s)
perform (waits ms) s = record s { clock = s.clock + ms }

unfoldable pub perform_all : List Call → Store → Store
perform_all [] s = s
perform_all (c ∷ cs) s = perform_all cs (perform c s)

after-Step :
    {A : Type 0} (role : Role) (s : Store) (r : Result (A × Store))
    → ((a : A) (t : Store) → r ≡ ok (a, t) → Step role s t)
    → Step role s (after s r)
after-Step role s (ok (a, t)) h = h a t refl
after-Step role s (err e) h = kept refl refl

-- Every call is a step of the specification: it leaves the orders and their history alone, opens an
-- order as `created`, changes a row without moving it, or makes one legal move and records it; and
-- a row that it writes is one that the connection's role may see and may write.
pub perform-Step : (c : Call) (s : Store) → Step (role_of c) s (perform c s)
unfolding perform
perform-Step (creates id user input) s =
    after-Step (web user) s (create_order id user input s) λ o t. create-Step id user input s t o
perform-Step (attaches user id session) s =
    after-Step (web user) s _ λ u t. attach-Step user id session s t u
perform-Step (ships user id carrier number) s =
    after-Step (web user) s _ λ o t. ship-Step user id carrier number s t o
perform-Step (cancels user id reason) s =
    after-Step (web user) s _ λ o t. cancel-Step user id reason s t o
perform-Step (disputes user id reason) s =
    after-Step (web user) s _ λ o t. dispute-Step user id reason s t o
perform-Step (delivers id by actor_id reason) s =
    after-Step worker s _ λ o t. delivered-Step id by actor_id reason s t o
perform-Step (completes id by actor_id reason) s =
    after-Step worker s _ λ o t. complete-Step id by actor_id reason s t o
perform-Step (pays input) s = after-Step worker s _ λ r t. paid-Step input s t r
perform-Step (refunds id reason) s = after-Step worker s _ λ r t. refund-Step id reason s t r
perform-Step (charges_back intent reason) s =
    after-Step worker s _ λ r t. chargeback-Step intent reason s t r
perform-Step (waits ms) s = kept refl refl

-- An invariant of the steps is one of every sequence of calls.
pub perform_all_induction :
    (P : Store → Type 0)
    → ((role : Role) (s t : Store) → Step role s t → P s → P t)
    → (cs : List Call) (s : Store) → P s
    → P (perform_all cs s)
unfolding perform_all
perform_all_induction P keep [] s h = h
perform_all_induction P keep (c ∷ cs) s h =
    perform_all_induction P keep cs (perform c s)
      (keep (role_of c) s (perform c s) (perform-Step c s) h)
