-- ===== src/Order/Safety.antt =====
-- What the table of moves (packages/core/src/orders.ts) promises about money.
use gundam_tcg_hub.Base.{
  Option-cases, Bool-cases, some, inl, inr, refl, List, [], ◌∷◌, ◌≢◌, ◌≡◌, refl, ◌↔◌, ◌⊎◌, inl, inr,
  true, false, arith, List, [], ◌∷◌, All, ◌≢◌,
}
use gundam_tcg_hub.Order.{
  same_status, includes, moves, actors_for, admin, system, shipped, delivered, completed, disputed,
  cancelled, created, refunded, OrderStatus, created, paid, shipped, delivered, completed,
  cancelled, refunded, disputed, OrderActor, buyer, seller, admin, stripe, system, can_transition,
  transition, moved, refused, is_terminal, money_has_moved, Outcome, not_a_transition,
  not_this_actor, moves, actors_for, includes,
}

pub same_status→eq : (a b : OrderStatus) → same_status a b ≡ true → a ≡ b
same_status→eq a b h = ground arith

-- A request to move an order: the state that is asked for, and who asks.
pub record Request : Type 0 where
  pub to : OrderStatus
  pub actor : OrderActor

-- A refused request leaves the order where it is.
abbrev pub after : OrderStatus → Outcome → OrderStatus
after from (moved to) = to
after from (refused _ _ _ _) = from

unfoldable pub run : OrderStatus → List Request → OrderStatus
run s [] = s
run s (r ∷ rs) = run (after s (transition s r.to r.actor)) rs

some_actor : OrderStatus → OrderStatus → OrderActor
some_actor from to = elim (actors_for from to) [ [] ↦ buyer | a ∷ _ ↦ a ]

some_actor_may :
    (from to : OrderStatus) (actors : List OrderActor)
    → moves from to ≡ some actors
    → can_transition from to (some_actor from to) ≡ true
unfolding some_actor can_transition actors_for
some_actor_may from to actors e = ground arith

-- A request is granted exactly when `can_transition` allows it, and then the new state is the
-- one that was asked for. A refusal says `not_a_transition` when nobody may make the move, and
-- `not_this_actor` when this actor may not but another one may.
pub transition_outcome :
    (from to : OrderStatus) (a : OrderActor)
    → ((transition from to a ≡ moved to) × (can_transition from to a ≡ true))
      ⊎ ((transition from to a ≡ refused from to a not_a_transition)
          × ((b : OrderActor) → can_transition from to b ≡ false))
      ⊎ ((transition from to a ≡ refused from to a not_this_actor)
          × (can_transition from to a ≡ false)
          × ((b : OrderActor) × (can_transition from to b ≡ true)))
unfolding transition can_transition
transition_outcome from to a = elim (Option-cases (moves from to)) [
  | inl e ↦ rw (e, transition, can_transition) (inr (inl (refl, λ b. refl)))
  | inr (actors, e) ↦ elim (Bool-cases (includes actors a)) [
    | inl p ↦ inl (ground arith, ground arith)
    | inr p ↦
        inr
          (inr (ground arith, ground arith, (some_actor from to, some_actor_may from to actors e)))
  ]
]

-- Only Stripe puts an order into `paid` or `refunded`.
pub money_only_by_stripe :
    (from to : OrderStatus) (a : OrderActor)
    → can_transition from to a ≡ true
    → (to ≡ paid) ⊎ (to ≡ refunded)
    → a ≡ stripe
unfolding can_transition
money_only_by_stripe from to a h e = ground arith

step_without_stripe :
    (s to : OrderStatus) (a : OrderActor)
    → a ≢ stripe
    → money_has_moved s ≡ false
    → money_has_moved (after s (transition s to a)) ≡ false
unfolding transition money_has_moved
step_without_stripe s to a n h = ground arith

terminal_stuck :
    (s to : OrderStatus) (a : OrderActor) → is_terminal s ≡ true → after s (transition s to a) ≡ s
unfolding transition is_terminal
terminal_stuck s to a h = ground arith

stuck_terminal :
    (s : OrderStatus)
    → ((to : OrderStatus) (a : OrderActor) → after s (transition s to a) ≡ s)
    → is_terminal s ≡ true
unfolding transition is_terminal
stuck_terminal created h = cc (h paid stripe)
stuck_terminal paid h = cc (h shipped seller)
stuck_terminal shipped h = cc (h delivered system)
stuck_terminal delivered h = cc (h completed system)
stuck_terminal completed h = cc (h disputed buyer)
stuck_terminal disputed h = cc (h completed admin)
stuck_terminal cancelled h = refl
stuck_terminal refunded h = refl

-- `is_terminal` holds of the states that no request by anybody changes, and only of those.
pub terminal_iff_stuck :
    (s : OrderStatus)
    → (is_terminal s ≡ true)
      ↔ ((to : OrderStatus) (a : OrderActor) → after s (transition s to a) ≡ s)
terminal_iff_stuck s = (λ h to a. terminal_stuck s to a h, stuck_terminal s)

-- Requests by anybody but Stripe.
abbrev ByOthers : List Request → Type 0
ByOthers = All (λ r. r.actor ≢ stripe)

-- Whatever the buyer, the seller, the admins and the clock ask for, and in whatever order: an
-- order for which no money has moved is still one for which none has.
pub run_without_stripe :
    (s : OrderStatus) (rs : List Request)
    → ByOthers rs
    → money_has_moved s ≡ false
    → money_has_moved (run s rs) ≡ false
unfolding run
run_without_stripe s [] b h = h
run_without_stripe s (r ∷ rs) b h =
    run_without_stripe (after s (transition s r.to r.actor)) rs b.1
      (step_without_stripe s r.to r.actor b.0 h)

-- Requests by the two parties, and the states before the seller is owed a payout.
abbrev pub IsByParties : List Request → Type 0
IsByParties = All (λ r. (r.actor ≡ buyer) ⊎ (r.actor ≡ seller))

abbrev pub NotReleased : OrderStatus → Type 0
NotReleased s = (s ≢ delivered) × (s ≢ completed) × (s ≢ refunded)

step_by_parties :
    (s to : OrderStatus) (a : OrderActor)
    → (a ≡ buyer) ⊎ (a ≡ seller)
    → NotReleased s
    → NotReleased (after s (transition s to a))
unfolding transition
step_by_parties s to a p h = ground arith

-- However the buyer and the seller act, together or against each other, an order that is not yet
-- `delivered`, `completed` or `refunded` does not become one of these.
pub run_by_parties :
    (s : OrderStatus) (rs : List Request) → IsByParties rs → NotReleased s → NotReleased (run s rs)
unfolding run
run_by_parties s [] b h = h
run_by_parties s (r ∷ rs) b h =
    run_by_parties (after s (transition s r.to r.actor)) rs b.1
      (step_by_parties s r.to r.actor b.0 h)

abbrev Stays : OrderStatus → Type 0
Stays s = (rs : List Request) → run s rs ≡ s

run_terminal : (s : OrderStatus) (rs : List Request) → is_terminal s ≡ true → run s rs ≡ s
unfolding run
run_terminal s [] h = refl
run_terminal s (r ∷ rs) h = rw (terminal_stuck s r.to r.actor h) (run_terminal s rs h)

-- An admin may cancel a paid order, and from then on no sequence of requests, Stripe's own
-- refund included, makes the order `refunded`, and `money_has_moved` says that no money moved.
pub cancelled_after_paid :
    (rs : List Request)
    → let s = after paid (transition paid cancelled admin) in
      (run s rs ≡ cancelled) × (money_has_moved paid ≡ true) × (money_has_moved (run s rs) ≡ false)
unfolding transition money_has_moved is_terminal
cancelled_after_paid rs = let e = run_terminal cancelled rs refl in (e, refl, rw e)
