-- ===== src/Order.antt =====
-- The states of an order, who may cause which move, and the decision that every route goes
-- through (packages/core/src/orders.ts). `TABLE` is read row by row as `table`; the Map of maps
-- that the source builds from it is the look-up in it.
pub mod Safety
mod Tests
use gundam_tcg_hub.Base.{
  ℕ, ◌≡◌, Bool, true, false, ◌&&◌, ◌||◌, not, Option, none, some, List, [], ◌∷◌, map, ◌==◌,
  if◌then◌else◌, any, length, get_or, is_some,
}

pub data OrderStatus : Type 0 where
  created paid shipped delivered completed cancelled refunded disputed : OrderStatus

pub data OrderActor : Type 0 where
  buyer seller admin stripe system : OrderActor

abbrev pub status_index : OrderStatus → ℕ
status_index created = 0
status_index paid = 1
status_index shipped = 2
status_index delivered = 3
status_index completed = 4
status_index cancelled = 5
status_index refunded = 6
status_index disputed = 7

abbrev pub actor_index : OrderActor → ℕ
actor_index buyer = 0
actor_index seller = 1
actor_index admin = 2
actor_index stripe = 3
actor_index system = 4

-- `===` on statuses and on actors.
abbrev pub same_status : OrderStatus → OrderStatus → Bool
same_status a b = status_index a == status_index b

abbrev pub same_actor : OrderActor → OrderActor → Bool
same_actor a b = actor_index a == actor_index b

pub order_statuses : List OrderStatus
order_statuses =
    created ∷ paid ∷ shipped ∷ delivered ∷ completed ∷ cancelled ∷ refunded ∷ disputed ∷ []

abbrev pub Row : Type 0
Row = List (OrderStatus × List OrderActor)

-- `TABLE`
unfoldable pub table : OrderStatus → Row
table created = (paid, stripe ∷ []) ∷ (cancelled, buyer ∷ seller ∷ admin ∷ system ∷ []) ∷ []
table paid =
    (shipped, seller ∷ [])
    ∷ (refunded, stripe ∷ [])
    ∷ (disputed, buyer ∷ admin ∷ stripe ∷ [])
    ∷ (cancelled, admin ∷ [])
    ∷ []
table shipped =
    (delivered, system ∷ admin ∷ [])
    ∷ (refunded, stripe ∷ [])
    ∷ (disputed, buyer ∷ admin ∷ stripe ∷ [])
    ∷ []
table delivered =
    (completed, system ∷ admin ∷ [])
    ∷ (refunded, stripe ∷ [])
    ∷ (disputed, buyer ∷ admin ∷ stripe ∷ [])
    ∷ []
table completed = (disputed, buyer ∷ admin ∷ stripe ∷ []) ∷ (refunded, stripe ∷ []) ∷ []
table disputed = (refunded, stripe ∷ []) ∷ (completed, admin ∷ []) ∷ []
table cancelled = []
table refunded = []

-- `Map.get`
abbrev pub lookup_row : OrderStatus → Row → Option (List OrderActor)
lookup_row to [] = none
lookup_row to ((s, actors) ∷ row) = if same_status s to then some actors else lookup_row to row

-- `MOVES.get(from)?.get(to)`
unfoldable pub moves : OrderStatus → OrderStatus → Option (List OrderActor)
unfolding table
moves from to = lookup_row to (table from)

abbrev pub includes : List OrderActor → OrderActor → Bool
includes actors actor = any (same_actor actor) actors

unfoldable pub is_terminal : OrderStatus → Bool
unfolding table
is_terminal status = length (table status) == 0

unfoldable pub next_states : OrderStatus → List OrderStatus
unfolding table
next_states status = map (λ (e : OrderStatus × List OrderActor). e.0) (table status)

unfoldable pub can_transition : OrderStatus → OrderStatus → OrderActor → Bool
unfolding moves
can_transition from to actor = elim (moves from to) [
  | none ↦ false
  | some actors ↦ includes actors actor
]

unfoldable pub actors_for : OrderStatus → OrderStatus → List OrderActor
unfolding moves
actors_for from to = get_or (moves from to) []

pub data Reason : Type 0 where
  not_a_transition not_this_actor : Reason

-- `IllegalTransitionError`, or the new status.
pub data Outcome : Type 0 where
  moved : OrderStatus → Outcome
  refused : OrderStatus → OrderStatus → OrderActor → Reason → Outcome

unfoldable pub transition : OrderStatus → OrderStatus → OrderActor → Outcome
unfolding moves
transition from to actor = elim (moves from to) [
  | none ↦ refused from to actor not_a_transition
  | some allowed ↦ if includes allowed actor then moved to else refused from to actor not_this_actor
]

unfoldable pub money_has_moved : OrderStatus → Bool
money_has_moved status = not (same_status status created) && not (same_status status cancelled)
