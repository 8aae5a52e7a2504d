-- ===== src/Orders/Step.antt =====
-- What the order queries may do to the orders and their history, as a relation between the store
-- before and the store after, and that every query is such a step
-- (packages/db/src/queries/orders.ts).
use gundam_tcg_hub.Base.{ℕ, ◌≡◌, true, none, some, [], ◌∷◌, ◌++◌}
use gundam_tcg_hub.Base.Table.{find, write, insert}
use gundam_tcg_hub.Order.{can_transition, created}
use gundam_tcg_hub.Orders.Schema.{Order, OrderEvent, Store, event_checks}
use gundam_tcg_hub.Orders.Db.{worker, web, Role, refusal, may_write, sees}

-- What was agreed when the order was opened.
pub record SameTerms (o o' : Order) : Type 0 where
  pub buyer : o'.buyer_id ≡ o.buyer_id
  pub seller : o'.seller_id ≡ o.seller_id
  pub listing : o'.listing_id ≡ o.listing_id
  pub variant : o'.card_variant_id ≡ o.card_variant_id
  pub condition : o'.condition ≡ o.condition
  pub quantity : o'.quantity ≡ o.quantity
  pub amount : o'.amount_cents ≡ o.amount_cents
  pub fee : o'.fee_cents ≡ o.fee_cents
  pub currency : o'.currency ≡ o.currency

-- The event records a legal move of the order from the state it was in to the one it is in now.
pub record Records (id : ℕ) (o o' : Order) (e : OrderEvent) : Type 0 where
  pub order : e.order_id ≡ id
  pub from : e.from_status ≡ o.status
  pub to : e.to_status ≡ o'.status
  pub legal : can_transition o.status o'.status e.actor ≡ true
  pub checked : event_checks e ≡ true

-- The columns about the payment, which no session may write (migration 0043).
abbrev pub Frozen : Role → Order → Order → Type 0
Frozen (web user) o o' =
    (o'.stripe_payment_intent_id ≡ o.stripe_payment_intent_id)
    × (o'.tax_cents ≡ o.tax_cents)
    × (o'.paid_at ≡ o.paid_at)
Frozen worker o o' = Unit

-- The row is one that the role may change, and the new row passes its policy and the constraints.
pub record Writes (role : Role) (id : ℕ) (o o' : Order) (s t : Store) : Type 0 where
  pub row : find id s.orders ≡ some o
  pub visible : sees role o ≡ true
  pub allowed : may_write role o' ≡ true
  pub accepted : refusal id o' s ≡ none
  pub terms : SameTerms o o'
  pub frozen : Frozen role o o'
  pub written : t.orders ≡ write id o' s.orders

pub data Step (role : Role) (s t : Store) : Type 0 where
  kept : t.orders ≡ s.orders → t.events ≡ s.events → Step role s t
  opened :
      (id : ℕ) (o : Order)
      → find id s.orders ≡ none
      → o.status ≡ created
      → refusal id o s ≡ none
      → t.orders ≡ insert id o s.orders
      → t.events ≡ s.events
      → Step role s t
  edited :
      (id : ℕ) (o o' : Order)
      → Writes role id o o' s t
      → o'.status ≡ o.status
      → t.events ≡ s.events
      → Step role s t
  advanced :
      (id : ℕ) (o o' : Order) (e : OrderEvent)
      → Writes role id o o' s t
      → Records id o o' e
      → t.events ≡ s.events ++ (e ∷ [])
      → Step role s t
