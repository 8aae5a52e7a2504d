-- ===== src/Webhook/State.antt =====
-- What a webhook reads and writes (apps/api/src/routes/stripe-webhook.ts, with the tables of
-- packages/db/src/schema/market.ts): the orders, the deliveries seen, the sellers' accounts and the
-- audit log. Log lines are left out. A text that Stripe sends is its number and its length, an
-- identifier the number alone. Texts 0 and 1 are the two fixed reasons, and the text 2 + n is
-- `chargeback:` before the text n.
use gundam_tcg_hub.Base.{
  ℕ, ◌≡◌, refl, ap, arith, Bool, true, false, Option, none, some, List, [], ◌∷◌, ◌++◌, is_some,
  if◌then◌else◌,
}
use gundam_tcg_hub.Base.Table.{Table, find, insert, write}
use gundam_tcg_hub.Order.{OrderStatus, OrderActor, Reason}
use gundam_tcg_hub.Orders.Schema.{Store, Text}
use gundam_tcg_hub.Orders.Db.{Error, Db, Result, ok, err, illegal_transition}

-- A field of Stripe's JSON: an expanded object is one that has an `id`. Amounts are whole and not
-- negative, so any other number is `other`.
pub data Value : Type 0 where
  absent other : Value
  text : Text → Value
  number : ℕ → Value
  expanded : ℕ → Value

pub data EventType : Type 0 where
  checkout_session_completed charge_refunded charge_dispute_created : EventType
  another_type : ℕ → EventType

-- The fields of `event.data.object` that a handler looks at.
pub record Payload : Type 0 where
  pub session_id : Value
  pub payment_intent : Value
  pub is_paid : Bool
  pub order_id : Value
  pub amount_tax : Value
  pub amount : Value
  pub amount_refunded : Value
  pub reason : Value

pub record Event : Type 0 where
  pub id : ℕ
  pub event_type : EventType
  pub payload : Payload

-- A row of `webhook_events`: its key is the event's identifier at the provider `stripe`.
pub record Delivery : Type 0 where
  pub event_type : EventType
  pub processed_at : Option ℕ

-- The capabilities of an account at Stripe.
pub data Capability : Type 0 where
  active pending restricted unsupported : Capability

pub record AccountStatus : Type 0 where
  pub transfers : Capability
  pub payouts : Capability

pub record SellerAccount : Type 0 where
  pub charges_enabled : Bool
  pub payouts_enabled : Bool
  pub updated_at : ℕ

-- The entries that a webhook writes to the audit log, by their `action`.
pub data Audit : Type 0 where
  order_paid : ℕ → ℕ → ℕ → Audit
  payment_refused : ℕ → OrderStatus → OrderStatus → Reason → Audit
  order_refunded : ℕ → ℕ → Audit
  refund_refused : ℕ → OrderStatus → Reason → Audit
  order_chargeback : ℕ → Text → Audit
  seller_enabled seller_disabled : ℕ → AccountStatus → Audit

pub record World : Type 0 where
  pub store : Store
  pub webhooks : Table Delivery
  pub accounts : Table SellerAccount
  pub audit : List Audit

-- Why a handler throws: a query does, or Stripe does not answer.
pub data Failure : Type 0 where
  query : Error → Failure
  unreachable : Failure

pub data Reply (A : Type 0) : Type 0 where
  reply : A → World → Reply A
  broke : Failure → Reply A

abbrev pub Hook : Type 0 → Type 0
Hook A = World → Reply A

abbrev pub return : {A : Type 0} → A → Hook A
return a w = reply a w

infixl 5 ◌>>=◌ ◌>>◌
abbrev pub ◌>>=◌ : {A B : Type 0} → Hook A → (A → Hook B) → Hook B
◌>>=◌ m f w = elim (m w) [ reply a v ↦ f a v | broke e ↦ broke e ]

abbrev pub ◌>>◌ : {A B : Type 0} → Hook A → Hook B → Hook B
m >> k = m >>= λ _. k

-- A query in a `try` whose `catch` keeps an `IllegalTransitionError` and throws anything else again.
-- The query's own transaction is a savepoint of the webhook's, so what it wrote is gone.
pub data Attempt (A : Type 0) : Type 0 where
  done : A → Attempt A
  stopped : OrderStatus → OrderStatus → OrderActor → Reason → Attempt A

abbrev pub caught : {A : Type 0} → World → Result (A × Store) → Reply (Attempt A)
caught w (ok (a, s)) = reply (done a) (record w { store = s })
caught w (err (illegal_transition from to actor reason)) = reply (stopped from to actor reason) w
caught w (err e) = broke (query e)

unfoldable pub attempt : {A : Type 0} → Db A → Hook (Attempt A)
attempt m w = caught w (m w.store)

unfoldable pub write_audit_log : Audit → Hook (Unit {0})
write_audit_log entry w = reply tt (record w { audit = w.audit ++ (entry ∷ []) })

-- `insert … on conflict do nothing`: true where the row is new.
unfoldable pub claim_webhook_event : ℕ → EventType → Hook Bool
claim_webhook_event id type w =
    if is_some (find id w.webhooks)
    then reply false w
    else reply true (record w {
      webhooks = insert id (record { event_type = type; processed_at = none }) w.webhooks;
    })

abbrev pub processed : ℕ → Delivery → Delivery
processed at d = record d { processed_at = some at }

unfoldable pub mark_webhook_processed : ℕ → Hook (Unit {0})
mark_webhook_processed id w = elim (find id w.webhooks) [
  | none ↦ reply tt w
  | some d ↦ reply tt (record w { webhooks = write id (processed w.store.clock d) w.webhooks })
]

Reply-cases :
    {A B : Type 0} (r : Reply A) (f : A → Hook B) (b : B) (v : World)
    → elim r [ reply a u ↦ f a u | broke e ↦ broke e ] ≡ reply b v
    → (a : A) × (u : World) × (r ≡ reply a u) × (f a u ≡ reply b v)
Reply-cases (reply a u) f b v h = (a, u, refl, h)
Reply-cases (broke e) f b v h = absurd (ground arith)

-- A chain that replies is made of two parts that reply.
pub bind_reply :
    {A B : Type 0} (m : Hook A) (f : A → Hook B) (w : World) (b : B) (v : World)
    → (m >>= f) w ≡ reply b v
    → (a : A) × (u : World) × (m w ≡ reply a u) × (f a u ≡ reply b v)
bind_reply m f w b v h = Reply-cases (m w) f b v h

-- What the first part of a chain replies is what the second part gets.
pub bind_with :
    {A B : Type 0} (m : Hook A) (f : A → Hook B) (w u : World) (a : A)
    → m w ≡ reply a u
    → (m >>= f) w ≡ f a u
bind_with m f w u a h = ap (λ r. elim r [ reply b x ↦ f b x | broke e ↦ broke e ]) h
