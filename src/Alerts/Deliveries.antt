-- ===== src/Alerts/Deliveries.antt =====
-- The deliveries of an alert and the statements on them (packages/db/src/queries/ingest.ts and
-- packages/db/src/schema/ingest.ts). The last error and the time of sending are only
-- stored, and are left out.
use gundam_tcg_hub.Base.{
  ℕ, ◌+◌, ◌*◌, Bool, true, false, ◌&&◌, ltb, leb, if◌then◌else◌, List, [], ◌∷◌, ◌++◌, take, Option,
  none, some,
}
use gundam_tcg_hub.Base.Table.{Table, find, write}

pub data Channel : Type 0 where
  email discord_dm discord_webhook web_push : Channel

pub data DeliveryStatus : Type 0 where
  pending sent failed skipped : DeliveryStatus

pub record Delivery : Type 0 where
  pub event_id : ℕ
  pub subscription_id : ℕ
  pub channel : Channel
  pub status : DeliveryStatus
  pub attempts : ℕ
  pub created_at : ℕ

pub record RestockEvent : Type 0 where
  pub retailer_product_id : ℕ
  pub price_cents : Option ℕ
  pub currency : ℕ
  pub detected_at : ℕ

pub record AlertStore : Type 0 where
  pub deliveries : Table Delivery
  pub events : Table RestockEvent
  pub clock : ℕ

abbrev pub is_pending : DeliveryStatus → Bool
is_pending pending = true
is_pending _ = false

-- An UPDATE of one delivery by its key.
unfoldable pub change : ℕ → (Delivery → Delivery) → AlertStore → AlertStore
change id f s = elim (find id s.deliveries) [
  | none ↦ s
  | some d ↦ record s { deliveries = write id (f d) s.deliveries }
]

abbrev pub as_sent : Delivery → Delivery
as_sent d = record d { status = sent; attempts = d.attempts + 1 }

abbrev pub as_failed : DeliveryStatus → Delivery → Delivery
as_failed status d = record d { status = status; attempts = d.attempts + 1 }

abbrev pub as_abandoned : Delivery → Delivery
as_abandoned d = record d { status = failed }

unfoldable pub mark_delivery_sent : ℕ → AlertStore → AlertStore
mark_delivery_sent id s = change id as_sent s

unfoldable pub mark_delivery_failed : ℕ → DeliveryStatus → AlertStore → AlertStore
mark_delivery_failed id status s = change id (as_failed status) s

unfoldable pub abandon_delivery : ℕ → AlertStore → AlertStore
abandon_delivery id s = change id as_abandoned s

pub record RetryOptions : Type 0 where
  pub max_attempts : ℕ
  pub stale_after_seconds : ℕ
  pub event_within_hours : ℕ
  pub row_limit : ℕ

abbrev pub default_options : RetryOptions
default_options = record {
  max_attempts = 5;
  stale_after_seconds = 120;
  event_within_hours = 24;
  row_limit = 200;
}

-- A row of the claim: the delivery with its key, and its event.
pub record Owed : Type 0 where
  pub id : ℕ
  pub delivery : Delivery
  pub event : RestockEvent

-- The WHERE of the claim.
unfoldable pub is_owed : RetryOptions → ℕ → Delivery → RestockEvent → Bool
is_owed o clock d e =
    is_pending d.status
    && (ltb d.attempts o.max_attempts
        && (ltb (d.created_at + o.stale_after_seconds * 1000) clock
            && ltb clock (e.detected_at + o.event_within_hours * 3600000)))

abbrev pub joined : RetryOptions → AlertStore → ℕ → Delivery → Option RestockEvent → List Owed
joined o s id d none = []
joined o s id d (some e) =
    if is_owed o s.clock d e then record { id = id; delivery = d; event = e } ∷ [] else []

unfoldable pub owed_rows : RetryOptions → AlertStore → Table Delivery → List Owed
owed_rows o s [] = []
owed_rows o s ((id, d) ∷ t) = joined o s id d (find d.event_id s.events) ++ owed_rows o s t

unfoldable pub place : Owed → List Owed → List Owed
place a [] = a ∷ []
place a (b ∷ rest) =
    let later = place a rest in
    if leb a.delivery.created_at b.delivery.created_at then a ∷ b ∷ rest else b ∷ later

-- `order by d.created_at`
unfoldable pub by_age : List Owed → List Owed
by_age [] = []
by_age (a ∷ rest) = place a (by_age rest)

-- One run alone: no row is locked by another.
unfoldable pub claim_retryable_deliveries : RetryOptions → AlertStore → List Owed
claim_retryable_deliveries o s = take o.row_limit (by_age (owed_rows o s s.deliveries))
