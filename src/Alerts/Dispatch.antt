-- ===== src/Alerts/Dispatch.antt =====
-- Telling every watcher of a restock (`dispatchRestockEvent` in packages/alerts/src/dispatcher.ts and `claimDeliveries` in
-- packages/db/src/queries/ingest.ts). The key that a new delivery gets is drawn, and is an argument.
use gundam_tcg_hub.Base.{
  ℕ, ◌+◌, Bool, true, false, ◌&&◌, ◌==◌, if◌then◌else◌, List, [], ◌∷◌, ◌++◌, length, map, Option,
  none, some,
}
use gundam_tcg_hub.Base.Table.{insert, any_row}
use gundam_tcg_hub.Alerts.Deliveries.{
  Channel, email, discord_dm, discord_webhook, web_push, DeliveryStatus, pending, failed, Delivery,
  AlertStore, mark_delivery_sent, mark_delivery_failed,
}
use gundam_tcg_hub.Alerts.Retry.{SendOutcome, ok, failure, Transport, Handed}

pub record FanOutTarget : Type 0 where
  pub subscription_id : ℕ
  pub recipient : ℕ
  pub channels : List Channel

pub record Slot : Type 0 where
  pub subscription_id : ℕ
  pub channel : Channel

abbrev pub channel_code : Channel → ℕ
channel_code email = 0
channel_code discord_dm = 1
channel_code discord_webhook = 2
channel_code web_push = 3

abbrev pub channel_slots : ℕ → List Channel → List Slot
channel_slots id channels = map (λ c. record { subscription_id = id; channel = c }) channels

unfoldable pub slots_of : List FanOutTarget → List Slot
slots_of [] = []
slots_of (t ∷ ts) = channel_slots t.subscription_id t.channels ++ slots_of ts

abbrev pub in_slot : ℕ → Slot → Delivery → Bool
in_slot event_id x d =
    (d.event_id == event_id)
    && ((d.subscription_id == x.subscription_id)
        && (channel_code d.channel == channel_code x.channel))

-- The unique index `alert_deliveries_event_subscription_channel_key`.
unfoldable pub has_slot : ℕ → Slot → AlertStore → Bool
has_slot event_id x s = any_row (λ (k : ℕ) (d : Delivery). in_slot event_id x d) s.deliveries

abbrev pub new_delivery : ℕ → Slot → ℕ → Delivery
new_delivery event_id x at = record {
  event_id = event_id;
  subscription_id = x.subscription_id;
  channel = x.channel;
  status = pending;
  attempts = 0;
  created_at = at;
}

abbrev pub with_row : ℕ → Delivery → AlertStore → AlertStore
with_row id d s = record s { deliveries = insert id d s.deliveries }

-- `insert(…).values(rows).onConflictDoNothing().returning()`
unfoldable pub claim_deliveries :
    (Slot → ℕ) → ℕ → List Slot → AlertStore → List (ℕ × Delivery) × AlertStore
claim_deliveries draw event_id [] s = ([], s)
claim_deliveries draw event_id (x ∷ xs) s = elim (has_slot event_id x s) [
  | true ↦ claim_deliveries draw event_id xs s
  | false ↦
      let d = new_delivery event_id x s.clock in
      let rest = claim_deliveries draw event_id xs (with_row (draw x) d s) in
      ((draw x, d) ∷ rest.0, rest.1)
]

pub record DispatchResult : Type 0 where
  pub claimed : ℕ
  pub sent_count : ℕ
  pub failed_count : ℕ
  pub skipped_count : ℕ
  pub retryable : ℕ

pub record DispatchRun : Type 0 where
  pub store : AlertStore
  pub result : DispatchResult
  pub handed : List Handed

-- `new Map(targets.map((t) => [t.subscriptionId, t])).get(id)`: of two with one key the later counts.
unfoldable pub target_of : List FanOutTarget → ℕ → Option FanOutTarget
target_of [] id = none
target_of (t ∷ ts) id = elim (target_of ts id) [
  | some u ↦ some u
  | none ↦ if t.subscription_id == id then some t else none
]

abbrev pub skip : ℕ → DispatchRun → DispatchRun
skip id r = record r {
  store = mark_delivery_failed id DeliveryStatus.skipped r.store;
  result = record r.result { skipped_count = r.result.skipped_count + 1 };
}

-- After the transport has answered.
unfoldable pub dispatched : ℕ → SendOutcome → DispatchRun → DispatchRun
dispatched id ok r = record r {
  store = mark_delivery_sent id r.store;
  result = record r.result { sent_count = r.result.sent_count + 1 };
}
dispatched id SendOutcome.skipped r = skip id r
dispatched id (failure true) r = record r {
  store = mark_delivery_failed id pending r.store;
  result = record r.result {
    failed_count = r.result.failed_count + 1;
    retryable = r.result.retryable + 1;
  };
}
dispatched id (failure false) r = record r {
  store = mark_delivery_failed id failed r.store;
  result = record r.result { failed_count = r.result.failed_count + 1 };
}

unfoldable pub deliver :
    ℕ → ℕ → Delivery → Option FanOutTarget → Option Transport → DispatchRun → DispatchRun
unfolding dispatched
deliver message id d (some t) (some send) r =
    dispatched id (send message t.recipient d.subscription_id) (record r {
      handed =
          r.handed ++ (record { delivery_id = id; message = message; target = t.recipient } ∷ []);
    })
deliver message id d _ _ r = skip id r

unfoldable pub deliver_each :
    (Channel → Option Transport)
    → List FanOutTarget
    → ℕ
    → List (ℕ × Delivery)
    → DispatchRun
    → DispatchRun
unfolding deliver
deliver_each transports targets message [] r = r
deliver_each transports targets message ((id, d) ∷ claimed) r =
    deliver_each transports targets message claimed
      (deliver message id d (target_of targets d.subscription_id) (transports d.channel) r)

abbrev pub counted : ℕ → AlertStore → DispatchRun
counted n s = record {
  store = s;
  result = record {
    claimed = n;
    sent_count = 0;
    failed_count = 0;
    skipped_count = 0;
    retryable = 0;
  };
  handed = [];
}

unfoldable pub dispatch_restock_event :
    (Channel → Option Transport) → List FanOutTarget → (Slot → ℕ) → ℕ → ℕ → AlertStore → DispatchRun
unfolding claim_deliveries deliver_each slots_of
dispatch_restock_event transports targets draw event_id message s =
    let claim = claim_deliveries draw event_id (slots_of targets) s in
    deliver_each transports targets message claim.0 (counted (length claim.0) claim.1)
