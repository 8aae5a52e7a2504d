-- ===== src/Alerts/Retry.antt =====
-- Sending the alerts that are still owed (`retryOwedDeliveries` in packages/alerts/src/retry.ts). The message of an event, the
-- watchers of a product and the transports are parameters; what a transport answers may depend on all that it is given.
use gundam_tcg_hub.Base.{
  ℕ, ◌+◌, Bool, true, false, ◌&&◌, not, ltb, if◌then◌else◌, List, [], ◌∷◌, ◌++◌, length, Option,
  none, some,
}
use gundam_tcg_hub.Base.Table.{Table, find, insert}
use gundam_tcg_hub.Alerts.Deliveries.{
  Channel, pending, failed, RestockEvent, AlertStore, RetryOptions, Owed, mark_delivery_sent,
  mark_delivery_failed, abandon_delivery, claim_retryable_deliveries,
}

-- What `send` gives.
pub data SendOutcome : Type 0 where
  ok : SendOutcome
  skipped : SendOutcome
  failure : Bool → SendOutcome

-- A message and a recipient are numbers.
abbrev pub Transport : Type 0
Transport = ℕ → ℕ → ℕ → SendOutcome

pub record RetryDeps : Type 0 where
  pub build_message : ℕ → Option ℕ → ℕ → ℕ → Option ℕ
  pub find_target : ℕ → ℕ → Option ℕ
  pub transports : Channel → Option Transport

pub record RetryResult : Type 0 where
  pub considered : ℕ
  pub sent_count : ℕ
  pub still_owed : ℕ
  pub abandoned : ℕ
  pub switched_off : Bool

-- What was handed to a transport.
pub record Handed : Type 0 where
  pub delivery_id : ℕ
  pub message : ℕ
  pub target : ℕ

-- The variables of the loop, with what it has sent. The targets are looked up again instead of being kept: the run does
-- not change the watches.
pub record RetryRun : Type 0 where
  pub store : AlertStore
  pub messages : Table (Option ℕ)
  pub result : RetryResult
  pub handed : List Handed

abbrev pub message_of : RetryDeps → RestockEvent → Option ℕ
message_of d e = d.build_message e.retailer_product_id e.price_cents e.currency e.detected_at

-- `if (!messages.has(key)) messages.set(key, await buildMessage(…))`
unfoldable pub with_message :
    RetryDeps → RestockEvent → Table (Option ℕ) → Option ℕ × Table (Option ℕ)
with_message d e messages = elim (find e.retailer_product_id messages) [
  | some m ↦ (m, messages)
  | none ↦ (message_of d e, insert e.retailer_product_id (message_of d e) messages)
]

abbrev pub abandon : ℕ → RetryRun → RetryRun
abandon id r = record r {
  store = abandon_delivery id r.store;
  result = record r.result { abandoned = r.result.abandoned + 1 };
}

abbrev pub fail_again : ℕ → RetryRun → RetryRun
fail_again id r = record r {
  store = mark_delivery_failed id pending r.store;
  result = record r.result { still_owed = r.result.still_owed + 1 };
}

abbrev pub fail_for_good : ℕ → RetryRun → RetryRun
fail_for_good id r = record r {
  store = mark_delivery_failed id failed r.store;
  result = record r.result { abandoned = r.result.abandoned + 1 };
}

abbrev pub count_sent : ℕ → RetryRun → RetryRun
count_sent id r = record r {
  store = mark_delivery_sent id r.store;
  result = record r.result { sent_count = r.result.sent_count + 1 };
}

-- After the transport has answered.
unfoldable pub answered : ℕ → Owed → SendOutcome → RetryRun → RetryRun
answered max_attempts o ok r = count_sent o.id r
answered max_attempts o skipped r = fail_for_good o.id r
answered max_attempts o (failure retryable) r =
    if retryable && ltb (o.delivery.attempts + 1) max_attempts
    then fail_again o.id r
    else fail_for_good o.id r

-- `if (!message || !target || !transport)`, then `send`.
unfoldable pub attempt : ℕ → Owed → Option ℕ → Option ℕ → Option Transport → RetryRun → RetryRun
unfolding answered
attempt max_attempts o (some m) (some t) (some send) r =
    answered max_attempts o (send m t o.delivery.subscription_id) (record r {
      handed = r.handed ++ (record { delivery_id = o.id; message = m; target = t } ∷ []);
    })
attempt max_attempts o _ _ _ r = abandon o.id r

unfoldable pub retry_one : RetryDeps → ℕ → Owed → RetryRun → RetryRun
unfolding attempt with_message
retry_one d max_attempts o r =
    let m = with_message d o.event r.messages in
    attempt max_attempts o m.0
      (d.find_target o.event.retailer_product_id o.delivery.subscription_id)
      (d.transports o.delivery.channel) (record r { messages = m.1 })

unfoldable pub retry_each : RetryDeps → ℕ → List Owed → RetryRun → RetryRun
unfolding retry_one
retry_each d max_attempts [] r = r
retry_each d max_attempts (o ∷ os) r = retry_each d max_attempts os (retry_one d max_attempts o r)

abbrev pub started : List Owed → AlertStore → RetryRun
started owed s = record {
  store = s;
  messages = [];
  result = record {
    considered = length owed;
    sent_count = 0;
    still_owed = 0;
    abandoned = 0;
    switched_off = false;
  };
  handed = [];
}

abbrev pub nothing_done : AlertStore → RetryRun
nothing_done s = record {
  store = s;
  messages = [];
  result = record {
    considered = 0;
    sent_count = 0;
    still_owed = 0;
    abandoned = 0;
    switched_off = true;
  };
  handed = [];
}

-- The kill switch is read before anything is claimed.
unfoldable pub retry_owed_deliveries : RetryDeps → RetryOptions → Bool → AlertStore → RetryRun
unfolding retry_each
retry_owed_deliveries d o sending_enabled s =
    if not sending_enabled
    then nothing_done s
    else let owed = claim_retryable_deliveries o s in
      retry_each d o.max_attempts owed (started owed s)
