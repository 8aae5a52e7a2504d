-- ===== src/Alerts/Tests.antt =====
-- A dispatch and a retry, and the theorems about them at concrete inputs.
use gundam_tcg_hub.Base.{ℕ, ◌≡◌, refl, true, List, [], ◌∷◌, All, Option, none, some}
use gundam_tcg_hub.Base.Table.{find, insert, write, any_row}
use gundam_tcg_hub.Alerts.Deliveries.{
  Channel, email, discord_dm, pending, RestockEvent, AlertStore, default_options, Owed,
  claim_retryable_deliveries, change, mark_delivery_sent, mark_delivery_failed,
}
use gundam_tcg_hub.Alerts.Retry.{
  ok, failure, Transport, RetryDeps, retry_each, started, retry_owed_deliveries,
}
use gundam_tcg_hub.Alerts.Settled.{IsSettled, retry_owed_deliveries-settles}
use gundam_tcg_hub.Alerts.Messages.{second_event_told_as_first}
use gundam_tcg_hub.Alerts.Dispatch.{
  FanOutTarget, Slot, counted, dispatch_restock_event, claim_deliveries, has_slot, slots_of,
  deliver_each, deliver, dispatched, target_of,
}
use gundam_tcg_hub.Alerts.Once.{dispatch_twice}

abbrev restock : ℕ → RestockEvent
restock at = record {
  retailer_product_id = 7;
  price_cents = some 4999;
  currency = 840;
  detected_at = at;
}

abbrev empty : AlertStore
empty = record {
  deliveries = [];
  events = (1, restock 9000000) ∷ (2, restock 9500000) ∷ [];
  clock = 9600000;
}

-- Mail is refused for now, and a message to Discord is taken.
abbrev busy : Transport
busy message target subscription = failure true

abbrev taken : Transport
taken message target subscription = ok

abbrev transports : Channel → Option Transport
transports email = some busy
transports discord_dm = some taken
transports other = none

abbrev watchers : List FanOutTarget
watchers = record { subscription_id = 31; recipient = 5; channels = email ∷ discord_dm ∷ [] } ∷ []

abbrev draw : Slot → ℕ
draw x = elim x.channel [ email ↦ 101 | _ ↦ 102 ]

-- The message tells the time of the event.
abbrev deps : RetryDeps
deps = record {
  build_message = λ product price currency at. some at;
  find_target = λ product subscription. some 5;
  transports = transports;
}

abbrev told_once : AlertStore
told_once = (dispatch_restock_event transports watchers draw 1 9000000 empty).store

-- Ten minutes later.
abbrev later : AlertStore
later = record told_once { clock = 10200000 }

mail_is_owed :
    find 101 told_once.deliveries
    ≡ some (record {
      event_id = 1;
      subscription_id = 31;
      channel = email;
      status = pending;
      attempts = 1;
      created_at = 9600000;
    })
unfolding dispatch_restock_event claim_deliveries has_slot slots_of deliver_each deliver dispatched
    target_of change mark_delivery_sent mark_delivery_failed find insert write any_row
mail_is_owed = refl

dispatch_twice_example :
    let t = (dispatch_restock_event transports watchers draw 1 9000000 empty).store in
    dispatch_restock_event transports watchers draw 1 3 t ≡ counted 0 t
dispatch_twice_example = dispatch_twice transports transports watchers draw draw 1 9000000 3 empty

retry_owed_deliveries-settles_example :
    All
      (IsSettled default_options.max_attempts
        (retry_owed_deliveries deps default_options true later).store)
      (claim_retryable_deliveries default_options later)
unfolding dispatch_restock_event claim_deliveries has_slot slots_of deliver_each deliver dispatched
    target_of change mark_delivery_sent mark_delivery_failed find insert write any_row
retry_owed_deliveries-settles_example =
    retry_owed_deliveries-settles deps default_options later (refl, (refl, tt))

abbrev owed : ℕ → ℕ → ℕ → Owed
owed id event at = record {
  id = id;
  delivery = record {
    event_id = event;
    subscription_id = 31;
    channel = discord_dm;
    status = pending;
    attempts = 0;
    created_at = at;
  };
  event = restock at;
}

second_event_told_as_first_example :
    (retry_each deps 5
      (owed 201 1 9000000 ∷ owed 202 2 9500000 ∷ [])
      (started (owed 201 1 9000000 ∷ owed 202 2 9500000 ∷ []) empty)).handed
    ≡ record { delivery_id = 201; message = 9000000; target = 5 }
      ∷ record { delivery_id = 202; message = 9000000; target = 5 }
      ∷ []
second_event_told_as_first_example =
    second_event_told_as_first deps 5 (owed 201 1 9000000) (owed 202 2 9500000) empty 9000000 5 5
      taken taken refl refl refl refl refl refl
