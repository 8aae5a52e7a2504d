-- ===== src/Webhook/Receive.antt =====
-- The two routes (apps/api/src/routes/stripe-webhook.ts). Checking a signature and reading the body
-- are Stripe's library, a parameter: `none` is a signature that it rejects. The claim, the handler
-- and the mark are one transaction, so where the handler throws nothing is written.
use gundam_tcg_hub.Base.{ℕ, Bool, true, false, Option, none, some}
use gundam_tcg_hub.Webhook.State.{
  Event, EventType, another_type, AccountStatus, World, Reply, reply, broke, Hook, return, ◌>>=◌,
  ◌>>◌, claim_webhook_event, mark_webhook_processed,
}
use gundam_tcg_hub.Webhook.Handlers.{handle}
use gundam_tcg_hub.Webhook.Accounts.{V2Event, handle_v2}

pub record Request : Type 0 where
  pub signature : Option ℕ
  pub body : ℕ

pub data Response : Type 0 where
  missing_signature invalid_signature received duplicate internal_error : Response

-- `if (!claim.claimed) return true; …`
unfoldable pub handle_claimed : ℕ → Hook (Unit {0}) → Bool → Hook Bool
handle_claimed id handler false = return true
handle_claimed id handler true = do handler; mark_webhook_processed id; return false

-- The body of the transaction, which says whether the delivery was a duplicate.
unfoldable pub process : ℕ → EventType → Hook (Unit {0}) → Hook Bool
unfolding handle_claimed
process id type handler = do
  claimed ← claim_webhook_event id type
  handle_claimed id handler claimed

abbrev pub respond : World → Reply Bool → Response × World
respond w (reply true v) = (duplicate, v)
respond w (reply false v) = (received, v)
respond w (broke e) = (internal_error, w)

module _ (construct_event : ℕ → ℕ → Option Event) where
  unfoldable pub receive : Request → World → Response × World
  unfolding process
  receive request w = elim request.signature [
    | none ↦ (missing_signature, w)
    | some signature ↦ elim (construct_event request.body signature) [
      | none ↦ (invalid_signature, w)
      | some event ↦ respond w (process event.id event.event_type (handle event) w)
    ]
  ]

module _ (verify_v2_event : ℕ → ℕ → Option V2Event)
    (get_account_status : ℕ → Option AccountStatus) where
  unfoldable pub receive_v2 : Request → World → Response × World
  unfolding process
  receive_v2 request w = elim request.signature [
    | none ↦ (missing_signature, w)
    | some signature ↦ elim (verify_v2_event request.body signature) [
      | none ↦ (invalid_signature, w)
      | some event ↦
          respond w (
            process event.id (another_type event.event_type) (handle_v2 get_account_status event) w)
    ]
  ]
