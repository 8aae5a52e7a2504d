-- ===== src/Webhook/Once.antt =====
-- A delivery is acted on once (apps/api/src/routes/stripe-webhook.ts and
-- packages/db/src/queries/webhooks.ts).
use gundam_tcg_hub.Base.{
  ℕ, ◌≡◌, refl, true, false, Option, none, some, arith, Option-cases, inl, inr, ◌⊎◌, is_some, Bool,
  Bool-cases, ==_refl, ◌∙◌, sym, ap, subst,
}
use gundam_tcg_hub.Base.Table.{find, find-insert, find-write}
use gundam_tcg_hub.Webhook.State.{
  Event, EventType, World, Reply, reply, broke, Hook, bind_reply, bind_with, Delivery, processed,
  claim_webhook_event, mark_webhook_processed,
}
use gundam_tcg_hub.Webhook.Handlers.{handle}
use gundam_tcg_hub.Webhook.Effects.{Mild, OneCall, handle-Mild}
use gundam_tcg_hub.Webhook.Receive.{
  Request, Response, missing_signature, invalid_signature, received, duplicate, internal_error,
  process, respond, receive, handle_claimed,
}

-- A handler whose replies are mild.
abbrev pub IsMild : Hook (Unit {0}) → Type 0
IsMild h = (w v : World) → h w ≡ reply tt v → Mild w v

-- The delivery is in the table, and is marked as processed.
abbrev pub IsDone : ℕ → World → Type 0
IsDone id v = (d : Delivery) × (at : ℕ) × (find id v.webhooks ≡ some d) × (d.processed_at ≡ some at)

claim_seen :
    (id : ℕ) (type : EventType) (w : World)
    → is_some (find id w.webhooks) ≡ true
    → claim_webhook_event id type w ≡ reply false w
unfolding claim_webhook_event
claim_seen id type w e = rw e refl

pub claim_fresh :
    (id : ℕ) (type : EventType) (w u : World)
    → claim_webhook_event id type w ≡ reply true u
    → (u.store ≡ w.store) × (is_some (find id u.webhooks) ≡ true)
unfolding claim_webhook_event
claim_fresh id type w u e =
    let d : Delivery = record { event_type = type; processed_at = none } in
    elim (Bool-cases (is_some (find id w.webhooks))) [
      | inl p ↦ ground arith
      | inr p ↦ (ground arith, ground (arith, find-insert id id d w.webhooks, ==_refl id))
    ]

process_duplicate :
    (id : ℕ) (type : EventType) (h : Hook (Unit {0})) (w : World)
    → is_some (find id w.webhooks) ≡ true
    → process id type h w ≡ reply true w
unfolding process handle_claimed
process_duplicate id type h w e =
    bind_with (claim_webhook_event id type) (handle_claimed id h) w w false (claim_seen id type w e)

pub mark_after :
    (id : ℕ) (w v : World)
    → is_some (find id w.webhooks) ≡ true
    → mark_webhook_processed id w ≡ reply tt v
    → IsDone id v × (v.store ≡ w.store)
unfolding mark_webhook_processed
mark_after id w v e h = elim (Option-cases (find id w.webhooks)) [
  | inl n ↦ ground arith
  | inr (d, s) ↦ (
    (
      processed w.store.clock d,
      w.store.clock,
      ground (arith, find-write id id (processed w.store.clock d) w.webhooks, ==_refl id),
      refl,
    ),
    ground arith,
  )
]

finish :
    (id : ℕ) (w u x y v : World)
    → u.store ≡ w.store
    → OneCall u.store x.store
    → IsDone id y
    → y.store ≡ x.store
    → y ≡ v
    → IsDone id v × OneCall w.store v.store
finish id w u x y v a call d b e =
    subst (λ z. IsDone id z × OneCall w.store z.store) e
      (d, subst (λ s. OneCall w.store s) (sym b) (subst (λ s. OneCall s x.store) a call))

claimed_new :
    (id : ℕ) (type : EventType) (h : Hook (Unit {0})) (w u v : World)
    → IsMild h
    → (claimed : Bool) → claim_webhook_event id type w ≡ reply claimed u
    → handle_claimed id h claimed u ≡ reply false v
    → IsDone id v × OneCall w.store v.store
unfolding handle_claimed
claimed_new id type h w u v mild false first rest = absurd (ground arith)
claimed_new id type h w u v mild true first rest =
    let (_, x, handled, marked) = bind_reply h _ u false v rest in
    let (kept, call) = mild u x handled in
    let (_, y, mark, last) = bind_reply (mark_webhook_processed id) _ x false v marked in
    let (fresh, present) = claim_fresh id type w u first in
    let (is_done, same) = mark_after id x y (ap (λ t. is_some (find id t)) kept ∙ present) mark in
    finish id w u x y v fresh call is_done same (ground arith)

process_new :
    (id : ℕ) (type : EventType) (h : Hook (Unit {0})) (w v : World)
    → IsMild h
    → process id type h w ≡ reply false v
    → IsDone id v × OneCall w.store v.store
unfolding process claim_webhook_event
process_new id type h w v mild e =
    let (claimed, u, first, rest) =
      bind_reply (claim_webhook_event id type) (handle_claimed id h) w false v e in
    claimed_new id type h w u v mild claimed first rest

claim_stale :
    (id : ℕ) (type : EventType) (w u : World)
    → claim_webhook_event id type w ≡ reply false u
    → u ≡ w
unfolding claim_webhook_event
claim_stale id type w u e = elim (Bool-cases (is_some (find id w.webhooks))) [
  | inl p ↦ ground arith
  | inr p ↦ ground arith
]

claimed_stale :
    (id : ℕ) (type : EventType) (h : Hook (Unit {0})) (w u v : World) (claimed : Bool)
    → claim_webhook_event id type w ≡ reply claimed u
    → handle_claimed id h claimed u ≡ reply true v
    → v ≡ w
unfolding handle_claimed
claimed_stale id type h w u v false first rest =
    let e : u ≡ v = ground arith in sym e ∙ claim_stale id type w u first
claimed_stale id type h w u v true first rest =
    let (_, x, handled, marked) = bind_reply h _ u true v rest in
    let (_, y, mark, last) = bind_reply (mark_webhook_processed id) _ x true v marked in
    absurd (ground arith)

process_stale :
    (id : ℕ) (type : EventType) (h : Hook (Unit {0})) (w v : World)
    → process id type h w ≡ reply true v
    → v ≡ w
unfolding process claim_webhook_event
process_stale id type h w v e =
    let (claimed, u, first, rest) =
      bind_reply (claim_webhook_event id type) (handle_claimed id h) w true v e in
    claimed_stale id type h w u v claimed first rest

-- What a delivery that reached the transaction has done, by the response.
abbrev pub Settled : ℕ → World → World → Response → Type 0
Settled id w v r =
    ((r ≡ received) × IsDone id v × OneCall w.store v.store)
    ⊎ (((r ≡ duplicate) ⊎ (r ≡ internal_error)) × (v ≡ w))

pub respond-Settled :
    (id : ℕ) (type : EventType) (h : Hook (Unit {0})) (w : World)
    → IsMild h
    → (p : Reply Bool) → process id type h w ≡ p
    → Settled id w ((respond w p).1) ((respond w p).0)
respond-Settled id type h w mild (reply true v) e = inr (inl refl, process_stale id type h w v e)
respond-Settled id type h w mild (reply false v) e =
    let (d, c) = process_new id type h w v mild e in inl (refl, d, c)
respond-Settled id type h w mild (broke f) e = inr (inr refl, refl)

module _ (construct_event : ℕ → ℕ → Option Event) where
  pub receive_event :
      (request : Request) (w : World) (e : Event) (signature : ℕ)
      → request.signature ≡ some signature
      → construct_event request.body signature ≡ some e
      → receive construct_event request w ≡ respond w (process e.id e.event_type (handle e) w)
  unfolding receive
  receive_event request w e signature s c = ground arith

  receive_unsigned :
      (request : Request) (w : World)
      → request.signature ≡ none
      → receive construct_event request w ≡ (missing_signature, w)
  unfolding receive
  receive_unsigned request w n = rw n refl

  receive_forged :
      (request : Request) (w : World) (signature : ℕ)
      → request.signature ≡ some signature
      → construct_event request.body signature ≡ none
      → receive construct_event request w ≡ (invalid_signature, w)
  unfolding receive
  receive_forged request w signature s n = ground arith

  -- A request that carries no accepted signature writes nothing. Any other carries an event, and either
  -- it is received: the event is then marked as processed, and the orders are as they were or as one of
  -- their queries leaves them; or it is a duplicate or its handler fails, and nothing is written.
  pub receive_cases :
      (request : Request) (w v : World) (r : Response)
      → receive construct_event request w ≡ (r, v)
      → (((r ≡ missing_signature) ⊎ (r ≡ invalid_signature)) × (v ≡ w))
        ⊎ ((e : Event) × (signature : ℕ) × (request.signature ≡ some signature)
            × (construct_event request.body signature ≡ some e)
            × Settled e.id w v r)
  receive_cases request w v r h = elim (Option-cases request.signature) [
    | inl n ↦
        let e = sym (receive_unsigned request w n) ∙ h in
        inl (inl (sym (ap (λ p. p.0) e)), sym (ap (λ p. p.1) e))
    | inr (signature, s) ↦ elim (Option-cases (construct_event request.body signature)) [
      | inl n ↦
          let e = sym (receive_forged request w signature s n) ∙ h in
          inl (inr (sym (ap (λ p. p.0) e)), sym (ap (λ p. p.1) e))
      | inr (e, c) ↦ inr (
        e,
        signature,
        s,
        c,
        subst (λ p. Settled e.id w p.1 p.0) (sym (receive_event request w e signature s c) ∙ h)
            (respond-Settled e.id e.event_type (handle e) w (handle-Mild e)
              (process e.id e.event_type (handle e) w) refl),
      )
    ]
  ]

  -- Once a delivery was received, any request that carries an event with the same identifier is a
  -- duplicate and writes nothing.
  pub receive_twice :
      (request again : Request) (w v : World) (e f : Event) (signature other : ℕ)
      → request.signature ≡ some signature
      → construct_event request.body signature ≡ some e
      → again.signature ≡ some other
      → construct_event again.body other ≡ some f
      → f.id ≡ e.id
      → receive construct_event request w ≡ (received, v)
      → receive construct_event again v ≡ (duplicate, v)
  receive_twice request again w v e f signature other a b c d same r =
      let settled : Settled e.id w v received =
        subst (λ p. Settled e.id w p.1 p.0) (sym (receive_event request w e signature a b) ∙ r)
          (respond-Settled e.id e.event_type (handle e) w (handle-Mild e)
            (process e.id e.event_type (handle e) w) refl) in
      let seen : is_some (find f.id v.webhooks) ≡ true = ground arith in
      receive_event again v f other c d
      ∙ ap (respond v) (process_duplicate f.id f.event_type (handle f) v seen)
