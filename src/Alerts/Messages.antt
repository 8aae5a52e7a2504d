-- ===== src/Alerts/Messages.antt =====
-- Which message a delivery is sent with, and what a run counts (packages/alerts/src/retry.ts).
use gundam_tcg_hub.Base.{
  ℕ, ◌+◌, ◌≡◌, refl, Bool, true, false, ◌&&◌, ltb, List, [], ◌∷◌, ◌++◌, length, Option, none, some,
  arith, Bool-cases, inl, inr, ap, ◌∙◌, ==_refl,
}
use gundam_tcg_hub.Base.Table.{Table, find, insert}
use gundam_tcg_hub.Alerts.Deliveries.{AlertStore, Owed, RetryOptions, claim_retryable_deliveries}
use gundam_tcg_hub.Alerts.Retry.{
  SendOutcome, ok, skipped, failure, Transport, RetryDeps, RetryResult, RetryRun, message_of,
  with_message, answered, attempt, retry_one, retry_each, started, retry_owed_deliveries,
}

abbrev pub told : RetryResult → ℕ
told c = c.sent_count + c.still_owed + c.abandoned

answered-counts :
    (max_attempts : ℕ) (o : Owed) (a : SendOutcome) (r : RetryRun)
    → (told (answered max_attempts o a r).result ≡ told r.result + 1)
      × ((answered max_attempts o a r).result.considered ≡ r.result.considered)
unfolding answered
answered-counts max_attempts o ok r = (omega arith, refl)
answered-counts max_attempts o skipped r = (omega arith, refl)
answered-counts max_attempts o (failure retryable) r =
    elim (Bool-cases (retryable && ltb (o.delivery.attempts + 1) max_attempts)) [
      | inl h ↦ rw h (omega arith, refl)
      | inr h ↦ rw h (omega arith, refl)
    ]

attempt-counts :
    (max_attempts : ℕ) (o : Owed) (m t : Option ℕ) (send : Option Transport) (r : RetryRun)
    → (told (attempt max_attempts o m t send r).result ≡ told r.result + 1)
      × ((attempt max_attempts o m t send r).result.considered ≡ r.result.considered)
unfolding attempt
attempt-counts max_attempts o (some m) (some t) (some send) r =
    answered-counts max_attempts o (send m t o.delivery.subscription_id) _
attempt-counts max_attempts o none t send r = (omega arith, refl)
attempt-counts max_attempts o (some m) none send r = (omega arith, refl)
attempt-counts max_attempts o (some m) (some t) none r = (omega arith, refl)

retry_each-counts :
    (d : RetryDeps) (max_attempts : ℕ) (os : List Owed) (r : RetryRun)
    → (told (retry_each d max_attempts os r).result ≡ told r.result + length os)
      × ((retry_each d max_attempts os r).result.considered ≡ r.result.considered)
unfolding retry_each retry_one
retry_each-counts d max_attempts [] r = (omega arith, refl)
retry_each-counts d max_attempts (o ∷ os) r =
    let (one, same) =
      attempt-counts max_attempts o (with_message d o.event r.messages).0
        (d.find_target o.event.retailer_product_id o.delivery.subscription_id)
        (d.transports o.delivery.channel)
        (record r { messages = (with_message d o.event r.messages).1 }) in
    let (all, kept) = retry_each-counts d max_attempts os (retry_one d max_attempts o r) in
    (omega arith, kept ∙ same)

-- Each delivery that a run claims is counted as sent, as still owed or as abandoned, and as one of them only.
pub every_claim_counted :
    (d : RetryDeps) (o : RetryOptions) (sending_enabled : Bool) (s : AlertStore)
    → told (retry_owed_deliveries d o sending_enabled s).result
      ≡ (retry_owed_deliveries d o sending_enabled s).result.considered
unfolding retry_owed_deliveries
every_claim_counted d o false s = refl
every_claim_counted d o true s =
    let owed = claim_retryable_deliveries o s in
    let (all, kept) = retry_each-counts d o.max_attempts owed (started owed s) in omega arith

answered-keeps :
    (max_attempts : ℕ) (o : Owed) (a : SendOutcome) (r : RetryRun)
    → ((answered max_attempts o a r).handed ≡ r.handed)
      × ((answered max_attempts o a r).messages ≡ r.messages)
unfolding answered
answered-keeps max_attempts o ok r = (refl, refl)
answered-keeps max_attempts o skipped r = (refl, refl)
answered-keeps max_attempts o (failure retryable) r =
    elim (Bool-cases (retryable && ltb (o.delivery.attempts + 1) max_attempts)) [
      | inl h ↦ rw h (refl, refl)
      | inr h ↦ rw h (refl, refl)
    ]

-- A round that has a message, a watcher and a transport hands the message over.
retry_one-sends :
    (d : RetryDeps) (max_attempts : ℕ) (o : Owed) (r : RetryRun) (m : ℕ)
    (messages : Table (Option ℕ)) (t : ℕ) (send : Transport)
    → with_message d o.event r.messages ≡ (some m, messages)
    → d.find_target o.event.retailer_product_id o.delivery.subscription_id ≡ some t
    → d.transports o.delivery.channel ≡ some send
    → ((retry_one d max_attempts o r).handed
        ≡ r.handed ++ (record { delivery_id = o.id; message = m; target = t } ∷ []))
      × ((retry_one d max_attempts o r).messages ≡ messages)
unfolding retry_one attempt
retry_one-sends d max_attempts o r m messages t send w f a =
    rw (retry_one, w, f, a, attempt)
      (answered-keeps max_attempts o (send m t o.delivery.subscription_id) _)

-- Where two deliveries of one product are owed, for whatever events, and both can be sent, the second is sent with the
-- message of the first one's event: its own price and its own time are never asked for.
pub second_event_told_as_first :
    (d : RetryDeps) (max_attempts : ℕ) (o p : Owed) (s : AlertStore) (m t u : ℕ)
    (send again : Transport)
    → message_of d o.event ≡ some m
    → p.event.retailer_product_id ≡ o.event.retailer_product_id
    → d.find_target o.event.retailer_product_id o.delivery.subscription_id ≡ some t
    → d.find_target o.event.retailer_product_id p.delivery.subscription_id ≡ some u
    → d.transports o.delivery.channel ≡ some send
    → d.transports p.delivery.channel ≡ some again
    → (retry_each d max_attempts (o ∷ p ∷ []) (started (o ∷ p ∷ []) s)).handed
      ≡ record { delivery_id = o.id; message = m; target = t }
        ∷ record { delivery_id = p.id; message = m; target = u }
        ∷ []
unfolding retry_each with_message find insert
second_event_told_as_first d max_attempts o p s m t u send again e product ft fu so sp =
    let key = o.event.retailer_product_id in
    let kept : Table (Option ℕ) = (key, some m) ∷ [] in
    let first : with_message d o.event [] ≡ (some m, kept) =
      ap (λ (n : Option ℕ). (n, (key, n) ∷ [])) e in
    let (h, w) =
      retry_one-sends d max_attempts o (started (o ∷ p ∷ []) s) m kept t send first ft so in
    let r = retry_one d max_attempts o (started (o ∷ p ∷ []) s) in
    let second : with_message d p.event r.messages ≡ (some m, kept) =
      rw (w, product) (rw (with_message, find, ==_refl key) refl) in
    let target : d.find_target p.event.retailer_product_id p.delivery.subscription_id ≡ some u =
      rw product fu in
    let (h2, w2) = retry_one-sends d max_attempts p r m kept u again second target sp in
    h2 ∙ ap (λ l. l ++ (record { delivery_id = p.id; message = m; target = u } ∷ [])) h
