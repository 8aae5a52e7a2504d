-- ===== src/Alerts/Settled.antt =====
-- What a run of the retry leaves of the deliveries that it claimed (packages/alerts/src/retry.ts).
use gundam_tcg_hub.Base.{
  ℕ, ◌+◌, ◌≡◌, ◌<◌, refl, true, false, ◌&&◌, ◌==◌, ltb, List, [], ◌∷◌, take, All, Option, none,
  some, arith, Bool-cases, inl, inr, ◌⊎◌, ap, ◌∙◌, ==_refl, Option-cases,
}
use gundam_tcg_hub.Base.Table.{find, find-write, Distinct}
use gundam_tcg_hub.Alerts.Deliveries.{
  pending, failed, Delivery, AlertStore, is_pending, change, as_sent, as_failed, as_abandoned,
  mark_delivery_sent, mark_delivery_failed, abandon_delivery, RetryOptions, Owed, owed_rows, by_age,
  claim_retryable_deliveries,
}
use gundam_tcg_hub.Alerts.Retry.{
  SendOutcome, ok, skipped, failure, Transport, RetryDeps, RetryRun, with_message, answered,
  attempt, retry_one, retry_each, started, retry_owed_deliveries,
}
use gundam_tcg_hub.Alerts.Claim.{
  Apart, EachOnce, owed_rows-claims, by_age-All, by_age-EachOnce, take-All, take-EachOnce,
}

-- The row that was claimed is still there.
abbrev pub Tracked : AlertStore → Owed → Type 0
Tracked s o = find o.id s.deliveries ≡ some o.delivery

-- A row that a run may leave: no longer pending, or with one attempt more and attempts left.
abbrev pub IsLeft : ℕ → Delivery → Delivery → Type 0
IsLeft max_attempts before after =
    (is_pending after.status ≡ false)
    ⊎ ((after.attempts ≡ before.attempts + 1) × (before.attempts + 1 < max_attempts))

abbrev pub IsSettled : ℕ → AlertStore → Owed → Type 0
IsSettled max_attempts s o =
    (d : Delivery) × (find o.id s.deliveries ≡ some d) × IsLeft max_attempts o.delivery d

find-change :
    (j id : ℕ) (f : Delivery → Delivery) (s : AlertStore)
    → (id == j) ≡ false
    → find j (change id f s).deliveries ≡ find j s.deliveries
unfolding change
find-change j id f s h = elim (Option-cases (find id s.deliveries)) [
  | inl e ↦ rw (change, e) refl
  | inr (d, e) ↦ rw (change, e, find-write j id (f d) s.deliveries, h) refl
]

find-changed :
    (id : ℕ) (f : Delivery → Delivery) (d : Delivery) (s : AlertStore)
    → find id s.deliveries ≡ some d
    → find id (change id f s).deliveries ≡ some (f d)
unfolding change
find-changed id f d s e = rw (change, e, find-write id id (f d) s.deliveries, ==_refl id, e) refl

-- What a round does to the store: one change of the row it is about.
answered-changes :
    (max_attempts : ℕ) (o : Owed) (a : SendOutcome) (r : RetryRun)
    → (f : Delivery → Delivery) × ((answered max_attempts o a r).store ≡ change o.id f r.store)
      × IsLeft max_attempts o.delivery (f o.delivery)
unfolding answered mark_delivery_sent mark_delivery_failed
answered-changes max_attempts o ok r = (as_sent, refl, inl refl)
answered-changes max_attempts o skipped r = (as_failed failed, refl, inl refl)
answered-changes max_attempts o (failure retryable) r =
    elim (Bool-cases (retryable && ltb (o.delivery.attempts + 1) max_attempts)) [
      | inl h ↦ rw h (as_failed pending, refl, inr (refl, ground arith))
      | inr h ↦ rw h (as_failed failed, refl, inl refl)
    ]

attempt-changes :
    (max_attempts : ℕ) (o : Owed) (m t : Option ℕ) (send : Option Transport) (r : RetryRun)
    → (f : Delivery → Delivery) × ((attempt max_attempts o m t send r).store
        ≡ change o.id f r.store)
      × IsLeft max_attempts o.delivery (f o.delivery)
unfolding attempt abandon_delivery
attempt-changes max_attempts o (some m) (some t) (some send) r =
    answered-changes max_attempts o (send m t o.delivery.subscription_id) _
attempt-changes max_attempts o none t send r = (as_abandoned, refl, inl refl)
attempt-changes max_attempts o (some m) none send r = (as_abandoned, refl, inl refl)
attempt-changes max_attempts o (some m) (some t) none r = (as_abandoned, refl, inl refl)

retry_one-changes :
    (d : RetryDeps) (max_attempts : ℕ) (o : Owed) (r : RetryRun)
    → (f : Delivery → Delivery) × ((retry_one d max_attempts o r).store ≡ change o.id f r.store)
      × IsLeft max_attempts o.delivery (f o.delivery)
unfolding retry_one
retry_one-changes d max_attempts o r =
    attempt-changes max_attempts o (with_message d o.event r.messages).0
      (d.find_target o.event.retailer_product_id o.delivery.subscription_id)
      (d.transports o.delivery.channel)
      (record r { messages = (with_message d o.event r.messages).1 })

-- A round about another row leaves a row as it is.
retry_each-other :
    (d : RetryDeps) (max_attempts : ℕ) (o : Owed) (os : List Owed) (r : RetryRun)
    → All (Apart o) os
    → find o.id (retry_each d max_attempts os r).store.deliveries ≡ find o.id r.store.deliveries
unfolding retry_each
retry_each-other d max_attempts o [] r h = refl
retry_each-other d max_attempts o (p ∷ os) r (h, hs) =
    let (f, e, left) = retry_one-changes d max_attempts p r in
    let other : (p.id == o.id) ≡ false = ground arith in
    retry_each-other d max_attempts o os (retry_one d max_attempts p r) hs
    ∙ ap (λ (s : AlertStore). find o.id s.deliveries) e
    ∙ find-change o.id p.id f r.store other

change-Tracked :
    (p : Owed) (f : Delivery → Delivery) (s : AlertStore) (os : List Owed)
    → All (Apart p) os
    → All (Tracked s) os
    → All (Tracked (change p.id f s)) os
change-Tracked p f s [] h t = tt
change-Tracked p f s (o ∷ os) (h, hs) (t, ts) =
    (find-change o.id p.id f s h ∙ t, change-Tracked p f s os hs ts)

retry_each-settles :
    (d : RetryDeps) (max_attempts : ℕ) (os : List Owed) (r : RetryRun)
    → EachOnce os
    → All (Tracked r.store) os
    → All (IsSettled max_attempts (retry_each d max_attempts os r).store) os
unfolding retry_each
retry_each-settles d max_attempts [] r h t = tt
retry_each-settles d max_attempts (o ∷ os) r (apart, h) (t, ts) =
    let (f, e, left) = retry_one-changes d max_attempts o r in
    let tracked : All (Tracked (retry_one d max_attempts o r).store) os =
      rw e (change-Tracked o f r.store os apart ts) in
    let after =
      retry_each-other d max_attempts o os (retry_one d max_attempts o r) apart
      ∙ ap (λ (s : AlertStore). find o.id s.deliveries) e
      ∙ find-changed o.id f o.delivery r.store t in
    (
      (f o.delivery, after, left),
      retry_each-settles d max_attempts os (retry_one d max_attempts o r) h tracked,
    )

-- Every delivery that a run of the retry claims is settled by it: it is sent or given up, or it is still pending with
-- one attempt more than before and fewer than the most that are allowed. The keys of the deliveries are distinct, as
-- those of a table are.
pub retry_owed_deliveries-settles :
    (d : RetryDeps) (o : RetryOptions) (s : AlertStore)
    → Distinct s.deliveries
    → All
        (IsSettled o.max_attempts (retry_owed_deliveries d o true s).store)
        (claim_retryable_deliveries o s)
unfolding retry_owed_deliveries claim_retryable_deliveries
retry_owed_deliveries-settles d o s h =
    let (tracked, once) = owed_rows-claims o s s.deliveries h in
    let owed = by_age (owed_rows o s s.deliveries) in
    retry_each-settles d o.max_attempts (take o.row_limit owed) (started (take o.row_limit owed) s)
      (take-EachOnce o.row_limit owed (by_age-EachOnce (owed_rows o s s.deliveries) once))
      (take-All (Tracked s) o.row_limit owed
        (by_age-All (Tracked s) (owed_rows o s s.deliveries) tracked))
