-- ===== src/Alerts/Once.antt =====
-- An event is told once (packages/alerts/src/dispatcher.ts and `claimDeliveries` in packages/db/src/queries/ingest.ts).
use gundam_tcg_hub.Base.{
  ℕ, ◌≡◌, refl, Bool, true, false, ◌||◌, List, [], ◌∷◌, length, All, Option, none, some, arith,
  Bool-cases, Option-cases, inl, inr, ◌∙◌, sym, subst,
}
use gundam_tcg_hub.Base.Table.{Table, find, insert, write, any_row}
use gundam_tcg_hub.Alerts.Deliveries.{
  Channel, DeliveryStatus, pending, failed, Delivery, AlertStore, change, as_sent, as_failed,
  mark_delivery_sent, mark_delivery_failed,
}
use gundam_tcg_hub.Alerts.Retry.{SendOutcome, ok, skipped, failure, Transport}
use gundam_tcg_hub.Alerts.Dispatch.{
  FanOutTarget, Slot, slots_of, in_slot, has_slot, new_delivery, with_row, claim_deliveries,
  DispatchRun, target_of, dispatched, deliver, deliver_each, counted, dispatch_restock_event,
}

abbrev Taken : ℕ → AlertStore → Slot → Type 0
Taken event_id s x = has_slot event_id x s ≡ true

any_row-insert :
    (p : ℕ → Delivery → Bool) (k : ℕ) (v : Delivery) (t : Table Delivery)
    → any_row p (insert k v t) ≡ (any_row p t || p k v)
unfolding any_row insert
any_row-insert p k v [] = ground arith
any_row-insert p k v ((j, w) ∷ t) = ground (arith, any_row-insert p k v t)

any_row-write :
    (p : Delivery → Bool) (k : ℕ) (v w : Delivery) (t : Table Delivery)
    → find k t ≡ some w
    → p v ≡ p w
    → any_row (λ (j : ℕ) (d : Delivery). p d) (write k v t)
      ≡ any_row (λ (j : ℕ) (d : Delivery). p d) t
unfolding any_row write find
any_row-write p k v w [] h e = refl
any_row-write p k v w ((j, u) ∷ t) h e = ground (arith, any_row-write p k v w t)

-- A change of anything but the slot keeps every slot.
has_slot-change :
    (event_id : ℕ) (x : Slot) (id : ℕ) (f : Delivery → Delivery) (s : AlertStore)
    → ((d : Delivery) → in_slot event_id x (f d) ≡ in_slot event_id x d)
    → has_slot event_id x (change id f s) ≡ has_slot event_id x s
unfolding has_slot change
has_slot-change event_id x id f s h = elim (Option-cases (find id s.deliveries)) [
  | inl e ↦ rw (change, e) refl
  | inr (d, e) ↦ rw (change, e) (any_row-write (in_slot event_id x) id (f d) d s.deliveries e (h d))
]

dispatched-keeps :
    (event_id : ℕ) (x : Slot) (id : ℕ) (a : SendOutcome) (r : DispatchRun)
    → has_slot event_id x (dispatched id a r).store ≡ has_slot event_id x r.store
unfolding dispatched mark_delivery_sent mark_delivery_failed
dispatched-keeps event_id x id ok r = has_slot-change event_id x id as_sent r.store (λ d. refl)
dispatched-keeps event_id x id skipped r =
    has_slot-change event_id x id (as_failed DeliveryStatus.skipped) r.store (λ d. refl)
dispatched-keeps event_id x id (failure true) r =
    has_slot-change event_id x id (as_failed pending) r.store (λ d. refl)
dispatched-keeps event_id x id (failure false) r =
    has_slot-change event_id x id (as_failed failed) r.store (λ d. refl)

deliver-keeps :
    (event_id : ℕ) (x : Slot) (message id : ℕ) (d : Delivery) (t : Option FanOutTarget)
    (send : Option Transport) (r : DispatchRun)
    → has_slot event_id x (deliver message id d t send r).store ≡ has_slot event_id x r.store
unfolding deliver mark_delivery_failed
deliver-keeps event_id x message id d (some t) (some send) r =
    dispatched-keeps event_id x id (send message t.recipient d.subscription_id) _
deliver-keeps event_id x message id d none send r =
    has_slot-change event_id x id (as_failed DeliveryStatus.skipped) r.store (λ d. refl)
deliver-keeps event_id x message id d (some t) none r =
    has_slot-change event_id x id (as_failed DeliveryStatus.skipped) r.store (λ d. refl)

deliver_each-keeps :
    (transports : Channel → Option Transport) (targets : List FanOutTarget) (message event_id : ℕ)
    (x : Slot) (claimed : List (ℕ × Delivery)) (r : DispatchRun)
    → has_slot event_id x (deliver_each transports targets message claimed r).store
      ≡ has_slot event_id x r.store
unfolding deliver_each
deliver_each-keeps transports targets message event_id x [] r = refl
deliver_each-keeps transports targets message event_id x ((id, d) ∷ claimed) r =
    deliver_each-keeps transports targets message event_id x claimed _
    ∙ deliver-keeps event_id x message id d (target_of targets d.subscription_id)
        (transports d.channel) r

-- A slot that is taken stays so, and the new row takes its own.
has_slot-with_row :
    (event_id : ℕ) (x y : Slot) (id at : ℕ) (s : AlertStore)
    → has_slot event_id x (with_row id (new_delivery event_id y at) s)
      ≡ (has_slot event_id x s || in_slot event_id x (new_delivery event_id y at))
unfolding has_slot
has_slot-with_row event_id x y id at s =
    any_row-insert (λ (k : ℕ) (d : Delivery). in_slot event_id x d) id (new_delivery event_id y at)
      s.deliveries

in_slot-new : (event_id at : ℕ) (x : Slot) → in_slot event_id x (new_delivery event_id x at) ≡ true
in_slot-new event_id at x = ground arith

claim_deliveries-keeps :
    (draw : Slot → ℕ) (event_id : ℕ) (x : Slot) (xs : List Slot) (s : AlertStore)
    → Taken event_id s x
    → Taken event_id (claim_deliveries draw event_id xs s).1 x
unfolding claim_deliveries
claim_deliveries-keeps draw event_id x [] s h = h
claim_deliveries-keeps draw event_id x (y ∷ ys) s h = elim (Bool-cases (has_slot event_id y s)) [
  | inl there ↦ rw (claim_deliveries, there) (claim_deliveries-keeps draw event_id x ys s h)
  | inr new ↦
      let on : Taken event_id (with_row (draw y) (new_delivery event_id y s.clock) s) x =
        has_slot-with_row event_id x y (draw y) s.clock s ∙ ground arith in
      rw (claim_deliveries, new) (claim_deliveries-keeps draw event_id x ys _ on)
]

claim_deliveries-there :
    (draw : Slot → ℕ) (event_id : ℕ) (x : Slot) (xs : List Slot) (s : AlertStore)
    → Taken event_id s x
    → claim_deliveries draw event_id (x ∷ xs) s ≡ claim_deliveries draw event_id xs s
unfolding claim_deliveries
claim_deliveries-there draw event_id x xs s h = rw (claim_deliveries, h) refl

claim_deliveries-new :
    (draw : Slot → ℕ) (event_id : ℕ) (x : Slot) (xs : List Slot) (s : AlertStore)
    → has_slot event_id x s ≡ false
    → (claim_deliveries draw event_id (x ∷ xs) s).1
      ≡ (claim_deliveries draw event_id xs
          (with_row (draw x) (new_delivery event_id x s.clock) s)).1
unfolding claim_deliveries
claim_deliveries-new draw event_id x xs s h = rw (claim_deliveries, h) refl

claim_deliveries-takes :
    (draw : Slot → ℕ) (event_id : ℕ) (xs : List Slot) (s : AlertStore)
    → All (Taken event_id (claim_deliveries draw event_id xs s).1) xs
claim_deliveries-takes draw event_id [] s = tt
claim_deliveries-takes draw event_id (x ∷ xs) s = elim (Bool-cases (has_slot event_id x s)) [
  | inl there ↦
      subst (λ (c : List (ℕ × Delivery) × AlertStore). All (Taken event_id c.1) (x ∷ xs))
        (sym (claim_deliveries-there draw event_id x xs s there))
        (
          claim_deliveries-keeps draw event_id x xs s there,
          claim_deliveries-takes draw event_id xs s,
        )
  | inr new ↦
      let t = with_row (draw x) (new_delivery event_id x s.clock) s in
      let on : Taken event_id t x =
        has_slot-with_row event_id x x (draw x) s.clock s
        ∙ ground (arith, in_slot-new event_id s.clock x) in
      subst (λ (u : AlertStore). All (Taken event_id u) (x ∷ xs))
        (sym (claim_deliveries-new draw event_id x xs s new))
        (claim_deliveries-keeps draw event_id x xs t on, claim_deliveries-takes draw event_id xs t)
]

-- Where every slot is taken nothing is claimed.
claim_deliveries-none :
    (draw : Slot → ℕ) (event_id : ℕ) (xs : List Slot) (s : AlertStore)
    → All (Taken event_id s) xs
    → claim_deliveries draw event_id xs s ≡ ([], s)
unfolding claim_deliveries
claim_deliveries-none draw event_id [] s h = refl
claim_deliveries-none draw event_id (x ∷ xs) s (h, hs) =
    rw (claim_deliveries, h) (claim_deliveries-none draw event_id xs s hs)

All-Taken :
    (event_id : ℕ) (s t : AlertStore) (xs : List Slot)
    → ((x : Slot) → has_slot event_id x t ≡ has_slot event_id x s)
    → All (Taken event_id s) xs
    → All (Taken event_id t) xs
All-Taken event_id s t [] f h = tt
All-Taken event_id s t (x ∷ xs) f (h, hs) = (f x ∙ h, All-Taken event_id s t xs f hs)

-- An event that has been dispatched to its watchers claims nothing when it is dispatched to them again, with whatever
-- message and transports: nothing is handed to a transport, and no delivery is changed or added.
pub dispatch_twice :
    (transports again : Channel → Option Transport) (targets : List FanOutTarget)
    (draw draw_again : Slot → ℕ) (event_id message other : ℕ) (s : AlertStore)
    → let t = (dispatch_restock_event transports targets draw event_id message s).store in
      dispatch_restock_event again targets draw_again event_id other t ≡ counted 0 t
unfolding dispatch_restock_event deliver_each
dispatch_twice transports again targets draw draw_again event_id message other s =
    let xs = slots_of targets in
    let claim = claim_deliveries draw event_id xs s in
    let r = deliver_each transports targets message claim.0 (counted (length claim.0) claim.1) in
    let taken =
      All-Taken event_id claim.1 r.store xs
        (λ x.
          deliver_each-keeps transports targets message event_id x claim.0
            (counted (length claim.0) claim.1))
        (claim_deliveries-takes draw event_id xs s) in
    rw (claim_deliveries-none draw_again event_id xs r.store taken) refl
