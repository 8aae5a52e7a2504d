-- ===== src/Alerts/Claim.antt =====
-- The rows that a run of the retry claims (`claimRetryableDeliveries` in packages/db/src/queries/ingest.ts): each is in the
-- table, and none twice.
use gundam_tcg_hub.Base.{
  ℕ, suc, ◌≡◌, refl, false, ◌==◌, leb, List, [], ◌∷◌, ◌++◌, take, All, Option, none, some, arith,
  Bool-cases, inl, inr, ==_refl, ==_iff, zero,
}
use gundam_tcg_hub.Base.Table.{Table, find, Distinct}
use gundam_tcg_hub.Alerts.Deliveries.{
  Delivery, RestockEvent, AlertStore, RetryOptions, Owed, is_owed, joined, owed_rows, place, by_age,
}

abbrev pub Apart : Owed → Owed → Type 0
Apart o p = (o.id == p.id) ≡ false

abbrev pub EachOnce : List Owed → Type 0
EachOnce [] = Unit
EachOnce (o ∷ os) = All (Apart o) os × EachOnce os

abbrev pub InTable : Table Delivery → Owed → Type 0
InTable t o = find o.id t ≡ some o.delivery

apart-InTable :
    (id : ℕ) (d : Delivery) (t : Table Delivery) (os : List Owed)
    → find id t ≡ none
    → All (InTable t) os
    → All (λ p. (id == p.id) ≡ false) os × All (InTable ((id, d) ∷ t)) os
unfolding find
apart-InTable id d t [] h a = (tt, tt)
apart-InTable id d t (p ∷ os) h (a, more) =
    let (apart, there) = apart-InTable id d t os h more in
    elim (Bool-cases (id == p.id)) [
      | inl same ↦ absurd (ground (arith, (==_iff id p.id).0 same))
      | inr other ↦ ((other, apart), (rw (find, other) a, there))
    ]

joined-claims :
    (o : RetryOptions) (s : AlertStore) (id : ℕ) (d : Delivery) (e : Option RestockEvent)
    (t : Table Delivery) (os : List Owed)
    → find id t ≡ none
    → All (InTable t) os
    → EachOnce os
    → All (InTable ((id, d) ∷ t)) (joined o s id d e ++ os) × EachOnce (joined o s id d e ++ os)
unfolding find
joined-claims o s id d none t os h a once = ((apart-InTable id d t os h a).1, once)
joined-claims o s id d (some e) t os h a once =
    let (apart, there) = apart-InTable id d t os h a in
    elim (Bool-cases (is_owed o s.clock d e)) [
      | inl owed ↦ rw owed ((rw (find, ==_refl id) refl, there), (apart, once))
      | inr not_owed ↦ rw not_owed (there, once)
    ]

pub owed_rows-claims :
    (o : RetryOptions) (s : AlertStore) (t : Table Delivery)
    → Distinct t
    → All (InTable t) (owed_rows o s t) × EachOnce (owed_rows o s t)
unfolding owed_rows
owed_rows-claims o s [] h = (tt, tt)
owed_rows-claims o s ((id, d) ∷ t) (new, h) =
    let (a, once) = owed_rows-claims o s t h in
    joined-claims o s id d (find d.event_id s.events) t (owed_rows o s t) new a once

place-All {κ} :
    (P : Owed → Type κ) (a : Owed) (os : List Owed) → P a → All P os → All P (place a os)
unfolding place
place-All P a [] h hs = (h, tt)
place-All P a (b ∷ os) h (hb, hs) =
    elim (Bool-cases (leb a.delivery.created_at b.delivery.created_at)) [
      | inl first ↦ rw first (h, (hb, hs))
      | inr later ↦ rw later (hb, place-All P a os h hs)
    ]

place-EachOnce :
    (a : Owed) (os : List Owed) → All (Apart a) os → EachOnce os → EachOnce (place a os)
unfolding place
place-EachOnce a [] h once = (tt, tt)
place-EachOnce a (b ∷ os) (h, hs) (apart, once) =
    elim (Bool-cases (leb a.delivery.created_at b.delivery.created_at)) [
      | inl first ↦ rw first ((h, hs), (apart, once))
      | inr later ↦
          let back : Apart b a = ground arith in
          rw later (place-All (Apart b) a os back apart, place-EachOnce a os hs once)
    ]

pub by_age-All {κ} : (P : Owed → Type κ) (os : List Owed) → All P os → All P (by_age os)
unfolding by_age
by_age-All P [] h = tt
by_age-All P (o ∷ os) (h, hs) = place-All P o (by_age os) h (by_age-All P os hs)

pub by_age-EachOnce : (os : List Owed) → EachOnce os → EachOnce (by_age os)
unfolding by_age
by_age-EachOnce [] h = tt
by_age-EachOnce (o ∷ os) (apart, once) =
    place-EachOnce o (by_age os) (by_age-All (Apart o) os apart) (by_age-EachOnce os once)

pub take-All {κ} : (P : Owed → Type κ) (n : ℕ) (os : List Owed) → All P os → All P (take n os)
take-All P zero os h = tt
take-All P (suc n) [] h = tt
take-All P (suc n) (o ∷ os) (h, hs) = (h, take-All P n os hs)

pub take-EachOnce : (n : ℕ) (os : List Owed) → EachOnce os → EachOnce (take n os)
take-EachOnce zero os h = tt
take-EachOnce (suc n) [] h = tt
take-EachOnce (suc n) (o ∷ os) (apart, once) =
    (take-All (Apart o) n os apart, take-EachOnce n os once)
