-- ===== src/Listings/Invariants.antt =====
-- What any sequence of calls on listings keeps (packages/db/src/queries/market.ts).
use gundam_tcg_hub.Base.{
  ℕ, ◌≡◌, ◌≢◌, refl, Bool, true, false, ◌&&◌, none, some, List, [], ◌∷◌, ◌==◌, All, arith,
  Bool-cases, inl, inr, ==_iff,
}
use gundam_tcg_hub.Base.Table.{
  Table, find, write, find-write, find-insert, Distinct, insert-Distinct, write-Distinct,
}
use gundam_tcg_hub.Rules.Listing.{photos_required_for}
use gundam_tcg_hub.Orders.Schema.{Listing, Store}
use gundam_tcg_hub.Orders.Db.{set_sold}
use gundam_tcg_hub.Listings.Queries.{
  listing_checks, new_listing, updated_columns, OwnStatus, status_columns, remove, usd,
}
use gundam_tcg_hub.Listings.Calls.{
  ListingCall, creates, updates, sets_status, deletes, sells, perform_listing, perform_listings,
  Change, kept, added, edited, switched, deleted, sold, perform_listing-Change,
}

find-remove_other : (j id : ℕ) (t : Table Listing) → j ≢ id → find j (remove id t) ≡ find j t
unfolding find remove
find-remove_other j id [] n = refl
find-remove_other j id ((i, l) ∷ t) n = ground (arith, find-remove_other j id t n)

find-remove_self : (id : ℕ) (t : Table Listing) → Distinct t → find id (remove id t) ≡ none
unfolding find remove
find-remove_self id [] d = refl
find-remove_self id ((i, l) ∷ t) (n, d) = ground (arith, ==_iff i id, find-remove_self id t d)

remove-Distinct : (id : ℕ) (t : Table Listing) → Distinct t → Distinct (remove id t)
unfolding remove
remove-Distinct id [] d = tt
remove-Distinct id ((i, l) ∷ t) (n, d) = elim (Bool-cases (i == id)) [
  | inl same ↦ rw same d
  | inr other ↦
      rw other
        (ground (arith, n, other, ==_iff i id, find-remove_other i id t), remove-Distinct id t d)
]

Change-Distinct :
    (c : ListingCall) (s t : Store) → Change c s t → Distinct s.listings → Distinct t.listings
Change-Distinct c s t (kept e) d = rw e d
Change-Distinct c s t (added id user input e n v k w) d = rw w (insert-Distinct id _ s.listings n d)
Change-Distinct c s t (edited user id input l e f o u k w) d =
    rw w (write-Distinct id _ s.listings d)
Change-Distinct c s t (switched user id status l e f o w) d =
    rw w (write-Distinct id _ s.listings d)
Change-Distinct c s t (deleted user id l e f o k w) d = rw w (remove-Distinct id s.listings d)
Change-Distinct c s t (sold id l e f w) d = rw w (write-Distinct id _ s.listings d)

-- A row that passes its CHECKs, and asks for photographs exactly where its price does.
pub record IsPriced (l : Listing) : Type 0 where
  pub checked : listing_checks l ≡ true
  pub photos : l.photo_required ≡ photos_required_for l.price_cents

pub record IsListed (s : Store) : Type 0 where
  pub keys : Distinct s.listings
  pub priced : (id : ℕ) (l : Listing) → find id s.listings ≡ some l → IsPriced l

status_columns-IsPriced :
    (status : OwnStatus) (at : ℕ) (l : Listing) → IsPriced l → IsPriced (status_columns status at l)
unfolding listing_checks
status_columns-IsPriced status at l v = record { checked = v.checked; photos = v.photos }

set_sold-IsPriced : (at : ℕ) (l : Listing) → IsPriced l → IsPriced (set_sold at l)
unfolding listing_checks
set_sold-IsPriced at l v = record { checked = v.checked; photos = v.photos }

-- A row that is written or added is priced, and the others were.
written-IsPriced :
    (id : ℕ) (l : Listing) (s : Store)
    → IsListed s
    → IsPriced l
    → (j : ℕ) (p : Listing) → find j (write id l s.listings) ≡ some p
    → IsPriced p
written-IsPriced id l s v p j q e = elim (Bool-cases (id == j)) [
  | inl same ↦ let r : q ≡ l = ground (arith, find-write j id l s.listings) in rw r p
  | inr other ↦ v.priced j q (ground (arith, find-write j id l s.listings))
]

Change-IsPriced :
    (c : ListingCall) (s t : Store)
    → Change c s t
    → IsListed s
    → (j : ℕ) (p : Listing) → find j t.listings ≡ some p
    → IsPriced p
Change-IsPriced c s t (kept e) v j p q = v.priced j p (rw (← e) q)
Change-IsPriced c s t (added id user input e n ok_draft k w) v j p q = elim (Bool-cases (id == j)) [
  | inl same ↦
      let r : p ≡ new_listing user input usd s.clock =
        ground (arith, find-insert j id (new_listing user input usd s.clock) s.listings) in
      rw r (record { checked = k; photos = refl })
  | inr other ↦
      v.priced j p
        (ground (arith, find-insert j id (new_listing user input usd s.clock) s.listings))
]
Change-IsPriced c s t (edited user id input l e f o u k w) v j p q =
    written-IsPriced id (updated_columns input s.clock l) s v
      (record { checked = k; photos = refl }) j p (rw (← w) q)
Change-IsPriced c s t (switched user id status l e f o w) v j p q =
    written-IsPriced id (status_columns status s.clock l) s v
      (status_columns-IsPriced status s.clock l (v.priced id l f)) j p (rw (← w) q)
Change-IsPriced c s t (deleted user id l e f o k w) v j p q = elim (Bool-cases (j == id)) [
  | inl same ↦
      absurd (ground (arith, ==_iff j id, find-remove_self id s.listings v.keys, same, q, w))
  | inr other ↦
      v.priced j p (ground (arith, ==_iff j id, find-remove_other j id s.listings, other, q, w))
]
Change-IsPriced c s t (sold id l e f w) v j p q =
    written-IsPriced id (set_sold s.clock l) s v (set_sold-IsPriced s.clock l (v.priced id l f)) j p
      (rw (← w) q)

-- Any sequence of calls, the sale of a paid order among them, keeps every listing within its CHECK
-- constraints (the price is 1 to 100000000 cents, the quantity 1 to 999, the notes at most 500 long), with its
-- flag saying that photographs are required exactly if its price now is above $25.
pub perform_listings-IsListed :
    (cs : List ListingCall) (s : Store) → IsListed s → IsListed (perform_listings cs s)
unfolding perform_listings
perform_listings-IsListed [] s v = v
perform_listings-IsListed (c ∷ cs) s v =
    let change = perform_listing-Change c s in
    perform_listings-IsListed cs (perform_listing c s) (record {
      keys = Change-Distinct c s (perform_listing c s) change v.keys;
      priced = Change-IsPriced c s (perform_listing c s) change v;
    })

-- The calls that may change the row `id` of this seller: the seller's own on it, and a sale.
unfoldable pub touches : ListingCall → ℕ → ℕ → Bool
touches (creates j user input) id seller = false
touches (updates user j input) id seller = (j == id) && (user == seller)
touches (sets_status user j status) id seller = (j == id) && (user == seller)
touches (deletes user j) id seller = (j == id) && (user == seller)
touches (sells j) id seller = j == id

untouched_step :
    (c : ListingCall) (s t : Store) (id : ℕ) (l : Listing)
    → Change c s t
    → find id s.listings ≡ some l
    → touches c id l.seller_id ≡ false
    → find id t.listings ≡ some l
unfolding touches
untouched_step c s t id l (kept e) f n = rw e f
untouched_step c s t id l (added j user input e new ok_draft k w) f n =
    ground (arith, find-insert id j (new_listing user input usd s.clock) s.listings, ==_iff j id, w)
untouched_step c s t id l (edited user j input p e g o u k w) f n =
    ground (arith, find-write id j (updated_columns input s.clock p) s.listings, ==_iff j id, w)
untouched_step c s t id l (switched user j status p e g o w) f n =
    ground (arith, find-write id j (status_columns status s.clock p) s.listings, ==_iff j id, w)
untouched_step c s t id l (deleted user j p e g o k w) f n =
    ground (arith, find-remove_other id j s.listings, ==_iff j id, w)
untouched_step c s t id l (sold j p e g w) f n =
    ground (arith, find-write id j (set_sold s.clock p) s.listings, ==_iff j id, w)

-- A listing stays as it is, whatever other users do to it and to any other listing: only its own
-- seller's calls on it and the sale of an order for it change it.
pub untouched :
    (cs : List ListingCall) (s : Store) (id : ℕ) (l : Listing)
    → find id s.listings ≡ some l
    → All (λ c. touches c id l.seller_id ≡ false) cs
    → find id (perform_listings cs s).listings ≡ some l
unfolding perform_listings
untouched [] s id l f a = f
untouched (c ∷ cs) s id l f (n, a) =
    untouched cs (perform_listing c s) id l
      (untouched_step c s (perform_listing c s) id l (perform_listing-Change c s) f n) a
