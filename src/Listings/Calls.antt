-- ===== src/Listings/Calls.antt =====
-- The queries on listings as calls on one database, one after another, and what they keep
-- (packages/db/src/queries/market.ts). The one write that comes from elsewhere, an order that was paid for, is among
-- them.
use gundam_tcg_hub.Base.{
  ℕ, ◌≡◌, refl, true, false, ◌&&◌, none, some, List, [], ◌∷◌, ◌==◌, is_some, any, arith,
  Option-cases, Bool-cases, inl, inr, ◌⊎◌,
}
use gundam_tcg_hub.Base.Table.{find, insert, write}
use gundam_tcg_hub.Rules.Listing.{validate_listing}
use gundam_tcg_hub.Orders.Schema.{Listing, Store}
use gundam_tcg_hub.Orders.Db.{
  ok, err, Error, pg, insufficient_privilege, check_violation, unique_violation, listings_pkey,
  missing_card, sell_listing, set_sold,
}
use gundam_tcg_hub.Orders.Calls.{after}
use gundam_tcg_hub.Listings.Queries.{
  listing_checks, is_sold, is_draft, may_write_listing, update_own, CreateListingInput, new_listing,
  insert_listing, create_listing, UpdateListingInput, updated_columns, update_listing, OwnStatus,
  status_columns, set_listing_status, remove, delete_draft_listing, usd,
}

pub data ListingCall : Type 0 where
  creates : ℕ → ℕ → CreateListingInput → ListingCall
  updates : ℕ → ℕ → UpdateListingInput → ListingCall
  sets_status : ℕ → ℕ → OwnStatus → ListingCall
  deletes : ℕ → ℕ → ListingCall
  sells : ℕ → ListingCall

unfoldable pub perform_listing : ListingCall → Store → Store
perform_listing (creates id user input) s = after s (create_listing id user input s)
perform_listing (updates user id input) s = after s (update_listing user id input s)
perform_listing (sets_status user id status) s = after s (set_listing_status user id status s)
perform_listing (deletes user id) s = after s (delete_draft_listing user id s)
perform_listing (sells id) s = after s (sell_listing id s)

unfoldable pub perform_listings : List ListingCall → Store → Store
unfolding perform_listing
perform_listings [] s = s
perform_listings (c ∷ cs) s = perform_listings cs (perform_listing c s)

-- What a call may do to the rows.
pub data Change (c : ListingCall) (s t : Store) : Type 0 where
  kept : t.listings ≡ s.listings → Change c s t
  added :
      (id user : ℕ) (input : CreateListingInput)
      → c ≡ creates id user input
      → find id s.listings ≡ none
      → validate_listing input.draft ≡ none
      → listing_checks (new_listing user input usd s.clock) ≡ true
      → t.listings ≡ insert id (new_listing user input usd s.clock) s.listings
      → Change c s t
  edited :
      (user id : ℕ) (input : UpdateListingInput) (l : Listing)
      → c ≡ updates user id input
      → find id s.listings ≡ some l
      → l.seller_id ≡ user
      → is_sold l.status ≡ false
      → listing_checks (updated_columns input s.clock l) ≡ true
      → t.listings ≡ write id (updated_columns input s.clock l) s.listings
      → Change c s t
  switched :
      (user id : ℕ) (status : OwnStatus) (l : Listing)
      → c ≡ sets_status user id status
      → find id s.listings ≡ some l
      → l.seller_id ≡ user
      → t.listings ≡ write id (status_columns status s.clock l) s.listings
      → Change c s t
  deleted :
      (user id : ℕ) (l : Listing)
      → c ≡ deletes user id
      → find id s.listings ≡ some l
      → l.seller_id ≡ user
      → is_draft l.status ≡ true
      → t.listings ≡ remove id s.listings
      → Change c s t
  sold :
      (id : ℕ) (l : Listing)
      → c ≡ sells id
      → find id s.listings ≡ some l
      → t.listings ≡ write id (set_sold s.clock l) s.listings
      → Change c s t

insert_cases :
    (id : ℕ) (l : Listing) (s : Store)
    → ((e : Error) × (insert_listing id l s ≡ err e))
      ⊎ ((find id s.listings ≡ none)
          × (listing_checks l ≡ true)
          × (insert_listing id l s ≡ ok (tt, record s { listings = insert id l s.listings })))
unfolding insert_listing
insert_cases id l s = elim (Bool-cases (listing_checks l)) [
  | inr bad ↦ inl (pg check_violation, rw bad refl)
  | inl good ↦ elim (Option-cases (find id s.listings)) [
    | inr (x, there) ↦ inl (pg (unique_violation listings_pkey), rw (good, there) refl)
    | inl new ↦
        elim (Bool-cases (
          is_some (find l.seller_id s.users)
          && any (λ (v : ℕ). v == l.card_variant_id) s.variants)) [
            | inr unknown ↦ inl (missing_card, rw (good, new, unknown) refl)
            | inl known ↦ inr (new, good, rw (good, new, known) refl)
          ]
  ]
]

create_found :
    (id user : ℕ) (input : CreateListingInput) (s : Store)
    → validate_listing input.draft ≡ none
    → Change (creates id user input) s (perform_listing (creates id user input) s)
unfolding perform_listing create_listing
create_found id user input s v = elim (insert_cases id (new_listing user input usd s.clock) s) [
  | inl (x, e) ↦ kept (ground (arith, e))
  | inr (new, good, e) ↦ added id user input refl new v good (ground (arith, e))
]

create-Change :
    (id user : ℕ) (input : CreateListingInput) (s : Store)
    → Change (creates id user input) s (perform_listing (creates id user input) s)
unfolding perform_listing create_listing
create-Change id user input s = elim (Option-cases (validate_listing input.draft)) [
  | inl v ↦ create_found id user input s v
  | inr (x, v) ↦ kept (ground arith)
]

-- An update of a row that is there: nothing happens, or the owner's row is written.
update_own_cases :
    (user id : ℕ) (f : Listing → Listing) (s : Store) (l : Listing)
    → find id s.listings ≡ some l
    → (update_own user id f s ≡ ok (none, s))
      ⊎ (((e : Error) × (update_own user id f s ≡ err e))
          ⊎ ((l.seller_id ≡ user)
              × (may_write_listing user (f l) ≡ true)
              × (listing_checks (f l) ≡ true)
              × (update_own user id f s
                  ≡ ok (some (f l), record s { listings = write id (f l) s.listings }))))
unfolding update_own
update_own_cases user id f s l h = elim (Bool-cases (l.seller_id == user)) [
  | inr other ↦ inl (ground arith)
  | inl own ↦ elim (Bool-cases (may_write_listing user (f l))) [
    | inr hidden ↦ inr (inl (pg insufficient_privilege, ground arith))
    | inl may ↦ elim (Bool-cases (listing_checks (f l))) [
      | inr bad ↦ inr (inl (pg check_violation, ground arith))
      | inl good ↦ inr (inr (ground arith, may, good, ground arith))
    ]
  ]
]

update_own_missing :
    (user id : ℕ) (f : Listing → Listing) (s : Store)
    → find id s.listings ≡ none
    → update_own user id f s ≡ ok (none, s)
unfolding update_own
update_own_missing user id f s h = ground arith

update_found :
    (user id : ℕ) (input : UpdateListingInput) (s : Store) (l : Listing)
    → find id s.listings ≡ some l
    → Change (updates user id input) s (perform_listing (updates user id input) s)
unfolding perform_listing update_listing may_write_listing
update_found user id input s l h =
    elim (update_own_cases user id (updated_columns input s.clock) s l h) [
      | inl e ↦ kept (ground (arith, e))
      | inr (inl (x, e)) ↦ kept (ground (arith, e))
      | inr (inr (own, may, good, e)) ↦ elim (Option-cases (validate_listing input.draft)) [
        | inl valid ↦ edited user id input l refl h own (ground arith) good (ground (arith, e))
        | inr (x, refused) ↦ kept (ground arith)
      ]
    ]

update-Change :
    (user id : ℕ) (input : UpdateListingInput) (s : Store)
    → Change (updates user id input) s (perform_listing (updates user id input) s)
unfolding perform_listing update_listing
update-Change user id input s = elim (Option-cases (find id s.listings)) [
  | inl h ↦
      let e = update_own_missing user id (updated_columns input s.clock) s h in
      kept (ground (arith, e))
  | inr (l, h) ↦ update_found user id input s l h
]

status_found :
    (user id : ℕ) (status : OwnStatus) (s : Store) (l : Listing)
    → find id s.listings ≡ some l
    → Change (sets_status user id status) s (perform_listing (sets_status user id status) s)
unfolding perform_listing set_listing_status
status_found user id status s l h =
    elim (update_own_cases user id (status_columns status s.clock) s l h) [
      | inl e ↦ kept (ground (arith, e))
      | inr (inl (x, e)) ↦ kept (ground (arith, e))
      | inr (inr (own, may, good, e)) ↦ switched user id status l refl h own (ground (arith, e))
    ]

status-Change :
    (user id : ℕ) (status : OwnStatus) (s : Store)
    → Change (sets_status user id status) s (perform_listing (sets_status user id status) s)
unfolding perform_listing set_listing_status
status-Change user id status s = elim (Option-cases (find id s.listings)) [
  | inl h ↦
      let e = update_own_missing user id (status_columns status s.clock) s h in
      kept (ground (arith, e))
  | inr (l, h) ↦ status_found user id status s l h
]

delete-Change :
    (user id : ℕ) (s : Store) → Change (deletes user id) s (perform_listing (deletes user id) s)
unfolding perform_listing delete_draft_listing
delete-Change user id s = elim (Option-cases (find id s.listings)) [
  | inl h ↦ kept (ground arith)
  | inr (l, h) ↦ elim (Bool-cases ((l.seller_id == user) && is_draft l.status)) [
    | inl may ↦ deleted user id l refl h (ground arith) (ground arith) (ground arith)
    | inr no_draft ↦ kept (ground arith)
  ]
]

sell-Change : (id : ℕ) (s : Store) → Change (sells id) s (perform_listing (sells id) s)
unfolding perform_listing sell_listing
sell-Change id s = elim (Option-cases (find id s.listings)) [
  | inl h ↦ kept (ground arith)
  | inr (l, h) ↦ sold id l refl h (ground arith)
]

pub perform_listing-Change : (c : ListingCall) (s : Store) → Change c s (perform_listing c s)
perform_listing-Change (creates id user input) s = create-Change id user input s
perform_listing-Change (updates user id input) s = update-Change user id input s
perform_listing-Change (sets_status user id status) s = status-Change user id status s
perform_listing-Change (deletes user id) s = delete-Change user id s
perform_listing-Change (sells id) s = sell-Change id s
