-- ===== src/Listings/Sold.antt =====
-- What becomes of a listing that is sold, and of the requirement of photographs
-- (apps/api/src/routes/market.ts, packages/db/src/queries/market.ts).
use gundam_tcg_hub.Base.{
  ℕ, ◌≡◌, ◌≤◌, ◌<◌, refl, true, ◌&&◌, not, none, some, ◌==◌, arith, ◌⊎◌, ==_refl,
}
use gundam_tcg_hub.Base.Int.{pos_part}
use gundam_tcg_hub.Base.Table.{find, write, find-write}
use gundam_tcg_hub.Rules.Listing.{
  validate_listing, can_publish, photos_required_for, photos_required, ListingError,
}
use gundam_tcg_hub.Access.Authorize.{Subject, authorize, can, listing_write}
use gundam_tcg_hub.Orders.Schema.{Listing, ListingStatus, Store}
use gundam_tcg_hub.Orders.Db.{ok}
use gundam_tcg_hub.Listings.Queries.{
  listing_checks, is_sold, may_write_listing, update_own, UpdateListingInput, updated_columns,
  update_listing, OwnStatus, to_active, to_draft, to_withdrawn, status_of, status_columns,
  set_listing_status, get_listing,
}
use gundam_tcg_hub.Listings.Routes.{
  Server, sent_200, may_show, photos_409, audited, listing_status, post_status, patch_listing,
}

-- Every signed-in person may write listings.
writes_listings : (s : Subject) → can (some s) listing_write none ≡ true
unfolding can
writes_listings s = ground arith

update_own_live :
    (user id : ℕ) (f : Listing → Listing) (s : Store) (l : Listing)
    → find id s.listings ≡ some l
    → l.seller_id ≡ user
    → may_write_listing user (f l) ≡ true
    → listing_checks (f l) ≡ true
    → update_own user id f s ≡ ok (some (f l), record s { listings = write id (f l) s.listings })
unfolding update_own
update_own_live user id f s l h own may good = ground arith

-- The store after a listing is moved, and the server with the entry in its audit log.
abbrev pub moved : ℕ → OwnStatus → Listing → Store → Store
moved id status l s = record s { listings = write id (status_columns status s.clock l) s.listings }

abbrev pub moved_server : ℕ → ℕ → OwnStatus → Listing → Server → Server
moved_server user id status l v =
    audited (record { actor_id = user; action = listing_status status; target_id = id })
      (record v { store = moved id status l v.store })

-- The seller's own status.
set_listing_status_live :
    (user id : ℕ) (status : OwnStatus) (s : Store) (l : Listing)
    → find id s.listings ≡ some l
    → l.seller_id ≡ user
    → listing_checks l ≡ true
    → set_listing_status user id status s
      ≡ ok (status_columns status s.clock l, moved id status l s)
unfolding set_listing_status may_write_listing listing_checks
set_listing_status_live user id status s l h own good =
    let live =
      update_own_live user id (status_columns status s.clock) s l h own (not_sold status) good in
    ground (arith, live)
  where
    not_sold : (st : OwnStatus) → ((l.seller_id == user) && not (is_sold (status_of st))) ≡ true
    not_sold to_draft = ground arith
    not_sold to_active = ground arith
    not_sold to_withdrawn = ground arith

module _ (photos : ℕ → ℕ) (s : Subject) (id : ℕ) (l : Listing) (v : Server)
    (h : find id v.store.listings ≡ some l) (own : l.seller_id ≡ s.user_id)
    (good : listing_checks l ≡ true) where
  move_existing_live :
      (status : OwnStatus)
      → may_show status l.price_cents (photos id) ≡ none
      → post_status photos (some s) (some id) (some status) v
        ≡ (sent_200 (status_columns status v.store.clock l), moved_server s.user_id id status l v)
  unfolding post_status authorize get_listing
  move_existing_live status shown =
      let may = writes_listings s in
      let live = set_listing_status_live s.user_id id status v.store l h own good in
      ground (arith, may, live)

  move_existing_refused :
      (status : OwnStatus) (e : ListingError)
      → may_show status l.price_cents (photos id) ≡ some e
      → post_status photos (some s) (some id) (some status) v ≡ (photos_409 e, v)
  unfolding post_status authorize get_listing
  move_existing_refused status e shown = let may = writes_listings s in ground (arith, may)

  -- A signed-in seller's request to put a listing of theirs on sale is granted exactly if the price is at
  -- most $25 or the listing has an approved photograph; else it is refused for the want of one, and nothing
  -- changes.
  pub publish_iff :
      (((l.price_cents ≤ 2500) ⊎ (0 < photos id))
        → post_status photos (some s) (some id) (some to_active) v ≡ (
          sent_200 (status_columns to_active v.store.clock l),
          moved_server s.user_id id to_active l v,
        ))
      × (2500 < l.price_cents
          → photos id ≡ 0
          → post_status photos (some s) (some id) (some to_active) v
            ≡ (photos_409 photos_required, v))
  unfolding can_publish photos_required_for
  publish_iff = (
    λ shown. move_existing_live to_active (ground arith),
    λ dear none_shown. move_existing_refused to_active photos_required (ground arith),
  )

-- A seller can put a listing that was sold on sale again, or back among the drafts: the request is granted, and the
-- row, which an order has paid for, has the status that was asked for.
pub sold_listing_reopened :
    (photos : ℕ → ℕ) (s : Subject) (id : ℕ) (l : Listing) (v : Server) (status : OwnStatus)
    → find id v.store.listings ≡ some (record l { status = ListingStatus.sold })
    → l.seller_id ≡ s.user_id
    → listing_checks l ≡ true
    → may_show status l.price_cents (photos id) ≡ none
    → (t : Server) × (post_status photos (some s) (some id) (some status) v
        ≡ (sent_200 (status_columns status v.store.clock l), t))
      × (find id t.store.listings ≡ some (status_columns status v.store.clock l))
unfolding listing_checks
sold_listing_reopened photos s id l v status h own good shown = (
  moved_server s.user_id id status (record l { status = ListingStatus.sold }) v,
  move_existing_live photos s id (record l { status = ListingStatus.sold }) v h own good status
      shown,
  ground (
    arith,
    find-write id id (status_columns status v.store.clock l) v.store.listings,
    h,
    ==_refl id,
  ),
)

-- A draft that is valid passes the CHECKs.
valid_checks :
    (input : UpdateListingInput) (at : ℕ) (l : Listing)
    → validate_listing input.draft ≡ none
    → listing_checks (updated_columns input at (record l { status = ListingStatus.active })) ≡ true
unfolding validate_listing listing_checks
valid_checks input at l good = ground arith

-- A seller can raise the price of a listing that is on sale above $25 without a photograph: the change is granted,
-- the listing stays on sale and now says that photographs are required, although it could not be put on sale
-- so.
pub raised_without_photos :
    (s : Subject) (id : ℕ) (l : Listing) (input : UpdateListingInput) (v : Server)
    → find id v.store.listings ≡ some (record l { status = ListingStatus.active })
    → l.seller_id ≡ s.user_id
    → validate_listing input.draft ≡ none
    → 2500 < pos_part input.draft.price_cents
    → (t : Server) × (row : Listing) × (patch_listing (some s) (some id) (some input) v
        ≡ (sent_200 row, t))
      × (find id t.store.listings ≡ some row)
      × (row.status ≡ ListingStatus.active)
      × (row.photo_required ≡ true)
      × (can_publish row.price_cents 0 ≡ some photos_required)
unfolding patch_listing authorize update_listing may_write_listing can_publish photos_required_for
raised_without_photos s id l input v h own good dear =
    let may = writes_listings s in
    let row = updated_columns input v.store.clock (record l { status = ListingStatus.active }) in
    let live =
      update_own_live s.user_id id (updated_columns input v.store.clock) v.store
        (record l { status = ListingStatus.active }) h own (ground arith)
        (valid_checks input v.store.clock l good) in
    (
      record v { store = record v.store { listings = write id row v.store.listings } },
      row,
      ground (arith, may, live),
      ground (arith, find-write id id row v.store.listings, h, ==_refl id),
      refl,
      ground arith,
      ground arith,
    )
