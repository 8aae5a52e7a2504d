-- ===== src/Listings/Tests.antt =====
-- Runs of the queries and routes on listings, and the theorems about them at concrete inputs.
use gundam_tcg_hub.Base.{ℕ, ◌≡◌, refl, true, Option, none, some, List, [], ◌∷◌, arith}
use gundam_tcg_hub.Base.Int.{pos}
use gundam_tcg_hub.Base.Table.{find, write, insert}
use gundam_tcg_hub.Rules.Listing.{
  ListingDraft, validate_listing, can_publish, photos_required_for, photos_required,
}
use gundam_tcg_hub.Access.Authorize.{Subject, seller, magic_link}
use gundam_tcg_hub.Orders.Schema.{Listing, ListingStatus, Store}
use gundam_tcg_hub.Orders.Db.{sell_listing}
use gundam_tcg_hub.Orders.Samples.{card, shop}
use gundam_tcg_hub.Listings.Queries.{
  CreateListingInput, UpdateListingInput, to_active, status_columns, create_listing, update_listing,
  set_listing_status, listing_checks, delete_draft_listing,
}
use gundam_tcg_hub.Listings.Calls.{
  ListingCall, creates, updates, sets_status, sells, deletes, perform_listings,
}
use gundam_tcg_hub.Listings.Invariants.{IsListed, perform_listings-IsListed}
use gundam_tcg_hub.Listings.Routes.{Server, sent_200, post_status, patch_listing}
use gundam_tcg_hub.Listings.Sold.{sold_listing_reopened, raised_without_photos}

abbrev draft : ListingDraft
draft = record { price_cents = pos 2000; quantity = pos 1; notes_length = none }

abbrev dear : UpdateListingInput
dear = record { draft = record draft { price_cents = pos 8000 }; condition = none }

abbrev another : CreateListingInput
another = record { draft = draft; card_variant_id = 5; condition = 1; currency = none }

abbrev calls : List ListingCall
calls =
    creates 8 1 another
    ∷ sets_status 1 8 to_active
    ∷ updates 1 8 dear
    ∷ sells 8
    ∷ creates 9 1 another
    ∷ deletes 1 9
    ∷ []

abbrev status_at : ℕ → Store → Option ListingStatus
status_at id s = elim (find id s.listings) [ none ↦ none | some l ↦ some l.status ]

sold_at_last :
    (status_at 8 (perform_listings calls shop) ≡ some ListingStatus.sold)
    × (status_at 9 (perform_listings calls shop) ≡ none)
unfolding perform_listings create_listing set_listing_status update_listing delete_draft_listing
    sell_listing validate_listing find write insert listing_checks photos_required_for
sold_at_last = (refl, refl)

shop-IsListed : IsListed shop
unfolding find listing_checks photos_required_for
shop-IsListed = record { keys = (refl, tt); priced = λ id l e. ground arith }

perform_listings-IsListed_example : IsListed (perform_listings calls shop)
perform_listings-IsListed_example = perform_listings-IsListed calls shop shop-IsListed

abbrev dealer : Subject
dealer = record {
  user_id = 2;
  role = seller;
  authenticated_at = some 1;
  auth_method = some magic_link;
}

abbrev server : Server
server = record { store = shop; audit = [] }

abbrev no_photos : ℕ → ℕ
no_photos id = 0

sold_listing_reopened_example :
    let after_sale = record server {
      store = record shop { listings = (7, record card { status = ListingStatus.sold }) ∷ [] };
    } in
    (t : Server) × (post_status no_photos (some dealer) (some 7) (some to_active) after_sale
      ≡ (sent_200 (status_columns to_active 1000 card), t))
    × (find 7 t.store.listings ≡ some (status_columns to_active 1000 card))
unfolding find listing_checks can_publish
sold_listing_reopened_example =
    sold_listing_reopened no_photos dealer 7 card
      (record server {
        store = record shop { listings = (7, record card { status = ListingStatus.sold }) ∷ [] };
      })
      to_active refl refl refl refl

raised_without_photos_example :
    (t : Server) × (row : Listing) × (patch_listing (some dealer) (some 7) (some dear) server
      ≡ (sent_200 row, t))
    × (find 7 t.store.listings ≡ some row)
    × (row.status ≡ ListingStatus.active)
    × (row.photo_required ≡ true)
    × (can_publish row.price_cents 0 ≡ some photos_required)
unfolding find validate_listing
raised_without_photos_example =
    raised_without_photos dealer 7 card dear server refl refl refl (omega arith)
