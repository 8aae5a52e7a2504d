-- ===== src/Listings/Routes.antt =====
-- The routes on listings that write (apps/api/src/routes/market.ts). A body or a parameter that its schema refuses is
-- `none`; the schemas ask for a positive price and quantity and for notes of at most 500 units, as `validateListing`
-- does after them. How many approved photographs a listing has is an argument.
use gundam_tcg_hub.Base.{ℕ, ◌-◌, not, Option, none, some, List, [], ◌∷◌, ◌++◌, ◌==◌, if◌then◌else◌}
use gundam_tcg_hub.Rules.Listing.{ListingError, can_publish}
use gundam_tcg_hub.Rules.Fraud.{FraudRefusal, check_listing}
use gundam_tcg_hub.Access.Authorize.{Subject, Action, listing_write, allowed, forbidden, authorize}
use gundam_tcg_hub.Orders.Schema.{Listing, Store}
use gundam_tcg_hub.Orders.Db.{Error, listing_rule, listing_not_found, ok, err}
use gundam_tcg_hub.Listings.Queries.{
  CreateListingInput, create_listing, UpdateListingInput, update_listing, OwnStatus, to_active,
  set_listing_status, delete_draft_listing, count_seller_listings_since, get_listing,
}

-- What is sent, or what reaches the application's error handler.
pub data Reply : Type 0 where
  sent_201 sent_200 : Listing → Reply
  sent_204 unauthenticated_401 invalid_request_400 not_found_404 : Reply
  rule_400 photos_409 : ListingError → Reply
  refused_403 : FraudRefusal → Reply
  forbidden_error : Action → Reply
  thrown : Error → Reply

pub data AuditAction : Type 0 where
  listing_refused : FraudRefusal → ℕ → AuditAction
  listing_created listing_deleted : AuditAction
  listing_status : OwnStatus → AuditAction

pub record AuditEntry : Type 0 where
  pub actor_id : ℕ
  pub action : AuditAction
  pub target_id : ℕ

pub record Server : Type 0 where
  pub store : Store
  pub audit : List AuditEntry

abbrev pub Handler : Type 0
Handler = Server → Reply × Server

abbrev pub audited : AuditEntry → Server → Server
audited e v = record v { audit = v.audit ++ (e ∷ []) }

-- `if (!request.subject) …; authorize(request.subject, 'listing:write')`
abbrev pub signed_in : Option Subject → (ℕ → Handler) → Handler
signed_in none k v = (unauthenticated_401, v)
signed_in (some s) k v = elim (authorize (some s) listing_write none) [
  | forbidden a ↦ (forbidden_error a, v)
  | allowed t ↦ k t.user_id v
]

-- A schema that refuses what it is given.
abbrev pub parsed : {A : Type 0} → Option A → (A → Handler) → Handler
parsed none k v = (invalid_request_400, v)
parsed (some a) k v = k a v

-- The `catch` of the routes that create and change a listing, and of the one that moves it.
abbrev pub create_failure : Error → Reply
create_failure (listing_rule e) = rule_400 e
create_failure e = thrown e

abbrev pub update_failure : Error → Reply
update_failure listing_not_found = not_found_404
update_failure (listing_rule e) = rule_400 e
update_failure e = thrown e

abbrev pub status_failure : Error → Reply
status_failure listing_not_found = not_found_404
status_failure e = thrown e

unfoldable pub create_and_log : ℕ → ℕ → CreateListingInput → Handler
create_and_log id user input v = elim (create_listing id user input v.store) [
  | err e ↦ (create_failure e, v)
  | ok (l, t) ↦ (
    sent_201 l,
    audited (record { actor_id = user; action = listing_created; target_id = id })
        (record v { store = t }),
  )
]

-- The hour in which listings are counted; the clock is past its first hour.
abbrev pub listings_last_hour : ℕ → Store → ℕ
listings_last_hour user s = count_seller_listings_since user (s.clock - 3600000) s

unfoldable pub post_listing : ℕ → Option Subject → Option CreateListingInput → Handler
unfolding create_and_log
post_listing id subject body = signed_in subject λ user. parsed body λ input v.
    elim (check_listing (listings_last_hour user v.store)) [
      | some refusal ↦ (
        refused_403 refusal,
        audited
            (record {
              actor_id = user;
              action = listing_refused refusal (listings_last_hour user v.store);
              target_id = user;
            })
            v,
      )
      | none ↦ create_and_log id user input v
    ]

unfoldable pub patch_and_reply : ℕ → ℕ → UpdateListingInput → Handler
patch_and_reply user id input v = elim (update_listing user id input v.store) [
  | err e ↦ (update_failure e, v)
  | ok (l, t) ↦ (sent_200 l, record v { store = t })
]

unfoldable pub patch_listing : Option Subject → Option ℕ → Option UpdateListingInput → Handler
unfolding patch_and_reply
patch_listing subject id body =
    signed_in subject
      λ user. parsed id λ listing. parsed body λ input. patch_and_reply user listing input

-- `countApprovedPhotos` and `canPublish`, asked only for a listing that is to go live.
abbrev pub may_show : OwnStatus → ℕ → ℕ → Option ListingError
may_show to_active price photos = can_publish price photos
may_show _ price photos = none

unfoldable pub move_and_log : ℕ → ℕ → OwnStatus → Handler
move_and_log user id status v = elim (set_listing_status user id status v.store) [
  | err e ↦ (status_failure e, v)
  | ok (l, t) ↦ (
    sent_200 l,
    audited (record { actor_id = user; action = listing_status status; target_id = id })
        (record v { store = t }),
  )
]

unfoldable pub move_existing : (ℕ → ℕ) → ℕ → ℕ → OwnStatus → Listing → Handler
unfolding move_and_log
move_existing photos user id status existing v =
    if not (existing.seller_id == user)
    then (not_found_404, v)
    else elim (may_show status existing.price_cents (photos id)) [
      | some e ↦ (photos_409 e, v)
      | none ↦ move_and_log user id status v
    ]

unfoldable pub post_status : (ℕ → ℕ) → Option Subject → Option ℕ → Option OwnStatus → Handler
unfolding move_existing
post_status photos subject id body = signed_in subject λ user. parsed id λ listing.
    parsed body λ status v. elim (get_listing user listing v.store) [
      | none ↦ (not_found_404, v)
      | some existing ↦ move_existing photos user listing status existing v
    ]

unfoldable pub delete_and_log : ℕ → ℕ → Handler
delete_and_log user id v = elim (delete_draft_listing user id v.store) [
  | err e ↦ (thrown e, v)
  | ok (removed, t) ↦
      if removed
      then (
        sent_204,
        audited (record { actor_id = user; action = listing_deleted; target_id = id })
            (record v { store = t }),
      )
      else (not_found_404, v)
]

unfoldable pub delete_listing : Option Subject → Option ℕ → Handler
unfolding delete_and_log
delete_listing subject id =
    signed_in subject λ user. parsed id λ listing. delete_and_log user listing
