-- ===== src/Listings/Queries.antt =====
-- The queries on listings that write (packages/db/src/queries/market.ts), on the tables of Orders.Schema, for a session that
-- `asUser` has named. The policies are those of the migrations 0041 and 0042. A draft's numbers are integers.
use gundam_tcg_hub.Base.{
  ℕ, Bool, true, false, ◌&&◌, ◌||◌, not, Option, none, some, [], ◌∷◌, ◌==◌, ltb, leb, if◌then◌else◌,
  is_some, get_or, same_option, any, length,
}
use gundam_tcg_hub.Base.Int.{pos_part}
use gundam_tcg_hub.Base.Table.{Table, find, insert, write, select_rows}
use gundam_tcg_hub.Rules.Listing.{ListingDraft, validate_listing, photos_required_for}
use gundam_tcg_hub.Orders.Schema.{Order, Listing, ListingStatus, Store}
use gundam_tcg_hub.Orders.Db.{
  Db, pg, listing_rule, listing_not_found, missing_card, ok, err, pure, or_throw, ◌>>=◌, ◌>>◌, now,
  listings_pkey, unique_violation, check_violation, insufficient_privilege,
}

-- The CHECK constraints of `listings`, less the shape of the currency.
unfoldable pub listing_checks : Listing → Bool
listing_checks l =
    ltb 0 l.price_cents
    && leb l.price_cents 100000000
    && leb 1 l.quantity
    && leb l.quantity 999
    && leb (get_or l.notes_length 0) 500

abbrev pub is_sold : ListingStatus → Bool
is_sold ListingStatus.sold = true
is_sold _ = false

abbrev pub is_draft : ListingStatus → Bool
is_draft ListingStatus.draft = true
is_draft _ = false

-- `listings_update_own`, its WITH CHECK part (migration 0042).
unfoldable pub may_write_listing : ℕ → Listing → Bool
may_write_listing user l = (l.seller_id == user) && not (is_sold l.status)

-- `update(listings).set(…).where(and(eq(listings.id, id), eq(listings.sellerId, user))).returning()`. The
-- USING part of the policy asks the same of the row as the statement does.
unfoldable pub update_own : ℕ → ℕ → (Listing → Listing) → Db (Option Listing)
unfolding may_write_listing
update_own user id set_columns s = elim (find id s.listings) [
  | none ↦ ok (none, s)
  | some l ↦
      if not (l.seller_id == user)
      then ok (none, s)
      else if not (may_write_listing user (set_columns l))
      then err (pg insufficient_privilege)
      else if not (listing_checks (set_columns l))
      then err (pg check_violation)
      else ok (some (set_columns l), record s { listings = write id (set_columns l) s.listings })
]

-- `validateListing`, which throws.
abbrev pub valid : ListingDraft → Db (Unit {0})
valid d s = elim (validate_listing d) [ none ↦ ok (tt, s) | some e ↦ err (listing_rule e) ]

pub record CreateListingInput : Type 0 where
  pub draft : ListingDraft
  pub card_variant_id : ℕ
  pub condition : ℕ
  pub currency : Option ℕ

abbrev pub new_listing : ℕ → CreateListingInput → ℕ → ℕ → Listing
new_listing seller_id input default_currency at = record {
  seller_id = seller_id;
  card_variant_id = input.card_variant_id;
  condition = input.condition;
  price_cents = pos_part input.draft.price_cents;
  currency = get_or input.currency default_currency;
  quantity = pos_part input.draft.quantity;
  status = ListingStatus.draft;
  photo_required = photos_required_for (pos_part input.draft.price_cents);
  notes_length = input.draft.notes_length;
  created_at = at;
  updated_at = at;
}

-- The INSERT. The key is what `gen_random_uuid()` has drawn; `listings_insert_own` holds of a row that the session's user
-- sells. A foreign key that fails is a missing card.
unfoldable pub insert_listing : ℕ → Listing → Db (Unit {0})
insert_listing id l s =
    if not (listing_checks l)
    then err (pg check_violation)
    else if is_some (find id s.listings)
    then err (pg (unique_violation listings_pkey))
    else if not
        (is_some (find l.seller_id s.users) && any (λ (v : ℕ). v == l.card_variant_id) s.variants)
    then err missing_card
    else ok (tt, record s { listings = insert id l s.listings })

-- The currency that the column takes where none is given.
abbrev pub usd : ℕ
usd = 840

unfoldable pub create_listing : ℕ → ℕ → CreateListingInput → Db Listing
unfolding insert_listing
create_listing id seller_id input = do
  valid input.draft
  at ← now
  insert_listing id (new_listing seller_id input usd at)
  pure (new_listing seller_id input usd at)

pub record UpdateListingInput : Type 0 where
  pub draft : ListingDraft
  pub condition : Option ℕ

abbrev pub updated_columns : UpdateListingInput → ℕ → Listing → Listing
updated_columns input at l = record l {
  price_cents = pos_part input.draft.price_cents;
  quantity = pos_part input.draft.quantity;
  notes_length = input.draft.notes_length;
  condition = get_or input.condition l.condition;
  photo_required = photos_required_for (pos_part input.draft.price_cents);
  updated_at = at;
}

unfoldable pub update_listing : ℕ → ℕ → UpdateListingInput → Db Listing
unfolding update_own
update_listing seller_id id input = do
  valid input.draft
  at ← now
  row ← update_own seller_id id (updated_columns input at)
  or_throw row listing_not_found

-- The type of the parameter leaves `sold` out.
pub data OwnStatus : Type 0 where
  to_draft to_active to_withdrawn : OwnStatus

abbrev pub status_of : OwnStatus → ListingStatus
status_of to_draft = ListingStatus.draft
status_of to_active = ListingStatus.active
status_of to_withdrawn = ListingStatus.withdrawn

abbrev pub status_columns : OwnStatus → ℕ → Listing → Listing
status_columns status at l = record l { status = status_of status; updated_at = at }

unfoldable pub set_listing_status : ℕ → ℕ → OwnStatus → Db Listing
unfolding update_own
set_listing_status seller_id id status = do
  at ← now
  row ← update_own seller_id id (status_columns status at)
  or_throw row listing_not_found

-- `ON DELETE SET NULL` of `orders.listing_id`.
abbrev pub without_listing : ℕ → Order → Order
without_listing id o =
    if same_option o.listing_id (some id) then record o { listing_id = none } else o

unfoldable pub forget_listing : ℕ → Table Order → Table Order
forget_listing id [] = []
forget_listing id ((j, o) ∷ t) = (j, without_listing id o) ∷ forget_listing id t

-- The row with this key goes.
unfoldable pub remove : ℕ → Table Listing → Table Listing
remove id [] = []
remove id ((j, l) ∷ t) = if j == id then t else (j, l) ∷ remove id t

unfoldable pub delete_draft_listing : ℕ → ℕ → Db Bool
unfolding forget_listing remove
delete_draft_listing seller_id id s = elim (find id s.listings) [
  | none ↦ ok (false, s)
  | some l ↦
      if (l.seller_id == seller_id) && is_draft l.status
      then ok
          (true, record s { listings = remove id s.listings; orders = forget_listing id s.orders })
      else ok (false, s)
]

unfoldable pub count_seller_listings_since : ℕ → ℕ → Store → ℕ
count_seller_listings_since seller_id since s = length (
    select_rows (λ (k : ℕ) (l : Listing). (l.seller_id == seller_id) && leb since l.created_at)
      s.listings)

-- `getListing` for a session: an active listing, or one's own.
abbrev pub is_active : ListingStatus → Bool
is_active ListingStatus.active = true
is_active _ = false

unfoldable pub sees_listing : ℕ → Listing → Bool
sees_listing user l = is_active l.status || (l.seller_id == user)

unfoldable pub get_listing : ℕ → ℕ → Store → Option Listing
unfolding sees_listing
get_listing viewer id s = elim (find id s.listings) [
  | none ↦ none
  | some l ↦ if sees_listing viewer l then some l else none
]
