-- ===== src/Rules/Listing.antt =====
-- The rules a listing has to satisfy before anybody can buy it (packages/core/src/market.ts). A number
-- that reaches the functions is an integer, positive or negative: `Number.isInteger` holds of it.
use gundam_tcg_hub.Base.{ℕ, Bool, ◌&&◌, ◌||◌, Option, none, some, ltb, ◌==◌, if◌then◌else◌, get_or}
use gundam_tcg_hub.Base.Int.{ℤ, pos, ltb_ℤ, leb_ℤ}

abbrev pub photo_required_above_cents : ℕ
photo_required_above_cents = 2500

abbrev pub max_listing_price_cents : ℕ
max_listing_price_cents = 100000000

abbrev pub max_listing_quantity : ℕ
max_listing_quantity = 999

unfoldable pub photos_required_for : ℕ → Bool
photos_required_for price_cents = ltb photo_required_above_cents price_cents

pub data ListingError : Type 0 where
  price_out_of_range quantity_out_of_range notes_too_long photos_required : ListingError

-- Of the notes only their length counts; `none` is a draft without notes.
pub record ListingDraft : Type 0 where
  pub price_cents : ℤ
  pub quantity : ℤ
  pub notes_length : Option ℕ

-- `none` is a return without an exception.
unfoldable pub validate_listing : ListingDraft → Option ListingError
validate_listing d =
    if leb_ℤ d.price_cents (pos 0) || ltb_ℤ (pos max_listing_price_cents) d.price_cents
    then some price_out_of_range
    else if ltb_ℤ d.quantity (pos 1) || ltb_ℤ (pos max_listing_quantity) d.quantity
    then some quantity_out_of_range
    else if ltb 500 (get_or d.notes_length 0)
    then some notes_too_long
    else none

unfoldable pub can_publish : ℕ → ℕ → Option ListingError
unfolding photos_required_for
can_publish price_cents photo_count =
    if photos_required_for price_cents && (photo_count == 0) then some photos_required else none
