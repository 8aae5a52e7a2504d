-- ===== src/Orders/Schema.antt =====
-- The tables that an order lives in (packages/db/src/schema/market.ts): the columns, and the CHECK
-- constraints as Boolean tests of a row. Identifiers and texts that are only stored and compared
-- are numbers, times are milliseconds, and a primary key stands beside its row in the table. Of a
-- text whose length is checked the length is kept. Amounts are not negative, which makes
-- `orders_fee_non_negative` and `orders_tax_non_negative` hold of every row here.
use gundam_tcg_hub.Base.{
  ℕ, Bool, true, false, ◌&&◌, ◌||◌, not, Option, none, some, List, [], ◌∷◌, ◌==◌, ltb, leb, is_some,
  any,
}
use gundam_tcg_hub.Base.Table.{Table}
use gundam_tcg_hub.Order.{
  OrderStatus, created, paid, shipped, delivered, completed, cancelled, disputed, OrderActor,
  stripe, system, same_status,
}

pub record Order : Type 0 where
  pub buyer_id : ℕ
  pub seller_id : ℕ
  pub listing_id : Option ℕ
  pub card_variant_id : ℕ
  pub condition : ℕ
  pub quantity : ℕ
  pub status : OrderStatus
  pub amount_cents : ℕ
  pub fee_cents : ℕ
  pub tax_cents : ℕ
  pub currency : ℕ
  pub stripe_checkout_id : Option ℕ
  pub stripe_payment_intent_id : Option ℕ
  pub tracking_carrier : Option ℕ
  pub tracking_number : Option ℕ
  pub paid_at : Option ℕ
  pub shipped_at : Option ℕ
  pub delivered_at : Option ℕ
  pub completed_at : Option ℕ
  pub created_at : ℕ
  pub updated_at : ℕ

-- A reason that somebody gave.
pub record Text : Type 0 where
  pub code : ℕ
  pub length : ℕ

pub record OrderEvent : Type 0 where
  pub order_id : ℕ
  pub from_status : OrderStatus
  pub to_status : OrderStatus
  pub actor : OrderActor
  pub actor_id : Option ℕ
  pub reason : Option Text
  pub at_time : ℕ

pub data ListingStatus : Type 0 where
  draft active sold withdrawn : ListingStatus

pub record Listing : Type 0 where
  pub seller_id : ℕ
  pub card_variant_id : ℕ
  pub condition : ℕ
  pub price_cents : ℕ
  pub currency : ℕ
  pub quantity : ℕ
  pub status : ListingStatus
  pub photo_required : Bool
  pub notes_length : Option ℕ
  pub created_at : ℕ
  pub updated_at : ℕ

-- The database, and the clock that `new Date()` and `now()` read. Of the users and the card
-- variants only what the queries look at is kept: when an account was created, and which variants
-- there are.
pub record Store : Type 0 where
  pub orders : Table Order
  pub events : List OrderEvent
  pub listings : Table Listing
  pub users : Table ℕ
  pub variants : List ℕ
  pub clock : ℕ

abbrev pub one_of : OrderStatus → List OrderStatus → Bool
one_of s statuses = any (same_status s) statuses

-- `orders_paid_has_payment`
unfoldable pub paid_has_payment : Order → Bool
paid_has_payment o =
    one_of o.status (created ∷ cancelled ∷ []) || is_some o.stripe_payment_intent_id

-- `orders_shipped_has_tracking`
unfoldable pub shipped_has_tracking : Order → Bool
shipped_has_tracking o =
    not (one_of o.status (shipped ∷ delivered ∷ completed ∷ []))
    || (is_some o.tracking_carrier && is_some o.tracking_number)

-- The checks on what was agreed: the parties, the amount, the fee and the quantity.
unfoldable pub terms_ok : Order → Bool
terms_ok o =
    not (o.buyer_id == o.seller_id)
    && ltb 0 o.amount_cents
    && leb o.amount_cents 100000000
    && leb o.fee_cents o.amount_cents
    && leb 1 o.quantity

-- The largest number that a column of type `integer` holds.
abbrev pub max_integer : ℕ
max_integer = 2147483647

unfoldable pub columns_fit : Order → Bool
columns_fit o =
    leb o.quantity max_integer
    && leb o.amount_cents max_integer
    && leb o.fee_cents max_integer
    && leb o.tax_cents max_integer

-- The range of the integer columns and the CHECK constraints of `orders`, less the shape of the
-- currency.
unfoldable pub order_checks : Order → Bool
unfolding columns_fit terms_ok paid_has_payment shipped_has_tracking
order_checks o = columns_fit o && (terms_ok o && paid_has_payment o && shipped_has_tracking o)

-- The statuses in which an order holds its listing.
unfoldable pub holds_listing : OrderStatus → Bool
holds_listing s = one_of s (created ∷ paid ∷ shipped ∷ delivered ∷ completed ∷ disputed ∷ [])

abbrev pub both : Option ℕ → Option ℕ → Bool
both (some a) (some b) = a == b
both _ _ = false

-- `orders_one_open_per_listing`: two rows clash if both hold the same listing.
unfoldable pub listing_clash : Order → Order → Bool
listing_clash o p =
    both o.listing_id p.listing_id && holds_listing o.status && holds_listing p.status

-- `orders_checkout_key` and `orders_payment_intent_key`: equal keys clash, nulls never do.
unfoldable pub payment_clash : Order → Order → Bool
payment_clash o p =
    both o.stripe_checkout_id p.stripe_checkout_id
    || both o.stripe_payment_intent_id p.stripe_payment_intent_id

-- `order_events_reason_length`
unfoldable pub reason_ok : Option Text → Bool
reason_ok none = true
reason_ok (some t) = leb t.length 280

-- `order_events_actor_identified`
unfoldable pub actor_identified : OrderActor → Option ℕ → Bool
actor_identified stripe id = not (is_some id)
actor_identified system id = not (is_some id)
actor_identified _ id = true

unfoldable pub event_checks : OrderEvent → Bool
unfolding reason_ok actor_identified
event_checks e = reason_ok e.reason && actor_identified e.actor e.actor_id
