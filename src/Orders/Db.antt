-- ===== src/Orders/Db.antt =====
-- Transactions on the store, and the statements that the order queries run: what row-level security
-- shows and accepts (migrations 0041 and 0043), and what the constraints refuse. A transaction that
-- ends in an error leaves no trace, so an error carries no store. `for update` makes transactions
-- on one order wait for one another: here each runs alone.
use gundam_tcg_hub.Base.{
  ℕ, Bool, true, false, ◌&&◌, ◌||◌, not, Option, none, some, [], ◌∷◌, ◌++◌, ◌==◌, if◌then◌else◌,
  is_some,
}
use gundam_tcg_hub.Base.Table.{Table, find, write, any_row}
use gundam_tcg_hub.Order.{OrderStatus, created, shipped, cancelled, disputed, OrderActor, Reason}
use gundam_tcg_hub.Rules.Listing.{ListingError}
use gundam_tcg_hub.Orders.Schema.{
  Order, OrderEvent, Listing, ListingStatus, Store, columns_fit, order_checks, event_checks,
  listing_clash, payment_clash, one_of,
}

-- The constraint that a unique violation names.
pub data UniqueIndex : Type 0 where
  orders_pkey orders_checkout_key one_open_per_listing listings_pkey : UniqueIndex

-- What Postgres raises, by SQLSTATE.
pub data PgError : Type 0 where
  unique_violation : UniqueIndex → PgError
  foreign_key_violation check_violation insufficient_privilege : PgError
  numeric_value_out_of_range : PgError

pub data Party : Type 0 where
  the_buyer the_seller : Party

pub data Error : Type 0 where
  pg : PgError → Error
  listing_unavailable : Error
  missing_listing : Error
  order_not_found : Error
  wrong_party : Party → Error
  illegal_transition : OrderStatus → OrderStatus → OrderActor → Reason → Error
  vanished : Error
  listing_rule : ListingError → Error
  listing_not_found : Error
  missing_card : Error

pub data Result {ℓ} (A : Type ℓ) : Type ℓ where
  ok : A → Result A
  err : Error → Result A

abbrev pub Db : Type 0 → Type 0
Db A = Store → Result (A × Store)

module _ {A : Type 0} where
  abbrev pub pure : A → Db A
  pure a s = ok (a, s)

  abbrev pub throw : Error → Db A
  throw e s = err e

  -- `if (!row) throw …`
  abbrev pub or_throw : Option A → Error → Db A
  or_throw none e = throw e
  or_throw (some a) e = pure a

infixl 5 ◌>>=◌ ◌>>◌
abbrev pub ◌>>=◌ : {A B : Type 0} → Db A → (A → Db B) → Db B
◌>>=◌ m f s = elim (m s) [ ok (a, t) ↦ f a t | err e ↦ err e ]

abbrev pub ◌>>◌ : {A B : Type 0} → Db A → Db B → Db B
m >> k = m >>= λ _. k

abbrev pub now : Db ℕ
now s = ok (s.clock, s)

abbrev pub throw_if : Bool → Error → Db (Unit {0})
throw_if true e = throw e
throw_if false e = pure tt

-- The connection: a session that `asUser` has named, or the worker.
pub data Role : Type 0 where
  web : ℕ → Role
  worker : Role

abbrev pub is_party : ℕ → Order → Bool
is_party user o = (o.buyer_id == user) || (o.seller_id == user)

-- `orders_select_party`, which is also the USING part of `orders_update_party`.
unfoldable pub sees : Role → Order → Bool
sees (web user) o = is_party user o
sees worker o = true

-- The WITH CHECK part of `orders_update_party`.
unfoldable pub may_write : Role → Order → Bool
may_write (web user) o =
    is_party user o && one_of o.status (created ∷ shipped ∷ cancelled ∷ disputed ∷ [])
may_write worker o = true

unfoldable pub seen : Role → Option Order → Option Order
unfolding sees
seen role none = none
seen role (some o) = if sees role o then some o else none

-- `select().from(orders).where(eq(orders.id, id))`, with or without `for update`.
unfoldable pub select_order : Role → ℕ → Db (Option Order)
unfolding seen
select_order role id s = ok (seen role (find id s.orders), s)

abbrev pub other_row : (Order → Order → Bool) → ℕ → Order → ℕ → Order → Bool
other_row clash id o j p = not (j == id) && clash o p

-- The checks on a row that is about to be written, in the order in which Postgres makes them.
unfoldable pub refusal : ℕ → Order → Store → Option PgError
refusal id o s =
    if not (order_checks o)
    then some (if columns_fit o then check_violation else numeric_value_out_of_range)
    else if any_row (other_row payment_clash id o) s.orders
    then some (unique_violation orders_checkout_key)
    else if any_row (other_row listing_clash id o) s.orders
    then some (unique_violation one_open_per_listing)
    else none

-- The write of a row that was found.
unfoldable pub put_order : Role → ℕ → Order → Db (Option Order)
put_order role id o s =
    if not (may_write role o) then err (pg insufficient_privilege) else elim (refusal id o s) [
      | some e ↦ err (pg e)
      | none ↦ ok (some o, record s { orders = write id o s.orders })
    ]

-- `update(orders).set(…).where(eq(orders.id, id)).returning()`: a row that is not there, or that the
-- policy hides, is not written, and nothing is returned.
unfoldable pub update_order : Role → ℕ → (Order → Order) → Db (Option Order)
unfolding seen put_order
update_order role id set_columns s = elim (seen role (find id s.orders)) [
  | none ↦ ok (none, s)
  | some o ↦ put_order role id (set_columns o) s
]

-- An event may be written about an order that the role sees: `order_events_insert_party` for a
-- session, the foreign key for the worker.
abbrev pub hidden_order : Role → PgError
hidden_order (web _) = insufficient_privilege
hidden_order worker = foreign_key_violation

abbrev pub known_user : Option ℕ → Table ℕ → Bool
known_user none users = true
known_user (some u) users = is_some (find u users)

unfoldable pub insert_event : Role → OrderEvent → Db (Unit {0})
unfolding seen
insert_event role e s =
    if not (is_some (seen role (find e.order_id s.orders)))
    then err (pg (hidden_order role))
    else if not (event_checks e)
    then err (pg check_violation)
    else if not (known_user e.actor_id s.users)
    then err (pg foreign_key_violation)
    else ok (tt, record s { events = s.events ++ (e ∷ []) })

-- `update(listings).set({ status, updatedAt })` by the worker.
abbrev pub set_sold : ℕ → Listing → Listing
set_sold at l = record l { status = ListingStatus.sold; updated_at = at }

unfoldable pub sell_listing : ℕ → Db (Unit {0})
sell_listing id s = elim (find id s.listings) [
  | none ↦ ok (tt, s)
  | some l ↦ ok (tt, record s { listings = write id (set_sold s.clock l) s.listings })
]
