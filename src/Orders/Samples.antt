-- ===== src/Orders/Samples.antt =====
-- A small shop, an order in it and a whole sale, on which the tests run the queries.
use gundam_tcg_hub.Base.{◌≡◌, refl, subst, false, none, some, List, [], ◌∷◌}
use gundam_tcg_hub.Base.Table.{find, insert, any_row}
use gundam_tcg_hub.Order.{created}
use gundam_tcg_hub.Orders.Schema.{Order, Store, Listing, ListingStatus, order_checks}
use gundam_tcg_hub.Orders.Db.{refusal, sees, select_order}
use gundam_tcg_hub.Orders.Queries.{create_order, CreateOrderInput, by_system}
use gundam_tcg_hub.Orders.Payments.{OrderPaidInput}
use gundam_tcg_hub.Orders.Calls.{
  Call, creates, ships, pays, delivers, completes, waits, perform, perform_all,
}
use gundam_tcg_hub.Orders.History.{IsConsistent, mentions, perform_all-IsConsistent}
use gundam_tcg_hub.Orders.Constraints.{IsSound, perform_all-IsSound}

-- User 1 buys, user 2 sells the card variant 5 by listing 7.
abbrev pub card : Listing
card = record {
  seller_id = 2;
  card_variant_id = 5;
  condition = 0;
  price_cents = 1250;
  currency = 840;
  quantity = 1;
  status = ListingStatus.active;
  photo_required = false;
  notes_length = none;
  created_at = 10;
  updated_at = 10;
}

abbrev pub shop : Store
shop = record {
  orders = [];
  events = [];
  listings = (7, card) ∷ [];
  users = (1, 0) ∷ (2, 0) ∷ [];
  variants = 5 ∷ [];
  clock = 1000;
}

abbrev pub purchase : CreateOrderInput
purchase = record {
  seller_id = 2;
  listing_id = 7;
  card_variant_id = 5;
  condition = 0;
  quantity = 1;
  amount_cents = 1250;
  fee_cents = 63;
  currency = 840;
}

abbrev pub payment : OrderPaidInput
payment = record {
  order_id = 30;
  payment_intent_id = 900;
  checkout_session_id = 800;
  tax_cents = some 100;
}

abbrev pub sale : List Call
sale =
    creates 30 1 purchase
    ∷ pays payment
    ∷ ships 2 30 11 12
    ∷ waits 5
    ∷ delivers 30 by_system none none
    ∷ completes 30 by_system none none
    ∷ []

-- The sale up to the delivery.
abbrev pub arrival : List Call
arrival =
    creates 30 1 purchase
    ∷ pays payment
    ∷ ships 2 30 11 12
    ∷ waits 5
    ∷ delivers 30 by_system none none
    ∷ []

pub shop-IsConsistent : IsConsistent shop
unfolding find mentions
shop-IsConsistent = record { replays = λ id o e. cc; known = λ id e. refl }

pub shop-IsSound : IsSound shop
unfolding find
shop-IsSound = record {
  keys = tt;
  checked = λ id o e. cc;
  one_holder = λ j k o p e. cc;
  one_payment = λ j k o p e. cc;
}

-- The order as the buyer has opened it, and the store that it is in.
abbrev pub ordered : Order
ordered = record {
  buyer_id = 1;
  seller_id = 2;
  listing_id = some 7;
  card_variant_id = 5;
  condition = 0;
  quantity = 1;
  status = created;
  amount_cents = 1250;
  fee_cents = 63;
  tax_cents = 0;
  currency = 840;
  stripe_checkout_id = none;
  stripe_payment_intent_id = none;
  tracking_carrier = none;
  tracking_number = none;
  paid_at = none;
  shipped_at = none;
  delivered_at = none;
  completed_at = none;
  created_at = 1000;
  updated_at = 1000;
}

abbrev pub opened_shop : Store
opened_shop = record shop { orders = (30, ordered) ∷ [] }

pub opening : perform_all (creates 30 1 purchase ∷ []) shop ≡ opened_shop
unfolding perform_all perform create_order select_order find insert any_row order_checks refusal
    sees
opening = refl

pub opened_shop-IsSound : IsSound opened_shop
opened_shop-IsSound =
    subst IsSound opening (perform_all-IsSound (creates 30 1 purchase ∷ []) shop shop-IsSound)

pub opened_shop-IsConsistent : IsConsistent opened_shop
opened_shop-IsConsistent =
    subst IsConsistent opening
      (perform_all-IsConsistent (creates 30 1 purchase ∷ []) shop shop-IsConsistent)
