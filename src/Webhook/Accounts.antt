-- ===== src/Webhook/Accounts.antt =====
-- The handler of the account events (`handleV2` of apps/api/src/routes/stripe-webhook.ts, and
-- `updateSellerCapabilities` of packages/db/src/queries/sellers.ts). What Stripe answers about an
-- account is a parameter: `none` is a call that fails.
use gundam_tcg_hub.Base.{ℕ, Bool, true, false, Option, none, some, if◌then◌else◌}
use gundam_tcg_hub.Base.Table.{find, write}
use gundam_tcg_hub.Webhook.State.{
  Capability, active, AccountStatus, SellerAccount, reply, broke, unreachable, Hook, return, ◌>>=◌,
  write_audit_log, seller_enabled, seller_disabled,
}

pub data RelatedType : Type 0 where
  v2_core_account another_object : RelatedType

pub record V2Event : Type 0 where
  pub id : ℕ
  pub event_type : ℕ
  pub related_object_id : Option ℕ
  pub related_object_type : RelatedType

abbrev pub is_active : Capability → Bool
is_active active = true
is_active _ = false

abbrev pub set_capabilities : Bool → Bool → ℕ → SellerAccount → SellerAccount
set_capabilities charges payouts at a = record a {
  charges_enabled = charges;
  payouts_enabled = payouts;
  updated_at = at;
}

-- True where there is a row for the account.
unfoldable pub update_seller_capabilities : ℕ → Bool → Bool → Hook Bool
update_seller_capabilities account charges payouts w = elim (find account w.accounts) [
  | none ↦ reply false w
  | some a ↦ reply true (record w {
    accounts = write account (set_capabilities charges payouts w.store.clock a) w.accounts;
  })
]

unfoldable pub record_status : ℕ → AccountStatus → Hook (Unit {0})
unfolding update_seller_capabilities
record_status account status = do
  updated ←
      update_seller_capabilities account (is_active status.transfers) (is_active status.payouts)
  if updated
      then write_audit_log (
          if is_active status.transfers
          then seller_enabled account status
          else seller_disabled account status)
      else return tt

module _ (get_account_status : ℕ → Option AccountStatus) where
  abbrev account_changed : ℕ → Hook (Unit {0})
  account_changed account w = elim (get_account_status account) [
    | none ↦ broke unreachable
    | some status ↦ record_status account status w
  ]

  unfoldable pub handle_v2 : V2Event → Hook (Unit {0})
  unfolding record_status
  handle_v2 event = elim event.related_object_type [
    | another_object ↦ return tt
    | v2_core_account ↦ elim event.related_object_id [
      | none ↦ return tt
      | some account ↦ account_changed account
    ]
  ]
