-- ===== src/Access/Authorize.antt =====
-- The central authorization helper (packages/auth/src/authorize.ts). An identifier of a user is a number.
use gundam_tcg_hub.Base.{
  ℕ, ◌≡◌, refl, Bool, true, false, not, ◌&&◌, ◌==◌, if◌then◌else◌, List, [], ◌∷◌, ◌++◌, Option,
  none, some, arith, any, ◌↔◌, ◌⊎◌,
}

pub data Role : Type 0 where
  user creator seller admin : Role

pub data Action : Type 0 where
  catalog_read catalog_write account_read account_write watch_read watch_write : Action
  collection_read collection_write break_read break_write profile_write : Action
  live_sale_read live_sale_write listing_read listing_write order_read order_write : Action
  admin_access : Action

pub data AuthMethod : Type 0 where
  passkey magic_link discord : AuthMethod

pub record Subject : Type 0 where
  pub user_id : ℕ
  pub role : Role
  pub authenticated_at : Option ℕ
  pub auth_method : Option AuthMethod

-- A place for each action, by which two are compared.
abbrev action_code : Action → ℕ
action_code catalog_read = 0
action_code catalog_write = 1
action_code account_read = 2
action_code account_write = 3
action_code watch_read = 4
action_code watch_write = 5
action_code collection_read = 6
action_code collection_write = 7
action_code break_read = 8
action_code break_write = 9
action_code profile_write = 10
action_code live_sale_read = 11
action_code live_sale_write = 12
action_code listing_read = 13
action_code listing_write = 14
action_code order_read = 15
action_code order_write = 16
action_code admin_access = 17

unfoldable pub same_action : Action → Action → Bool
same_action a b = action_code a == action_code b

unfoldable pub base_actions : List Action
base_actions =
    catalog_read ∷ account_read ∷ account_write ∷ watch_read ∷ watch_write ∷ collection_read
    ∷ collection_write ∷ listing_read ∷ listing_write ∷ order_read ∷ order_write ∷ []

unfoldable pub creator_actions : List Action
creator_actions = break_read ∷ break_write ∷ profile_write ∷ []

unfoldable pub seller_actions : List Action
seller_actions = live_sale_read ∷ live_sale_write ∷ []

-- `ROLE_GRANTS` and `grantsFor`.
unfoldable pub grants_for : Role → List Action
unfolding base_actions creator_actions seller_actions
grants_for user = base_actions
grants_for creator = base_actions ++ (creator_actions ++ seller_actions)
grants_for seller = base_actions ++ seller_actions
grants_for admin =
    base_actions ++ (creator_actions ++ (seller_actions ++ (catalog_write ∷ admin_access ∷ [])))

abbrev pub is_admin : Role → Bool
is_admin admin = true
is_admin _ = false

abbrev pub includes : List Action → Action → Bool
includes actions a = any (same_action a) actions

-- `resource && subject.role !== 'admin' && resource.ownerId !== subject.userId`
abbrev pub foreign_resource : Subject → Option ℕ → Bool
foreign_resource s none = false
foreign_resource s (some owner) = not (is_admin s.role) && not (owner == s.user_id)

-- The resource is given by its owner. A role is one of the four, so the check of `ROLES` passes.
unfoldable pub can : Option Subject → Action → Option ℕ → Bool
unfolding grants_for same_action
can none action resource = false
can (some s) action resource =
    if not (includes (grants_for s.role) action)
    then false
    else if foreign_resource s resource
    then false
    else true

pub data Access : Type 0 where
  allowed : Subject → Access
  forbidden : Action → Access

-- `authorize`, which throws `ForbiddenError`.
unfoldable pub authorize : Option Subject → Action → Option ℕ → Access
unfolding can
authorize none action resource = forbidden action
authorize (some s) action resource =
    if not (can (some s) action resource) then forbidden action else allowed s

-- Whose action it is, told apart from the lists of grants.
pub data Tier : Type 0 where
  everybody sellers creators admins : Tier

abbrev pub tier : Action → Tier
tier catalog_write = admins
tier admin_access = admins
tier break_read = creators
tier break_write = creators
tier profile_write = creators
tier live_sale_read = sellers
tier live_sale_write = sellers
tier other = everybody

-- A creator sells too, and an admin does everything.
abbrev pub belongs : Role → Tier → Bool
belongs admin t = true
belongs creator admins = false
belongs creator other = true
belongs seller sellers = true
belongs seller everybody = true
belongs seller other = false
belongs user everybody = true
belongs user other = false

grants-eq-tier : (r : Role) (a : Action) → includes (grants_for r) a ≡ belongs r (tier a)
unfolding grants_for same_action
grants-eq-tier user a = ground arith
grants-eq-tier creator a = ground arith
grants-eq-tier seller a = ground arith
grants-eq-tier admin a = ground arith

-- A subject may touch a resource that is its own, and an admin touches any; without a resource there is
-- nothing to own.
abbrev pub Owns : Subject → Option ℕ → Type 0
Owns t none = Unit
Owns t (some owner) = (owner ≡ t.user_id) ⊎ (t.role ≡ admin)

-- The action is allowed exactly to a signed-in subject whose role belongs to the action's tier, where no
-- resource is named; where one is, the subject has to be its owner or an admin besides. The tiers: the
-- catalogue and the admin pages are the admin's, breaks and profiles a creator's or an admin's, live
-- sales those of every role but `user`, and all else everybody's.
pub can_iff :
    (s : Option Subject) (a : Action) (resource : Option ℕ)
    → (can s a resource ≡ true)
      ↔ ((t : Subject) × (s ≡ some t) × (belongs t.role (tier a) ≡ true) × Owns t resource)
unfolding can
can_iff none a resource = (λ h. absurd (cc), λ (t, e, _, _). absurd (cc))
can_iff (some s) a none = (
  λ h. (s, refl, ground (arith, grants-eq-tier s.role a), tt),
  λ (t, e, b, c). ground (arith, grants-eq-tier s.role a),
)
can_iff (some s) a (some owner) = (
  λ h. (s, refl, ground (arith, grants-eq-tier s.role a), ground arith),
  λ (t, e, b, c). ground (arith, grants-eq-tier s.role a),
)
