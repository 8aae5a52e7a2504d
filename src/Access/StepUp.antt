-- ===== src/Access/StepUp.antt =====
-- The step-up for admin actions (packages/auth/src/step-up.ts). Times are milliseconds.
use gundam_tcg_hub.Base.{
  ℕ, ◌+◌, ◌*◌, ◌≤◌, ◌≡◌, ◌↔◌, refl, Bool, true, false, ltb, leb, if◌then◌else◌, Option, none, some,
  arith, Option-cases, inl, inr,
}
use gundam_tcg_hub.Access.Authorize.{Subject, AuthMethod, passkey}

abbrev pub admin_step_up_max_age_ms : ℕ
admin_step_up_max_age_ms = 12 * 60 * 60 * 1000

-- `age < -30_000` is a sign-in more than thirty seconds ahead of the clock.
unfoldable pub is_fresh_session : Option Subject → ℕ → ℕ → Bool
is_fresh_session none max_age now = false
is_fresh_session (some s) max_age now = elim s.authenticated_at [
  | none ↦ false
  | some at ↦ if ltb (now + 30000) at then false else leb now (at + max_age)
]

pub data Gate : Type 0 where
  passed passkey_required : Gate
  step_up_required : ℕ → Gate

unfoldable pub require_fresh_session : Option Subject → ℕ → ℕ → Gate
unfolding is_fresh_session
require_fresh_session s max_age now =
    if is_fresh_session s max_age now then passed else step_up_required max_age

abbrev pub is_passkey : Option AuthMethod → Bool
is_passkey (some passkey) = true
is_passkey _ = false

-- `subject?.authMethod !== 'passkey'`
abbrev pub opened_with_passkey : Option Subject → Bool
opened_with_passkey none = false
opened_with_passkey (some s) = is_passkey s.auth_method

unfoldable pub require_admin_step_up : Option Subject → ℕ → ℕ → Gate
unfolding require_fresh_session
require_admin_step_up s max_age now =
    if opened_with_passkey s then require_fresh_session s max_age now else passkey_required

-- The admin gate opens exactly to a session that a passkey opened at a known time, at most `max_age`
-- ago and at most thirty seconds ahead of the clock.
pub admin_gate_iff :
    (s : Option Subject) (max_age now : ℕ)
    → (require_admin_step_up s max_age now ≡ passed) ↔ (
        (t : Subject) × (at : ℕ) × (s ≡ some t)
        × (t.auth_method ≡ some passkey)
        × (t.authenticated_at ≡ some at)
        × (at ≤ now + 30000)
        × (now ≤ at + max_age))
unfolding require_admin_step_up
admin_gate_iff none max_age now = (λ h. absurd (cc), λ (t, at, e, _, _, _, _). absurd (cc))
admin_gate_iff (some s) max_age now = (
  λ h. elim (Option-cases s.authenticated_at) [
    | inl e ↦ absurd (ground (arith, e))
    | inr (at, e) ↦ (s, at, refl, ground (arith, e), e, ground (arith, e), ground (arith, e))
  ],
  λ (t, at, e, m, a, ahead, old). ground arith,
)
