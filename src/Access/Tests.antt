-- ===== src/Access/Tests.antt =====
-- Runs of the access rules, and the theorems about them at concrete inputs.
use gundam_tcg_hub.Base.{
  ℕ, ◌+◌, ◌<◌, ◌≡◌, ◌↔◌, refl, true, false, List, [], ◌∷◌, min, none, some, arith,
}
use gundam_tcg_hub.Base.Table.{find}
use gundam_tcg_hub.Access.Authorize.{
  Subject, creator, passkey, magic_link, break_write, can, belongs, tier, Owns, can_iff,
}
use gundam_tcg_hub.Access.StepUp.{passkey_required, require_admin_step_up}
use gundam_tcg_hub.Access.Limiter.{Entry, Seen, LimitOptions, take}
use gundam_tcg_hub.Access.Eviction.{
  Request, let_through, times_of, window_allowance, renewed_is_evicted,
}

abbrev breaker : Subject
breaker = record {
  user_id = 7;
  role = creator;
  authenticated_at = some 1000;
  auth_method = some passkey;
}

not_someone_elses : can (some breaker) break_write (some 8) ≡ false
unfolding can
not_someone_elses = refl

-- A breaker without a resource, as the routes ask.
can_iff_example : (can (some breaker) break_write none ≡ true) ↔ (
    (t : Subject) × (some breaker ≡ some t)
    × (belongs t.role (tier break_write) ≡ true)
    × Owns t none)
can_iff_example = can_iff (some breaker) break_write none

by_mail :
    require_admin_step_up (some (record breaker { auth_method = some magic_link })) 43200000 2000
    ≡ passkey_required
unfolding require_admin_step_up
by_mail = refl

abbrev two_a_minute : LimitOptions
two_a_minute = record { max = 2; window_ms = 60000; max_entries = 3 }

abbrev asked : Entry
asked = record { count = 2; reset_at = 500 }

abbrev full : Seen
full = (4, asked) ∷ (5, asked) ∷ (6, asked) ∷ []

-- The third request of address 1 within its minute is refused.
abbrev requests : List Request
requests = (1, 10) ∷ (1, 20) ∷ (1, 30) ∷ []

window_allowance_example : let_through two_a_minute 1 requests [] ≡ min 3 2
unfolding times_of find
window_allowance_example =
    window_allowance two_a_minute 1 10 (20 ∷ 30 ∷ []) requests [] (omega arith) (omega arith) refl
      refl (omega arith)

abbrev older : Seen
older = (2, record { count = 1; reset_at = 60500 }) ∷ []

renewed_is_evicted_example :
    let renewed = (take two_a_minute 1000 1 ((1, asked) ∷ older)).1 in
    let filled = (take two_a_minute 2000 3 renewed).1 in
    let left = (take two_a_minute 2000 4 filled).1 in
    (find 1 renewed ≡ some (record { count = 1; reset_at = 1000 + 60000 }))
    × (find 1 left ≡ none)
    × ((m : ℕ) (f : Entry)
        → find m older ≡ some f
        → (find m left ≡ some f) × (f.reset_at < 1000 + 60000))
unfolding find
renewed_is_evicted_example =
    renewed_is_evicted two_a_minute 1 3 4 1000 2000 asked older refl (omega arith) (omega arith)
      (omega arith) (omega arith) refl refl (omega arith) refl
