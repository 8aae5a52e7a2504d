-- ===== src/Fairness/Promise.antt =====
-- What commit and reveal promise the audience (packages/db/src/queries/fairness.ts).
use gundam_tcg_hub.Base.{
  ℕ, ◌≡◌, ◌⊎◌, refl, sym, subst, inl, inr, true, false, Option, none, some, is_some, List, [], ◌∷◌,
  arith,
}
use gundam_tcg_hub.Fairness.Shuffle.{Signer}
use gundam_tcg_hub.Fairness.Verify.{commitment_for}
use gundam_tcg_hub.Fairness.Break.{
  BreakStatus, draft, live, ended, Commitment, Break, set_break_status, set_client_seed,
  commit_break, server_seed_of, revealed, reveal_break, trim,
}
use gundam_tcg_hub.Fairness.Actions.{
  Action, starts, ends, commits, seeds, reveals, act, act_all, after_induction, status_done,
  commit_done, seed_done, reveal_done,
}

module _ (sha256_hex : List ℕ → List ℕ) (encrypt : List ℕ → List ℕ)
    (decrypt : List ℕ → Option (List ℕ)) (sign : Signer) (fuel : ℕ) where
  -- A commitment is to the seed that is stored with it, and what is revealed, after the break has ended
  -- and the audience has spoken, is that seed.
  abbrev pub Honest : BreakStatus → Option Commitment → Type 0
  Honest status none = Unit
  Honest status (some c) =
      (seed : List ℕ) × (c.commitment ≡ commitment_for sha256_hex seed)
      × (c.server_seed_encrypted ≡ encrypt seed)
      × ((c.revealed_seed ≡ none)
          ⊎ ((c.revealed_seed ≡ some seed) × (is_some c.client_seed ≡ true) × (status ≡ ended)))

  abbrev pub IsHonest : Break → Type 0
  IsHonest b = Honest b.status b.committed

  Honest-status :
      (o : Option Commitment) (s t : BreakStatus)
      → ((s ≡ draft) × (t ≡ live)) ⊎ ((s ≡ live) × (t ≡ ended))
      → Honest s o
      → Honest t o
  Honest-status none s t m h = tt
  Honest-status (some c) s t m (seed, a, b, inl e) = (seed, a, b, inl e)
  Honest-status (some c) s t m (seed, a, b, inr (e, f, g)) = absurd (ground arith)

  Honest-seeded :
      (s : BreakStatus) (c : Commitment) (text : List ℕ)
      → c.client_seed ≡ none
      → Honest s (some c)
      → Honest s (some (record c { client_seed = some text }))
  Honest-seeded s c text n (seed, a, b, inl e) = (seed, a, b, inl e)
  Honest-seeded s c text n (seed, a, b, inr (e, f, g)) = absurd (ground arith)

  Honest-revealed :
      (c : Commitment) (client seed : List ℕ) (at : ℕ)
      → ((text : List ℕ) → decrypt (encrypt text) ≡ some text)
      → c.client_seed ≡ some client
      → server_seed_of decrypt sign c ≡ some seed
      → Honest ended (some c)
      → Honest ended (some (revealed seed at c))
  unfolding server_seed_of
  Honest-revealed c client seed at opens f g (s, a, b, inl e) =
      let same : seed ≡ s = ground (arith, opens s) in
      (s, ground arith, ground arith, inr (ground arith, ground arith, refl))
  Honest-revealed c client seed at opens f g (s, a, b, inr (e, k, l)) =
      (s, ground arith, ground arith, inr (ground arith, ground arith, refl))

  moved :
      (b c : Break)
      → (c.committed ≡ b.committed)
        × (((b.status ≡ draft) × (c.status ≡ live)) ⊎ ((b.status ≡ live) × (c.status ≡ ended)))
      → IsHonest b
      → IsHonest c
  moved b c (same, m) h =
      subst (λ o. Honest c.status o) (sym same) (Honest-status b.committed b.status c.status m h)

  act-IsHonest :
      (a : Action) (b : Break)
      → ((text : List ℕ) → decrypt (encrypt text) ≡ some text)
      → IsHonest b
      → IsHonest (act sha256_hex encrypt decrypt sign fuel a b)
  unfolding act
  act-IsHonest (starts user) b opens h =
      after_induction IsHonest b (set_break_status user true b) h
        λ u c e. moved b c (status_done user true b c e) h
  act-IsHonest (ends user) b opens h =
      after_induction IsHonest b (set_break_status user false b) h
        λ u c e. moved b c (status_done user false b c e) h
  act-IsHonest (commits user seed slots) b opens h =
      after_induction IsHonest b (commit_break sha256_hex encrypt user seed slots b) h λ u c e.
        let (_, _, made) = commit_done sha256_hex encrypt decrypt sign fuel user seed slots b c e in
        subst (λ o. Honest c.status o) (sym made) (seed, refl, refl, inl refl)
  act-IsHonest (seeds user text) b opens h =
      after_induction IsHonest b (set_client_seed user text b) h λ u c e.
        let (x, found, none_yet, st, made) = seed_done user text b c e in
        subst (λ o. Honest c.status o) (sym made)
          (Honest-seeded c.status x (trim text) none_yet
            (subst (λ s. Honest s (some x)) (sym st) (subst (λ o. Honest b.status o) found h)))
  act-IsHonest (reveals user) b opens h =
      after_induction IsHonest b (reveal_break decrypt sign fuel user b) h λ order c e.
        let (x, client, seed, (found, f, st, g, made, left)) =
          reveal_done sha256_hex encrypt decrypt sign fuel user b order c e in
        subst IsHonest (sym left) (
          subst (λ s. Honest s (some (revealed seed b.clock x))) (sym st)
            (Honest-revealed x client seed b.clock opens f g
              (subst (λ s. Honest s (some x)) st (subst (λ o. Honest b.status o) found h))))

  -- However users start, end, commit to, seed and reveal a break, and whoever they are: the published
  -- commitment is to the seed that is stored encrypted, and a revealed seed is that very seed, shown after
  -- the break has ended and the audience's seed was recorded. Decryption undoes encryption.
  pub act_all-IsHonest :
      (actions : List Action) (b : Break)
      → ((text : List ℕ) → decrypt (encrypt text) ≡ some text)
      → IsHonest b
      → IsHonest (act_all sha256_hex encrypt decrypt sign fuel actions b)
  unfolding act_all
  act_all-IsHonest [] b opens h = h
  act_all-IsHonest (a ∷ actions) b opens h =
      act_all-IsHonest actions (act sha256_hex encrypt decrypt sign fuel a b) opens
        (act-IsHonest a b opens h)
