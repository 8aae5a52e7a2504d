-- ===== src/Fairness/Actions.antt =====
-- What users do with a break, and what each action that is not refused has found and left (packages/db/src/queries/fairness.ts).
use gundam_tcg_hub.Base.{
  ℕ, ◌≡◌, ◌⊎◌, refl, inl, inr, Bool, true, false, Option, none, some, List, [], ◌∷◌, arith,
  Option-cases,
}
use gundam_tcg_hub.Fairness.Shuffle.{
  Signer, Shuffled, shuffled, bad_count, seeds_required, out_of_fuel, derive_shuffle,
}
use gundam_tcg_hub.Fairness.Verify.{commitment_for}
use gundam_tcg_hub.Fairness.Break.{
  draft, live, ended, Commitment, Break, Done, done, failed, set_break_status, set_client_seed,
  commit_break, server_seed_of, revealed, publish, shuffle_input, reveal_with, reveal_committed,
  reveal_break, trim,
}

-- What users ask of a break.
pub data Action : Type 0 where
  starts ends : ℕ → Action
  commits : ℕ → List ℕ → ℕ → Action
  seeds : ℕ → List ℕ → Action
  reveals : ℕ → Action

-- A refused action leaves the break as it was.
abbrev pub after : {A : Type 0} → Break → Done A → Break
after b (done _ c) = c
after b (failed _) = b

pub after_induction :
    {A : Type 0} (P : Break → Type 0) (b : Break) (r : Done A)
    → P b
    → ((a : A) (c : Break) → r ≡ done a c → P c)
    → P (after b r)
after_induction P b (done a c) p h = h a c refl
after_induction P b (failed e) p h = p

-- What each action that is not refused has found and left.
pub status_done :
    (user : ℕ) (to_live : Bool) (b c : Break)
    → set_break_status user to_live b ≡ done tt c
    → (c.committed ≡ b.committed)
      × (((b.status ≡ draft) × (c.status ≡ live)) ⊎ ((b.status ≡ live) × (c.status ≡ ended)))
unfolding set_break_status
status_done user to_live b c h = ground arith

pub seed_done :
    (user : ℕ) (text : List ℕ) (b c : Break)
    → set_client_seed user text b ≡ done tt c
    → (x : Commitment) × (b.committed ≡ some x)
      × (x.client_seed ≡ none)
      × (c.status ≡ b.status)
      × (c.committed ≡ some (record x { client_seed = some (trim text) }))
unfolding set_client_seed
seed_done user text b c h = elim (Option-cases b.committed) [
  | inl e ↦ ground arith
  | inr (x, e) ↦ (x, e, ground arith, ground arith, ground arith)
]

publish_done :
    (b : Break) (x : Commitment) (seed : List ℕ) (r : Shuffled) (order : List ℕ) (c : Break)
    → publish b x seed r ≡ done order c
    → (r ≡ shuffled order) × (c ≡ record b { committed = some (revealed seed b.clock x) })
unfolding publish
publish_done b x seed (shuffled o) order c h = ground arith
publish_done b x seed bad_count order c h = ground arith
publish_done b x seed seeds_required order c h = ground arith
publish_done b x seed out_of_fuel order c h = ground arith

module _ (sha256_hex : List ℕ → List ℕ) (encrypt : List ℕ → List ℕ)
    (decrypt : List ℕ → Option (List ℕ)) (sign : Signer) (fuel : ℕ) where
  unfoldable pub act : Action → Break → Break
  act (starts user) b = after b (set_break_status user true b)
  act (ends user) b = after b (set_break_status user false b)
  act (commits user seed slots) b = after b (commit_break sha256_hex encrypt user seed slots b)
  act (seeds user text) b = after b (set_client_seed user text b)
  act (reveals user) b = after b (reveal_break decrypt sign fuel user b)

  unfoldable pub act_all : List Action → Break → Break
  act_all [] b = b
  act_all (a ∷ actions) b = act_all actions (act a b)

  abbrev pub fresh : List ℕ → ℕ → ℕ → Commitment
  fresh seed slots at = record {
    commitment = commitment_for sha256_hex seed;
    server_seed_encrypted = encrypt seed;
    client_seed = none;
    revealed_seed = none;
    slot_count = slots;
    committed_at = at;
    revealed_at = none;
  }

  pub commit_done :
      (user : ℕ) (seed : List ℕ) (slots : ℕ) (b c : Break)
      → commit_break sha256_hex encrypt user seed slots b ≡ done tt c
      → (b.committed ≡ none)
        × (c.status ≡ b.status)
        × (c.committed ≡ some (fresh seed slots b.clock))
  unfolding commit_break
  commit_done user seed slots b c h = ground arith

  -- A reveal that is not refused: the commitment, the audience's seed, and the seed that is opened.
  abbrev pub Revealed : Break → List ℕ → Break → Commitment → List ℕ → List ℕ → Type 0
  Revealed b order c x client seed =
      (b.committed ≡ some x)
      × (x.client_seed ≡ some client)
      × (b.status ≡ ended)
      × (server_seed_of decrypt sign x ≡ some seed)
      × (derive_shuffle sign fuel (shuffle_input b x seed client) ≡ shuffled order)
      × (c ≡ record b { committed = some (revealed seed b.clock x) })

  pub reveal_done :
      (user : ℕ) (b : Break) (order : List ℕ) (c : Break)
      → reveal_break decrypt sign fuel user b ≡ done order c
      → (x : Commitment) × (client : List ℕ) × (seed : List ℕ) × Revealed b order c x client seed
  unfolding reveal_break reveal_committed reveal_with
  reveal_done user b order c h = elim (Option-cases b.committed) [
    | inl e ↦ ground arith
    | inr (x, e) ↦ elim (Option-cases x.client_seed) [
      | inl f ↦ ground arith
      | inr (client, f) ↦ elim (Option-cases (server_seed_of decrypt sign x)) [
        | inl g ↦ ground arith
        | inr (seed, g) ↦
            let r = derive_shuffle sign fuel (shuffle_input b x seed client) in
            let (made, left) = publish_done b x seed r order c (ground arith) in
            (x, client, seed, (e, f, ground arith, g, made, left))
      ]
    ]
  ]
