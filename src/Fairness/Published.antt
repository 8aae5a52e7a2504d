-- ===== src/Fairness/Published.antt =====
-- What was published of a break stays, and what is revealed can be checked (packages/db/src/queries/fairness.ts).
use gundam_tcg_hub.Base.{
  ℕ, ◌≡◌, ◌⊎◌, refl, sym, ap, subst, inl, inr, true, false, Option, none, some, List, [], ◌∷◌,
  length, arith,
}
use gundam_tcg_hub.Fairness.Shuffle.{Signer, shuffled, derive_shuffle}
use gundam_tcg_hub.Fairness.Permutation.{shuffled-IsPermutation}
use gundam_tcg_hub.Fairness.Verify.{
  commitment_for, VerifyInput, derived_input, Verdict, verdict, verify_shuffle, verify_shuffle_iff,
}
use gundam_tcg_hub.Fairness.Break.{
  BreakStatus, Commitment, Break, done, set_break_status, set_client_seed, commit_break,
  server_seed_of, revealed, shuffle_input, reveal_break, trim,
}
use gundam_tcg_hub.Fairness.Actions.{
  Action, starts, ends, commits, seeds, reveals, act, act_all, after_induction, status_done,
  commit_done, seed_done, reveal_done,
}
use gundam_tcg_hub.Fairness.Promise.{IsHonest, Honest}

-- What was published stays: the commitment, the number of slots, and each seed once it is there.
abbrev pub Keeps : Option Commitment → Option Commitment → Type 0
Keeps none d = Unit
Keeps (some c) none = ⊥
Keeps (some c) (some d) =
    (d.commitment ≡ c.commitment)
    × (d.slot_count ≡ c.slot_count)
    × ((c.client_seed ≡ none) ⊎ (d.client_seed ≡ c.client_seed))
    × ((c.revealed_seed ≡ none) ⊎ (d.revealed_seed ≡ c.revealed_seed))

Keeps-refl : (o : Option Commitment) → Keeps o o
Keeps-refl none = tt
Keeps-refl (some c) = (refl, refl, inr refl, inr refl)

Keeps-trans : (o p q : Option Commitment) → Keeps o p → Keeps p q → Keeps o q
Keeps-trans none p q h k = tt
Keeps-trans (some c) none q h k = absurd h
Keeps-trans (some c) (some d) none h k = absurd k
Keeps-trans (some c) (some d) (some e) h k = ground arith

Keeps-seeded :
    (c : Commitment) (text : List ℕ)
    → c.client_seed ≡ none
    → Keeps (some c) (some (record c { client_seed = some text }))
Keeps-seeded c text n = (refl, refl, inl n, inr refl)

Keeps-revealed :
    (c : Commitment) (seed : List ℕ) (at : ℕ) → Keeps (some c) (some (revealed seed at c))
Keeps-revealed c seed at = ground arith

-- What anybody can check once a break is revealed.
abbrev pub checks : Break → Commitment → List ℕ → List ℕ → List ℕ → VerifyInput
checks b x client seed order = record {
  server_seed = seed;
  client_seed = client;
  break_id = b.id;
  commitment = x.commitment;
  claimed_order = order;
}

module _ (sha256_hex : List ℕ → List ℕ) (encrypt : List ℕ → List ℕ)
    (decrypt : List ℕ → Option (List ℕ)) (sign : Signer) (fuel : ℕ) where
  abbrev Kept : Break → Break → Type 0
  Kept b c = Keeps b.committed c.committed

  act-Keeps : (a : Action) (b : Break) → Kept b (act sha256_hex encrypt decrypt sign fuel a b)
  unfolding act
  act-Keeps (starts user) b =
      after_induction (Kept b) b (set_break_status user true b) (Keeps-refl b.committed) λ u c e.
        subst (Keeps b.committed) (sym (status_done user true b c e).0) (Keeps-refl b.committed)
  act-Keeps (ends user) b =
      after_induction (Kept b) b (set_break_status user false b) (Keeps-refl b.committed) λ u c e.
        subst (Keeps b.committed) (sym (status_done user false b c e).0) (Keeps-refl b.committed)
  act-Keeps (commits user seed slots) b =
      after_induction (Kept b) b (commit_break sha256_hex encrypt user seed slots b)
        (Keeps-refl b.committed)
        λ u c e.
          let (free, _, _) =
            commit_done sha256_hex encrypt decrypt sign fuel user seed slots b c e in
          subst (λ o. Keeps o c.committed) (sym free) tt
  act-Keeps (seeds user text) b =
      after_induction (Kept b) b (set_client_seed user text b) (Keeps-refl b.committed) λ u c e.
        let (x, found, none_yet, _, made) = seed_done user text b c e in
        subst (λ o. Keeps o c.committed) (sym found)
          (subst (Keeps (some x)) (sym made) (Keeps-seeded x (trim text) none_yet))
  act-Keeps (reveals user) b =
      after_induction (Kept b) b (reveal_break decrypt sign fuel user b) (Keeps-refl b.committed)
        λ order c e.
          let (x, client, seed, (found, _, _, _, _, left)) =
            reveal_done sha256_hex encrypt decrypt sign fuel user b order c e in
          subst (λ o. Keeps o c.committed) (sym found)
            (subst (λ d. Keeps (some x) d.committed) (sym left) (Keeps-revealed x seed b.clock))

  -- Nobody takes back what was published: whatever actions follow, a commitment stays with its number
  -- of slots, an audience's seed that is recorded stays, and so does a revealed seed.
  pub act_all-Keeps :
      (actions : List Action) (b : Break)
      → Keeps b.committed (act_all sha256_hex encrypt decrypt sign fuel actions b).committed
  unfolding act_all
  act_all-Keeps [] b = Keeps-refl b.committed
  act_all-Keeps (a ∷ actions) b =
      let c = act sha256_hex encrypt decrypt sign fuel a b in
      let d = act_all sha256_hex encrypt decrypt sign fuel actions c in
      Keeps-trans b.committed c.committed d.committed (act-Keeps a b) (act_all-Keeps actions c)

  opened :
      (status : BreakStatus) (x : Commitment) (seed : List ℕ) (at : ℕ)
      → ((text : List ℕ) → decrypt (encrypt text) ≡ some text)
      → Honest sha256_hex encrypt decrypt sign fuel status (some x)
      → server_seed_of decrypt sign x ≡ some seed
      → (revealed seed at x).commitment ≡ commitment_for sha256_hex seed
  unfolding server_seed_of
  opened status x seed at opens (s, a, b, inl e) g =
      let same : seed ≡ s = ground (arith, opens s) in ground arith
  opened status x seed at opens (s, a, b, inr (e, _, _)) g = ground arith

  shown :
      (x : Commitment) (seed : List ℕ) (at : ℕ)
      → server_seed_of decrypt sign x ≡ some seed
      → (revealed seed at x).revealed_seed ≡ some seed
  unfolding server_seed_of
  shown x seed at g = ground arith

  same_shuffle :
      (n : ℕ) (b c : Break) (x : Commitment) (client seed order : List ℕ)
      → c.id ≡ b.id
      → length order ≡ x.slot_count
      → derive_shuffle sign n (shuffle_input b x seed client) ≡ shuffled order
      → derive_shuffle sign n (record {
        server_seed = seed;
        client_seed = client;
        break_id = c.id;
        count = length order;
      })
        ≡ shuffled order
  same_shuffle n b c x client seed order i l h = rw (i, l) h

  -- A reveal that is not refused publishes a seed with which anybody's check of the commitment, the
  -- audience's seed and the order that it returns succeeds. The break was honest, and decryption undoes
  -- encryption.
  pub reveal_verifies :
      (user : ℕ) (b c : Break) (order : List ℕ)
      → ((text : List ℕ) → decrypt (encrypt text) ≡ some text)
      → IsHonest sha256_hex encrypt decrypt sign fuel b
      → reveal_break decrypt sign fuel user b ≡ done order c
      → (x : Commitment) × (client : List ℕ) × (seed : List ℕ) × (c.committed ≡ some x)
        × (x.client_seed ≡ some client)
        × (x.revealed_seed ≡ some seed)
        × ((v : Verdict) × (verify_shuffle sha256_hex sign fuel (checks c x client seed order)
              ≡ verdict v)
            × (v.valid ≡ true))
  reveal_verifies user b c order opens h e =
      let (x, client, seed, (found, f, st, g, made, left)) =
        reveal_done sha256_hex encrypt decrypt sign fuel user b order c e in
      let y = revealed seed b.clock x in
      let promise = subst (Honest sha256_hex encrypt decrypt sign fuel b.status) found h in
      let same_id : c.id ≡ b.id = ap (λ d. d.id) left in
      let size =
        (shuffled-IsPermutation sign fuel (shuffle_input b x seed client) order made).size in
      let derived : derive_shuffle sign fuel (derived_input (checks c y client seed order))
          ≡ shuffled order =
        same_shuffle fuel b c x client seed order same_id size made in
      (
        y,
        client,
        seed,
        ap (λ d. d.committed) left,
        ground arith,
        shown x seed b.clock g,
        (verify_shuffle_iff sha256_hex sign fuel (checks c y client seed order)).1
            (sym (opened b.status x seed b.clock opens promise g), derived),
      )
