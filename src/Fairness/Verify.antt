-- ===== src/Fairness/Verify.antt =====
-- Checking a published shuffle (`verifyShuffle` of packages/core/src/fairness.ts). SHA-256 is a
-- parameter, from the characters of a text to those of its digest.
use gundam_tcg_hub.Base.{
  ℕ, ◌≡◌, ◌≢◌, ◌⊎◌, ◌↔◌, refl, sym, ap, ◌∙◌, Bool, true, false, ◌&&◌, ◌==◌, List, [], ◌∷◌, length,
  arith, Bool-cases, inl, inr, ==_iff, ==_refl,
}
use gundam_tcg_hub.Fairness.Shuffle.{
  Signer, ShuffleInput, Shuffled, shuffled, bad_count, seeds_required, out_of_fuel, derive_shuffle,
}

-- `===` on texts, and the comparison of two orders by their lengths and then place by place.
unfoldable pub same_numbers : List ℕ → List ℕ → Bool
same_numbers [] [] = true
same_numbers (x ∷ xs) (y ∷ ys) = (x == y) && same_numbers xs ys
same_numbers _ _ = false

pub same_numbers→eq : (xs ys : List ℕ) → same_numbers xs ys ≡ true → xs ≡ ys
unfolding same_numbers
same_numbers→eq [] [] h = refl
same_numbers→eq [] (y ∷ ys) h = ground arith
same_numbers→eq (x ∷ xs) [] h = ground arith
same_numbers→eq (x ∷ xs) (y ∷ ys) h = ground (arith, same_numbers→eq xs ys, ==_iff x y)

pub same_numbers_refl : (xs : List ℕ) → same_numbers xs xs ≡ true
unfolding same_numbers
same_numbers_refl [] = refl
same_numbers_refl (x ∷ xs) = ground (arith, same_numbers_refl xs, ==_refl x)

pub record VerifyInput : Type 0 where
  pub server_seed : List ℕ
  pub client_seed : List ℕ
  pub break_id : ℕ
  pub commitment : List ℕ
  pub claimed_order : List ℕ

pub record Verdict : Type 0 where
  pub valid : Bool
  pub commitment_matches : Bool
  pub order_matches : Bool

pub data Verification : Type 0 where
  verdict : Verdict → Verification
  thrown : Shuffled → Verification

-- The shuffle that is derived again.
abbrev pub derived_input : VerifyInput → ShuffleInput
derived_input input = record {
  server_seed = input.server_seed;
  client_seed = input.client_seed;
  break_id = input.break_id;
  count = length input.claimed_order;
}

abbrev verdict_of : Bool → Bool → Verdict
verdict_of c o = record { valid = c && o; commitment_matches = c; order_matches = o }

valid_of : Verification → Bool
valid_of (verdict v) = v.valid
valid_of (thrown f) = false

shuffled_order : Shuffled → List ℕ
shuffled_order (shuffled order) = order
shuffled_order _ = []

shuffled_injective : {xs ys : List ℕ} → shuffled xs ≡ shuffled ys → xs ≡ ys
unfolding shuffled_order
shuffled_injective e = ap shuffled_order e

cong_derive :
    (sign : Signer) (fuel : ℕ) (a b : VerifyInput)
    → a.server_seed ≡ b.server_seed
    → a.client_seed ≡ b.client_seed
    → a.break_id ≡ b.break_id
    → length a.claimed_order ≡ length b.claimed_order
    → derive_shuffle sign fuel (derived_input a) ≡ derive_shuffle sign fuel (derived_input b)
cong_derive sign fuel a b s c i n = cc

module _ (sha256_hex : List ℕ → List ℕ) where
  unfoldable pub commitment_for : List ℕ → List ℕ
  commitment_for server_seed = sha256_hex server_seed

module _ (sha256_hex : List ℕ → List ℕ) (sign : Signer) where
  unfoldable pub judged : VerifyInput → Shuffled → Verification
  unfolding commitment_for
  judged input (shuffled derived) = verdict (
      verdict_of (same_numbers (commitment_for sha256_hex input.server_seed) input.commitment)
        (same_numbers derived input.claimed_order))
  judged input failure = thrown failure

  unfoldable pub verify_shuffle : ℕ → VerifyInput → Verification
  unfolding judged
  verify_shuffle fuel input = judged input (derive_shuffle sign fuel (derived_input input))

  -- Two revealed seeds that differ and have one commitment.
  abbrev pub Collision : VerifyInput → VerifyInput → Type 0
  Collision a b =
      (a.server_seed ≢ b.server_seed)
      × (commitment_for sha256_hex a.server_seed ≡ commitment_for sha256_hex b.server_seed)

  judged_parts :
      (input : VerifyInput) (r : Shuffled) (v : Verdict)
      → judged input r ≡ verdict v
      → v.valid ≡ true
      → (commitment_for sha256_hex input.server_seed ≡ input.commitment)
        × (r ≡ shuffled input.claimed_order)
  unfolding judged valid_of
  judged_parts input (shuffled derived) v h valid =
      let c = same_numbers (commitment_for sha256_hex input.server_seed) input.commitment in
      let o = same_numbers derived input.claimed_order in
      let both : c && o ≡ true = ap valid_of h ∙ valid in
      (
        same_numbers→eq (commitment_for sha256_hex input.server_seed) input.commitment
            (ground arith),
        ap shuffled (same_numbers→eq derived input.claimed_order (ground arith)),
      )
  judged_parts input bad_count v h valid = absurd (ground arith)
  judged_parts input seeds_required v h valid = absurd (ground arith)
  judged_parts input out_of_fuel v h valid = absurd (ground arith)

  accepted_parts :
      (fuel : ℕ) (input : VerifyInput) (v : Verdict)
      → verify_shuffle fuel input ≡ verdict v
      → v.valid ≡ true
      → (commitment_for sha256_hex input.server_seed ≡ input.commitment)
        × (derive_shuffle sign fuel (derived_input input) ≡ shuffled input.claimed_order)
  unfolding verify_shuffle
  accepted_parts fuel input v h valid =
      judged_parts input (derive_shuffle sign fuel (derived_input input)) v h valid

  -- A result is valid exactly when the revealed seed has the published commitment and the shuffle that
  -- the seeds derive is the claimed order.
  pub verify_shuffle_iff :
      (fuel : ℕ) (input : VerifyInput)
      → ((v : Verdict) × (verify_shuffle fuel input ≡ verdict v) × (v.valid ≡ true)) ↔ (
          (commitment_for sha256_hex input.server_seed ≡ input.commitment)
          × (derive_shuffle sign fuel (derived_input input) ≡ shuffled input.claimed_order))
  unfolding verify_shuffle judged
  verify_shuffle_iff fuel input = (
    λ (v, h, valid). accepted_parts fuel input v h valid,
    λ (c, d). (
      verdict_of (same_numbers (commitment_for sha256_hex input.server_seed) input.commitment)
          (same_numbers input.claimed_order input.claimed_order),
      ap (judged input) d,
      rw (c, same_numbers_refl input.commitment, same_numbers_refl input.claimed_order) refl,
    ),
  )

  -- Two results that are valid under one commitment, for the same break, audience seed and number of
  -- slots, claim the same order, unless their seeds are two different texts with one digest.
  pub commitment_binds :
      (fuel : ℕ) (a b : VerifyInput) (v w : Verdict)
      → a.commitment ≡ b.commitment
      → a.client_seed ≡ b.client_seed
      → a.break_id ≡ b.break_id
      → length a.claimed_order ≡ length b.claimed_order
      → verify_shuffle fuel a ≡ verdict v
      → v.valid ≡ true
      → verify_shuffle fuel b ≡ verdict w
      → w.valid ≡ true
      → (a.claimed_order ≡ b.claimed_order) ⊎ Collision a b
  commitment_binds fuel a b v w commitment client break count h hv k kw =
      let (c, d) = accepted_parts fuel a v h hv in
      let (c', d') = accepted_parts fuel b w k kw in
      elim (Bool-cases (same_numbers a.server_seed b.server_seed)) [
        | inl e ↦ inl (
            shuffled_injective (
              sym d
              ∙ cong_derive sign fuel a b (same_numbers→eq a.server_seed b.server_seed e) client
                  break count
              ∙ d'))
        | inr e ↦
            inr (
              λ x. absurd (ground (arith, same_numbers_refl b.server_seed)),
              c ∙ commitment ∙ sym c',
            )
      ]
