-- ===== src/Fairness/Permutation.antt =====
-- What the shuffle returns is a permutation, and with enough fuel it returns
-- (packages/core/src/fairness.ts).
use native.Mathlib.Nat.{mod-lt, div-add-mod'}
use gundam_tcg_hub.Base.{
  subst, ℕ, zero, suc, ◌+◌, ◌-◌, ◌*◌, ◌%◌, ◌<◌, ◌≤◌, ◌≡◌, refl, ◌∙◌, false, ltb, if◌then◌else◌,
  some, List, length, arith, Option-cases, Bool-cases, inl, inr,
}
use gundam_tcg_hub.Fairness.Arrays.{
  up_from, swap, count, count-swap, length-swap, length-up_from, count-up_from,
}
use gundam_tcg_hub.Fairness.Shuffle.{
  Signer, byte_stream, words, limit, word, random_below, shuffle, ShuffleInput, shuffled, is_empty,
  derive_shuffle,
}

-- The list has each of 0, …, n - 1 once, and nothing else.
pub record IsPermutation (n : ℕ) (xs : List ℕ) : Type 0 where
  pub size : length xs ≡ n
  pub once : (v : ℕ) → count v xs ≡ (if ltb v n then 1 else 0)

up_from-IsPermutation : (n : ℕ) → IsPermutation n (up_from 0 n)
up_from-IsPermutation n = record {
  size = length-up_from 0 n;
  once = λ v. ground (arith, count-up_from v 0 n);
}

le-limit : (bound : ℕ) → 1 ≤ bound → bound ≤ 2147483648 → 2147483648 ≤ limit bound
unfolding limit
le-limit bound h k = omega (arith, div-add-mod' words bound, mod-lt words {m = bound} (omega arith))

module _ (bytes : ℕ → ℕ) where
  pub random_below_lt :
      (fuel pos bound j after : ℕ)
      → 1 ≤ bound
      → random_below bytes fuel pos bound ≡ some (j, after)
      → j < bound
  unfolding random_below
  random_below_lt zero pos bound j after b h = ground arith
  random_below_lt (suc fuel) pos bound j after b h =
      ground (arith, random_below_lt fuel (pos + 4) bound j after b)

  pub shuffle-IsPermutation :
      (fuel pos i n : ℕ) (order result : List ℕ)
      → i < n
      → IsPermutation n order
      → shuffle bytes fuel pos i order ≡ some result
      → IsPermutation n result
  unfolding shuffle
  shuffle-IsPermutation fuel pos zero n order result b p h = ground arith
  shuffle-IsPermutation fuel pos (suc i) n order result b p h =
      elim (Option-cases (random_below bytes fuel pos (suc i + 1))) [
        | inl e ↦ ground arith
        | inr ((j, after), e) ↦
            let small = random_below_lt fuel pos (suc i + 1) j after (omega arith) e in
            shuffle-IsPermutation fuel after i n (swap (suc i) j order) result (omega arith)
              (record {
                size = length-swap (suc i) j order ∙ p.size;
                once = λ v.
                    count-swap v (suc i) j order (omega (arith, p.size)) (omega (arith, p.size))
                    ∙ p.once v;
              })
              (ground arith)
      ]

  -- Within any `fuel` words there is one below 2^31.
  abbrev pub IsLively : ℕ → Type 0
  IsLively fuel = (pos : ℕ) → (k : ℕ) × (k < fuel) × (word bytes (pos + 4 * k) < 2147483648)

  random_below_live :
      (fuel k pos bound : ℕ)
      → 1 ≤ bound
      → bound ≤ 2147483648
      → k < fuel
      → word bytes (pos + 4 * k) < 2147483648
      → (r : ℕ × ℕ) × (random_below bytes fuel pos bound ≡ some r)
  unfolding random_below
  random_below_live zero k pos bound b c h w = absurd (omega arith)
  random_below_live (suc fuel) zero pos bound b c h w =
      ((word bytes pos % bound, pos + 4), ground (arith, le-limit bound b c))
  random_below_live (suc fuel) (suc k) pos bound b c h w =
      let (r, e) =
        random_below_live fuel k (pos + 4) bound b c (omega arith)
          (subst (λ p. word bytes p < 2147483648) (omega arith) w) in
      elim (Bool-cases (ltb (word bytes pos) (limit bound))) [
        | inl p ↦ ((word bytes pos % bound, pos + 4), ground arith)
        | inr p ↦ (r, ground arith)
      ]

  shuffle_live :
      (fuel pos i : ℕ) (order : List ℕ)
      → i < 2147483648
      → IsLively fuel
      → (result : List ℕ) × (shuffle bytes fuel pos i order ≡ some result)
  unfolding shuffle
  shuffle_live fuel pos zero order b live = (order, refl)
  shuffle_live fuel pos (suc i) order b live =
      let (k, small, low) = live pos in
      let ((j, after), e) =
        random_below_live fuel k pos (suc i + 1) (omega arith) (omega arith) small low in
      let (result, r) = shuffle_live fuel after i (swap (suc i) j order) (omega arith) live in
      (result, ground (arith, e, r))

-- For a break of 1 to 2^31 slots and two seeds that are not empty, the shuffle returns an order in which
-- each of the slots stands exactly once; the fuel is enough as soon as, wherever one starts, one of so
-- many words of the stream is below 2^31.
pub derive_shuffle-IsPermutation :
    (sign : Signer) (fuel : ℕ) (input : ShuffleInput)
    → 1 ≤ input.count
    → input.count ≤ 2147483648
    → is_empty input.server_seed ≡ false
    → is_empty input.client_seed ≡ false
    → IsLively (byte_stream sign input.server_seed input.client_seed input.break_id) fuel
    → (order : List ℕ) × (derive_shuffle sign fuel input ≡ shuffled order)
      × IsPermutation input.count order
unfolding derive_shuffle
derive_shuffle-IsPermutation sign fuel input one most server client live =
    let bytes = byte_stream sign input.server_seed input.client_seed input.break_id in
    let (order, e) =
      shuffle_live bytes fuel 0 (input.count - 1) (up_from 0 input.count) (omega arith) live in
    (
      order,
      ground (arith, e),
      shuffle-IsPermutation bytes fuel 0 (input.count - 1) input.count (up_from 0 input.count) order
          (omega arith) (up_from-IsPermutation input.count) e,
    )

-- Whatever the shuffle returns has each slot once.
pub shuffled-IsPermutation :
    (sign : Signer) (fuel : ℕ) (input : ShuffleInput) (order : List ℕ)
    → derive_shuffle sign fuel input ≡ shuffled order
    → IsPermutation input.count order
unfolding derive_shuffle
shuffled-IsPermutation sign fuel input order h =
    let bytes = byte_stream sign input.server_seed input.client_seed input.break_id in
    let found : shuffle bytes fuel 0 (input.count - 1) (up_from 0 input.count) ≡ some order =
      ground arith in
    let positive : ltb input.count 1 ≡ false = ground arith in
    shuffle-IsPermutation bytes fuel 0 (input.count - 1) input.count (up_from 0 input.count) order
      (ground arith) (up_from-IsPermutation input.count) found
