-- ===== src/Fairness/Sampling.antt =====
-- Which word of the stream the sampling takes (`randomBelow` in packages/core/src/fairness.ts).
use native.Mathlib.Nat.{
  div-add-mod', div-lt_iff_lt-mul, mul-le-mul_right, mul-add-mod_self_right, mod-eq_of_lt,
}
use gundam_tcg_hub.Base.{
  subst, ap, ℕ, zero, suc, ◌+◌, ◌*◌, ◌/◌, ◌%◌, ◌<◌, ◌≤◌, ◌≡◌, ◌↔◌, ◌∙◌, ltb, some, arith,
  Bool-cases, inl, inr,
}
use gundam_tcg_hub.Fairness.Shuffle.{words, limit, word, random_below}

module _ (bytes : ℕ → ℕ) where
  -- Counting the words from the byte `pos`, the one at the byte `place` is the first below the limit of
  -- the bound, and `draw` is what it leaves by the bound.
  abbrev pub DrawnFrom : ℕ → ℕ → ℕ → ℕ → Type 0
  DrawnFrom pos place bound draw =
      (passed : ℕ) × (place ≡ pos + 4 * passed)
      × ((m : ℕ) → m < passed → limit bound ≤ word bytes (pos + 4 * m))
      × (word bytes place < limit bound)
      × (draw ≡ word bytes place % bound)

  later_word :
      (pos bound passed : ℕ)
      → limit bound ≤ word bytes pos
      → ((m : ℕ) → m < passed → limit bound ≤ word bytes (pos + 4 + 4 * m))
      → (m : ℕ) → m < suc passed
      → limit bound ≤ word bytes (pos + 4 * m)
  later_word pos bound passed now later zero h =
      subst (λ p. limit bound ≤ word bytes p) (omega arith) now
  later_word pos bound passed now later (suc m) h =
      subst (λ p. limit bound ≤ word bytes p) (omega arith) (later m (omega arith))

  pub random_below-DrawnFrom :
      (fuel pos bound draw after : ℕ)
      → random_below bytes fuel pos bound ≡ some (draw, after)
      → (place : ℕ) × (after ≡ place + 4) × DrawnFrom pos place bound draw
  unfolding random_below
  random_below-DrawnFrom zero pos bound draw after e = absurd (cc)
  random_below-DrawnFrom (suc fuel) pos bound draw after e =
      elim (Bool-cases (ltb (word bytes pos) (limit bound))) [
        | inl taken ↦ (
          pos,
          ground arith,
          (0, omega arith, λ m h. absurd (omega arith), ground arith, ground arith),
        )
        | inr over ↦
            let (place, next, (passed, at, before, below, left)) =
              random_below-DrawnFrom fuel (pos + 4) bound draw after (ground arith) in
            (
              place,
              next,
              (
                suc passed,
                omega (arith, at),
                later_word pos bound passed (ground arith) before,
                below,
                left,
              ),
            )
      ]

  abbrev pub AreBytes : Type 0
  AreBytes = (n : ℕ) → bytes n < 256

  -- The four bytes at the one place are those at the other.
  abbrev pub SameBytes : ℕ → ℕ → Type 0
  SameBytes p q =
      (bytes p ≡ bytes q)
      × (bytes (p + 1) ≡ bytes (q + 1))
      × (bytes (p + 2) ≡ bytes (q + 2))
      × (bytes (p + 3) ≡ bytes (q + 3))

  -- A word of bytes is below 2^32, and no other four bytes make the same word.
  pub word_injective :
      (p q : ℕ) → AreBytes → (word bytes p < words) × (word bytes p ≡ word bytes q → SameBytes p q)
  unfolding word
  word_injective p q small = (
    omega (arith, bytes_fit p),
    λ same. (
      omega (arith, bytes_fit p, bytes_fit q, same),
      omega (arith, bytes_fit p, bytes_fit q, same),
      omega (arith, bytes_fit p, bytes_fit q, same),
      omega (arith, bytes_fit p, bytes_fit q, same),
    ),
  )
    where
      bytes_fit :
          (p : ℕ)
          → (bytes p < 256) × (bytes (p + 1) < 256) × (bytes (p + 2) < 256) × (bytes (p + 3) < 256)
      bytes_fit p = (small p, small (p + 1), small (p + 2), small (p + 3))

-- The 32-bit words that the sampling accepts fall evenly on the numbers below the bound: those that give
-- `r` are `r`, `bound + r`, `2 * bound + r` and so on, `2^32 / bound` of them for every `r`.
pub accepted_evenly :
    (w bound r : ℕ)
    → r < bound
    → ((w < limit bound) × (w % bound ≡ r)) ↔ ((k : ℕ) × (k < words / bound) × (w ≡ k * bound + r))
unfolding limit
accepted_evenly w bound r h = (forth, back)
  where
    forth :
        (w < limit bound) × (w % bound ≡ r) → (k : ℕ) × (k < words / bound) × (w ≡ k * bound + r)
    forth (small, rest) = (
      w / bound,
      (div-lt_iff_lt-mul {k = bound} {x = w} {y = words / bound} (omega arith)).1 small,
      omega (arith, div-add-mod' w bound, rest),
    )

    back : (k : ℕ) × (k < words / bound) × (w ≡ k * bound + r) → (w < limit bound) × (w % bound ≡ r)
    back (k, small, e) = (
      omega (arith, mul-le-mul_right {m = suc k} {n = words / bound} bound small, e),
      ap (λ x. x % bound) e ∙ mul-add-mod_self_right k bound r ∙ mod-eq_of_lt h,
    )
