-- ===== src/Fairness/Choices.antt =====
-- The order that a shuffle returns, and the words of the stream that it is drawn from
-- (`deriveShuffle` in packages/core/src/fairness.ts).
use gundam_tcg_hub.Base.{
  subst, sym, ap, ℕ, zero, suc, ◌+◌, ◌*◌, ◌/◌, ◌%◌, ◌<◌, ◌≤◌, ◌≡◌, ◌↔◌, refl, ◌∙◌, leb, ◌==◌,
  if◌then◌else◌, some, List, length, arith, Option-cases, Bool-cases, inl, inr, ==_refl,
}
use gundam_tcg_hub.Fairness.Arrays.{
  nth, up_from, swap, length-swap, nth-swap, length-up_from, nth-up_from,
}
use gundam_tcg_hub.Fairness.Shuffle.{words, limit, word, random_below, shuffle}
use gundam_tcg_hub.Fairness.Sampling.{
  DrawnFrom, AreBytes, SameBytes, random_below-DrawnFrom, word_injective, accepted_evenly,
}
use gundam_tcg_hub.Fairness.Permutation.{random_below_lt}

-- The walk of Fisher and Yates, with the indices that it exchanges told by `draw`.
unfoldable pub fisher_yates : ℕ → (ℕ → ℕ) → List ℕ → List ℕ
fisher_yates zero draw order = order
fisher_yates (suc i) draw order = fisher_yates i draw (swap (suc i) (draw (suc i)) order)

abbrev pub IsDraw : ℕ → (ℕ → ℕ) → Type 0
IsDraw i draw = (k : ℕ) → 1 ≤ k → k ≤ i → draw k ≤ k

length-fisher_yates :
    (i : ℕ) (draw : ℕ → ℕ) (order : List ℕ) → length (fisher_yates i draw order) ≡ length order
unfolding fisher_yates
length-fisher_yates zero draw order = refl
length-fisher_yates (suc i) draw order =
    length-fisher_yates i draw (swap (suc i) (draw (suc i)) order)
    ∙ length-swap (suc i) (draw (suc i)) order

-- A place above the walk is not touched.
nth-fisher_yates :
    (i k : ℕ) (draw : ℕ → ℕ) (order : List ℕ)
    → i < k
    → i < length order
    → IsDraw i draw
    → nth (fisher_yates i draw order) k ≡ nth order k
unfolding fisher_yates
nth-fisher_yates zero k draw order h l d = refl
nth-fisher_yates (suc i) k draw order h l d =
    let small = d (suc i) (omega arith) (omega arith) in
    ground (
      arith,
      nth-fisher_yates i k draw (swap (suc i) (draw (suc i)) order) (omega arith)
          (omega (arith, length-swap (suc i) (draw (suc i)) order))
          (λ j a b. d j a (omega (arith, b))),
      nth-swap (suc i) (draw (suc i)) k order (omega arith) (omega arith),
    )

-- Different places hold different numbers.
abbrev pub IsDistinct : List ℕ → Type 0
IsDistinct xs = (a b : ℕ) → a < length xs → b < length xs → nth xs a ≡ nth xs b → a ≡ b

abbrev exchange : ℕ → ℕ → ℕ → ℕ
exchange i j k = if j == k then i else if i == k then j else k

nth-exchange :
    (i j k : ℕ) (xs : List ℕ)
    → i < length xs
    → j < length xs
    → nth (swap i j xs) k ≡ nth xs (exchange i j k)
nth-exchange i j k xs hi hj = ground (arith, nth-swap i j k xs hi hj)

exchange_injective : (i j a b : ℕ) → exchange i j a ≡ exchange i j b → a ≡ b
exchange_injective i j a b e = ground arith

exchange-lt : (i j k n : ℕ) → i < n → j < n → k < n → exchange i j k < n
exchange-lt i j k n hi hj hk = ground arith

swap-IsDistinct :
    (i j : ℕ) (xs : List ℕ)
    → i < length xs
    → j < length xs
    → IsDistinct xs
    → IsDistinct (swap i j xs)
swap-IsDistinct i j xs hi hj d a b ha hb e = exchange_injective i j a b (
    d (exchange i j a) (exchange i j b)
      (exchange-lt i j a (length xs) hi hj (omega (arith, length-swap i j xs)))
      (exchange-lt i j b (length xs) hi hj (omega (arith, length-swap i j xs)))
      (sym (nth-exchange i j a xs hi hj) ∙ e ∙ nth-exchange i j b xs hi hj))

-- The last place of the walk gets what its draw points at.
nth-top :
    (i : ℕ) (draw : ℕ → ℕ) (order : List ℕ)
    → suc i < length order
    → IsDraw (suc i) draw
    → nth (fisher_yates (suc i) draw order) (suc i) ≡ nth order (draw (suc i))
unfolding fisher_yates
nth-top i draw order l d =
    let small = d (suc i) (omega arith) (omega arith) in
    nth-fisher_yates i (suc i) draw (swap (suc i) (draw (suc i)) order) (omega arith)
      (omega (arith, length-swap (suc i) (draw (suc i)) order)) (λ k a b. d k a (omega (arith, b)))
    ∙ ground (arith, nth-swap (suc i) (draw (suc i)) (suc i) order (omega arith) (omega arith))

fisher_yates_injective :
    (i : ℕ) (draw other : ℕ → ℕ) (order : List ℕ)
    → i < length order
    → IsDistinct order
    → IsDraw i draw
    → IsDraw i other
    → fisher_yates i draw order ≡ fisher_yates i other order
    → (k : ℕ) → 1 ≤ k
    → k ≤ i
    → draw k ≡ other k
unfolding fisher_yates
fisher_yates_injective zero draw other order l u d o e k a b = absurd (omega arith)
fisher_yates_injective (suc i) draw other order l u d o e k a b =
    let small = d (suc i) (omega arith) (omega arith) in
    let small' = o (suc i) (omega arith) (omega arith) in
    let same_top : nth order (draw (suc i)) ≡ nth order (other (suc i)) =
      sym (nth-top i draw order l d) ∙ ap (λ xs. nth xs (suc i)) e ∙ nth-top i other order l o in
    let same_draw : draw (suc i) ≡ other (suc i) =
      u (draw (suc i)) (other (suc i)) (omega (arith, small)) (omega (arith, small')) same_top in
    elim (Bool-cases (leb k i)) [
      | inl below ↦
          fisher_yates_injective i draw other (swap (suc i) (draw (suc i)) order)
            (omega (arith, length-swap (suc i) (draw (suc i)) order))
            (swap-IsDistinct (suc i) (draw (suc i)) order (omega arith) (omega (arith, small)) u)
            (λ m x y. d m x (omega (arith, y))) (λ m x y. o m x (omega (arith, y)))
            (e ∙ ap (λ x. fisher_yates i other (swap (suc i) x order)) (sym same_draw)) k a
            (ground arith)
      | inr top ↦
          let at_top : suc i ≡ k = ground arith in subst (λ m. draw m ≡ other m) at_top same_draw
    ]

up_from-IsDistinct : (n : ℕ) → IsDistinct (up_from 0 n)
up_from-IsDistinct n a b ha hb e =
    let ha' : a < n = omega (arith, length-up_from 0 n) in
    let hb' : b < n = omega (arith, length-up_from 0 n) in
    omega (arith, nth-up_from 0 n a ha', nth-up_from 0 n b hb')

fisher_yates_fair :
    (n : ℕ) (draw other : ℕ → ℕ)
    → IsDraw n draw
    → IsDraw n other
    → fisher_yates n draw (up_from 0 (suc n)) ≡ fisher_yates n other (up_from 0 (suc n))
    → (k : ℕ) → 1 ≤ k
    → k ≤ n
    → draw k ≡ other k
fisher_yates_fair n draw other d o e =
    fisher_yates_injective n draw other (up_from 0 (suc n))
      (omega (arith, length-up_from 0 (suc n))) (up_from-IsDistinct (suc n)) d o e

unfoldable add_draw : ℕ → ℕ → (ℕ → ℕ) → ℕ → ℕ
add_draw i j draw k = if k == i then j else draw k

add_draw_at : (i j : ℕ) (draw : ℕ → ℕ) → add_draw i j draw i ≡ j
unfolding add_draw
add_draw_at i j draw = ground (arith, ==_refl i)

add_draw-IsDraw :
    (i j : ℕ) (draw : ℕ → ℕ) → j ≤ suc i → IsDraw i draw → IsDraw (suc i) (add_draw (suc i) j draw)
unfolding add_draw
add_draw-IsDraw i j draw small d k a b = elim (Bool-cases (k == suc i)) [
  | inl e ↦ ground arith
  | inr e ↦ let below = d k a (ground arith) in ground arith
]

fisher_yates-add_draw :
    (i k j : ℕ) (draw : ℕ → ℕ) (order : List ℕ)
    → i < k
    → fisher_yates i (add_draw k j draw) order ≡ fisher_yates i draw order
unfolding fisher_yates add_draw
fisher_yates-add_draw zero k j draw order h = refl
fisher_yates-add_draw (suc i) k j draw order h =
    let same : add_draw k j draw (suc i) ≡ draw (suc i) = ground arith in
    rw same (fisher_yates-add_draw i k j draw (swap (suc i) (draw (suc i)) order) (omega arith))

add_draw_below : (i k j : ℕ) (draw : ℕ → ℕ) → i < k → add_draw k j draw i ≡ draw i
unfolding add_draw
add_draw_below i k j draw h = ground arith

module _ (bytes : ℕ → ℕ) where
  -- From the byte `pos`, the steps from `i` down to 1 take their words one after the other: the word of
  -- step `k` begins at the byte `place k`, and the next step goes on behind it.
  unfoldable pub Draws : ℕ → ℕ → (ℕ → ℕ) → (ℕ → ℕ) → Type 0
  Draws pos zero place draw = Unit
  Draws pos (suc i) place draw =
      DrawnFrom bytes pos (place (suc i)) (suc i + 1) (draw (suc i))
      × Draws (place (suc i) + 4) i place draw

  add_draw-Draws :
      (pos i k p j : ℕ) (place draw : ℕ → ℕ)
      → i < k
      → Draws pos i place draw
      → Draws pos i (add_draw k p place) (add_draw k j draw)
  unfolding Draws
  add_draw-Draws pos zero k p j place draw h d = tt
  add_draw-Draws pos (suc i) k p j place draw h (d, ds) =
      rw (add_draw_below (suc i) k p place h, add_draw_below (suc i) k j draw h)
        (d, add_draw-Draws (place (suc i) + 4) i k p j place draw (omega arith) ds)

  add_draw-more :
      (pos i p j : ℕ) (place draw : ℕ → ℕ)
      → DrawnFrom bytes pos p (suc i + 1) j
      → Draws (p + 4) i place draw
      → Draws pos (suc i) (add_draw (suc i) p place) (add_draw (suc i) j draw)
  unfolding Draws
  add_draw-more pos i p j place draw d ds =
      rw (add_draw_at (suc i) p place, add_draw_at (suc i) j draw)
        (d, add_draw-Draws (p + 4) i (suc i) p j place draw (omega arith) ds)

  -- What a shuffle has drawn: for each index the place of its word and the number that it gave.
  shuffle-Draws :
      (fuel pos i : ℕ) (order result : List ℕ)
      → shuffle bytes fuel pos i order ≡ some result
      → (place draw : ℕ → ℕ) × Draws pos i place draw
        × IsDraw i draw
        × (fisher_yates i draw order ≡ result)
  unfolding shuffle fisher_yates Draws
  shuffle-Draws fuel pos zero order result h =
      (λ k. 0, λ k. 0, tt, λ k a b. omega arith, ground arith)
  shuffle-Draws fuel pos (suc i) order result h =
      elim (Option-cases (random_below bytes fuel pos (suc i + 1))) [
        | inl e ↦ ground arith
        | inr ((j, after), e) ↦
            let small = random_below_lt bytes fuel pos (suc i + 1) j after (omega arith) e in
            let (p, next, drawn) = random_below-DrawnFrom bytes fuel pos (suc i + 1) j after e in
            let (place, draw, from, below, walk) =
              shuffle-Draws fuel after i (swap (suc i) j order) result (ground arith) in
            (
              add_draw (suc i) p place,
              add_draw (suc i) j draw,
              add_draw-more pos i p j place draw drawn
                  (subst (λ q. Draws q i place draw) next from),
              add_draw-IsDraw i j draw (omega arith) below,
              ground (
                arith,
                add_draw_at (suc i) j draw,
                fisher_yates-add_draw i (suc i) j draw (swap (suc i) j order) (omega arith),
                walk,
              ),
            )
      ]

  -- A shuffle of the slots 0, …, n from the byte `pos` of the stream returns what Fisher and Yates make of
  -- these draws: step `k` draws `w % (k + 1)` for the first 32-bit word `w` below the limit of
  -- `k + 1`, looked for right behind the word of the step before. Each number `r` up to `k` comes from
  -- equally many words below that limit, the words `q * (k + 1) + r` for each `q` below
  -- `2^32 / (k + 1)`; and where the stream gives bytes, a word is below 2^32 and has its four bytes
  -- to itself. No other series of draws, each at most its `k`, gives the same order.
  pub shuffle_fair :
      (fuel pos n : ℕ) (result : List ℕ)
      → shuffle bytes fuel pos n (up_from 0 (suc n)) ≡ some result
      → (place draw : ℕ → ℕ) × Draws pos n place draw
        × (fisher_yates n draw (up_from 0 (suc n)) ≡ result)
        × ((k r w : ℕ)
            → r ≤ k
            → ((w < limit (k + 1)) × (w % (k + 1) ≡ r))
              ↔ ((q : ℕ) × (q < words / (k + 1)) × (w ≡ q * (k + 1) + r)))
        × ((p q : ℕ)
            → AreBytes bytes
            → (word bytes p < words) × (word bytes p ≡ word bytes q → SameBytes bytes p q))
        × ((other : ℕ → ℕ)
            → IsDraw n other
            → fisher_yates n other (up_from 0 (suc n)) ≡ result
            → (k : ℕ) → 1 ≤ k
            → k ≤ n
            → draw k ≡ other k)
  shuffle_fair fuel pos n result h =
      let (place, draw, from, below, walk) =
        shuffle-Draws fuel pos n (up_from 0 (suc n)) result h in
      (
        place,
        draw,
        from,
        walk,
        λ k r w small. accepted_evenly w (k + 1) r (omega arith),
        word_injective bytes,
        λ other o e. fisher_yates_fair n draw other below o (walk ∙ sym e),
      )
