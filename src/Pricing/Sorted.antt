-- ===== src/Pricing/Sorted.antt =====
-- Sorting the observations, and the percentiles of a sorted list (packages/core/src/pricing.ts).
use gundam_tcg_hub.Base.{
  ℕ, zero, suc, ◌+◌, ◌-◌, ◌*◌, ◌<◌, ◌≤◌, ◌≡◌, inl, inr, refl, subst, ◌∙◌, leb, List, [], ◌∷◌,
  length, length-take, length-drop, take, drop, arith, Bool-cases,
}
use gundam_tcg_hub.Fairness.Arrays.{nth}
use gundam_tcg_hub.Pricing.Summary.{insert_sorted, sort, kept_prices}

-- No number is below the one before it.
abbrev pub IsSorted : List ℕ → Type 0
IsSorted xs = (i j : ℕ) → i ≤ j → j < length xs → nth xs i ≤ nth xs j

length-insert_sorted : (x : ℕ) (ys : List ℕ) → length (insert_sorted x ys) ≡ suc (length ys)
length-insert_sorted x [] = refl
length-insert_sorted x (y ∷ ys) = ground (arith, length-insert_sorted x ys)

pub length-sort : (xs : List ℕ) → length (sort xs) ≡ length xs
unfolding sort
length-sort [] = refl
length-sort (x ∷ xs) = omega (arith, length-insert_sorted x (sort xs), length-sort xs)

-- Sorted, told from the front.
abbrev Above : ℕ → List ℕ → Type 0
Above x [] = Unit
Above x (y ∷ ys) = (x ≤ y) × Above y ys

abbrev Ascending : List ℕ → Type 0
Ascending [] = Unit
Ascending (x ∷ xs) = Above x xs

insert-Above : (x y : ℕ) (ys : List ℕ) → y ≤ x → Above y ys → Above y (insert_sorted x ys)
insert-Above x y [] h a = (h, tt)
insert-Above x y (z ∷ zs) h a = elim (Bool-cases (leb x z)) [
  | inl e ↦ rw e (h, (ground arith, a.1))
  | inr e ↦ rw e (a.0, insert-Above x z zs (ground arith) a.1)
]

insert-Ascending : (x : ℕ) (ys : List ℕ) → Ascending ys → Ascending (insert_sorted x ys)
insert-Ascending x [] a = tt
insert-Ascending x (y ∷ ys) a = elim (Bool-cases (leb x y)) [
  | inl e ↦ rw e (ground arith, a)
  | inr e ↦ rw e (insert-Above x y ys (ground arith) a)
]

sort-Ascending : (xs : List ℕ) → Ascending (sort xs)
unfolding sort
sort-Ascending [] = tt
sort-Ascending (x ∷ xs) = insert-Ascending x (sort xs) (sort-Ascending xs)

le-nth : (x : ℕ) (ys : List ℕ) (j : ℕ) → Above x ys → j < length ys → x ≤ nth ys j
le-nth x [] j a h = absurd (omega arith)
le-nth x (y ∷ ys) zero a h = a.0
le-nth x (y ∷ ys) (suc j) a h = omega (arith, le-nth y ys j a.1 (omega arith), a.0)

Above-IsSorted : (x : ℕ) (ys : List ℕ) → Above x ys → IsSorted (x ∷ ys)
Above-IsSorted x ys a zero zero h l = omega arith
Above-IsSorted x ys a zero (suc j) h l = le-nth x ys j a (omega arith)
Above-IsSorted x ys a (suc i) zero h l = absurd (omega arith)
Above-IsSorted x [] a (suc i) (suc j) h l = absurd (omega arith)
Above-IsSorted x (y ∷ ys) a (suc i) (suc j) h l =
    Above-IsSorted y ys a.1 i j (omega arith) (omega arith)

Ascending-IsSorted : (xs : List ℕ) → Ascending xs → IsSorted xs
Ascending-IsSorted [] a i j h l = absurd (omega arith)
Ascending-IsSorted (x ∷ xs) a i j h l = Above-IsSorted x xs a i j h l

pub sort-IsSorted : (xs : List ℕ) → IsSorted (sort xs)
sort-IsSorted xs = Ascending-IsSorted (sort xs) (sort-Ascending xs)

nth-drop : (n i : ℕ) (xs : List ℕ) → nth (drop n xs) i ≡ nth xs (n + i)
nth-drop zero i xs = let e : i ≡ 0 + i = omega arith in subst (λ k. nth xs i ≡ nth xs k) e refl
nth-drop (suc n) i [] = refl
nth-drop (suc n) i (x ∷ xs) =
    let e : suc (n + i) ≡ suc n + i = omega arith in
    nth-drop n i xs ∙ subst (λ k. nth xs (n + i) ≡ nth (x ∷ xs) k) e refl

nth-take : (n i : ℕ) (xs : List ℕ) → i < n → nth (take n xs) i ≡ nth xs i
nth-take zero i xs h = absurd (omega arith)
nth-take (suc n) i [] h = refl
nth-take (suc n) zero (x ∷ xs) h = refl
nth-take (suc n) (suc i) (x ∷ xs) h = nth-take n i xs (omega arith)

kept_prices-suc :
    (xs : List ℕ) (n : ℕ)
    → kept_prices xs (suc n) ≡ take (length xs - suc n - suc n) (drop (suc n) xs)
kept_prices-suc xs n = ground arith

pub length-kept_prices :
    (xs : List ℕ) (n : ℕ) → 2 * n < length xs → length (kept_prices xs n) ≡ length xs - n - n
length-kept_prices xs zero h = omega arith
length-kept_prices xs (suc n) h = rw (kept_prices-suc xs n) (
    omega
      (arith, length-take (length xs - suc n - suc n) (drop (suc n) xs), length-drop (suc n) xs))

pub nth-kept_prices :
    (xs : List ℕ) (n i : ℕ)
    → 2 * n < length xs
    → i < length xs - n - n
    → nth (kept_prices xs n) i ≡ nth xs (n + i)
nth-kept_prices xs zero i h l =
    let e : i ≡ 0 + i = omega arith in subst (λ k. nth xs i ≡ nth xs k) e refl
nth-kept_prices xs (suc n) i h l =
    rw (kept_prices-suc xs n)
      (nth-take (length xs - suc n - suc n) i (drop (suc n) xs) l ∙ nth-drop (suc n) i xs)

-- What is kept of a sorted list is sorted.
pub kept_prices-IsSorted :
    (xs : List ℕ) (n : ℕ) → 2 * n < length xs → IsSorted xs → IsSorted (kept_prices xs n)
kept_prices-IsSorted xs n h s i j le l =
    let size = length-kept_prices xs n h in
    let a = nth-kept_prices xs n i h (omega (arith, size)) in
    let b = nth-kept_prices xs n j h (omega (arith, size)) in
    let between = s (n + i) (n + j) (omega arith) (omega (arith, size)) in
    omega (arith, a, b, between)
