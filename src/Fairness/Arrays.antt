-- ===== src/Fairness/Arrays.antt =====
-- Arrays of numbers as lists, for the shuffle of packages/core/src/fairness.ts: reading, writing,
-- exchanging two places, and how often a number occurs.
use gundam_tcg_hub.Base.{
  ℕ, zero, suc, ◌+◌, ◌<◌, ◌≡◌, refl, ◌&&◌, ◌==◌, ltb, leb, if◌then◌else◌, List, [], ◌∷◌, length,
  set, length-set, subst, arith,
}

-- `at(i)`, where it is in bounds.
abbrev pub nth : List ℕ → ℕ → ℕ
nth [] i = 0
nth (x ∷ xs) zero = x
nth (x ∷ xs) (suc i) = nth xs i

-- The numbers k, k + 1, …, n of them.
abbrev pub up_from : ℕ → ℕ → List ℕ
up_from k zero = []
up_from k (suc n) = k ∷ up_from (suc k) n

-- `const a = order.at(i); const b = order.at(j); order[i] = b; order[j] = a;`
unfoldable pub swap : ℕ → ℕ → List ℕ → List ℕ
swap i j xs = set (set xs i (nth xs j)) j (nth xs i)

abbrev pub same : ℕ → ℕ → ℕ
same v x = if v == x then 1 else 0

-- How often `v` occurs.
unfoldable pub count : ℕ → List ℕ → ℕ
count v [] = 0
count v (x ∷ xs) = same v x + count v xs

pub nth-set :
    (xs : List ℕ) (i v j : ℕ)
    → i < length xs
    → nth (set xs i v) j ≡ (if i == j then v else nth xs j)
nth-set [] i v j h = ground arith
nth-set (x ∷ xs) zero v zero h = refl
nth-set (x ∷ xs) zero v (suc j) h = ground arith
nth-set (x ∷ xs) (suc i) v zero h = ground arith
nth-set (x ∷ xs) (suc i) v (suc j) h = ground (arith, nth-set xs i v j)

pub length-swap : (i j : ℕ) (xs : List ℕ) → length (swap i j xs) ≡ length xs
unfolding swap
length-swap i j xs =
    ground (arith, length-set (set xs i (nth xs j)) j (nth xs i), length-set xs i (nth xs j))

pub nth-swap :
    (i j k : ℕ) (xs : List ℕ)
    → i < length xs
    → j < length xs
    → nth (swap i j xs) k ≡ (if j == k then nth xs i else if i == k then nth xs j else nth xs k)
unfolding swap
nth-swap i j k xs hi hj = ground (
  arith,
  nth-set (set xs i (nth xs j)) j (nth xs i) k,
  nth-set xs i (nth xs j) k,
  length-set xs i (nth xs j),
)

count-set :
    (v w i : ℕ) (xs : List ℕ)
    → i < length xs
    → count v (set xs i w) + same v (nth xs i) ≡ count v xs + same v w
unfolding count
count-set v w i [] h = ground arith
count-set v w zero (x ∷ xs) h = omega arith
count-set v w (suc i) (x ∷ xs) h = omega (arith, count-set v w i xs (omega arith))

pub count-swap :
    (v i j : ℕ) (xs : List ℕ) → i < length xs → j < length xs → count v (swap i j xs) ≡ count v xs
unfolding swap
count-swap v i j xs hi hj =
    let ys = set xs i (nth xs j) in
    let first = count-set v (nth xs j) i xs hi in
    let second = count-set v (nth xs i) j ys (ground (arith, length-set xs i (nth xs j))) in
    let between : nth ys j ≡ nth xs j = ground (arith, nth-set xs i (nth xs j) j hi) in
    let third =
      subst (λ x. count v (set ys j (nth xs i)) + same v x ≡ count v ys + same v (nth xs i)) between
        second in
    omega (arith, first, third)

pub length-up_from : (k n : ℕ) → length (up_from k n) ≡ n
length-up_from k zero = refl
length-up_from k (suc n) = ground (arith, length-up_from (suc k) n)

pub nth-up_from : (k n i : ℕ) → i < n → nth (up_from k n) i ≡ k + i
nth-up_from k zero i h = ground arith
nth-up_from k (suc n) zero h = omega arith
nth-up_from k (suc n) (suc i) h = ground (arith, nth-up_from (suc k) n i)

pub count-up_from :
    (v k n : ℕ) → count v (up_from k n) ≡ (if leb k v && ltb v (k + n) then 1 else 0)
unfolding count
count-up_from v k zero = ground arith
count-up_from v k (suc n) = ground (arith, count-up_from v (suc k) n)
