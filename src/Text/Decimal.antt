-- ===== src/Text/Decimal.antt =====
-- Decimal numbers in text: JavaScript's `String(n)` and `Number(digits)`, `padStart`, `padEnd`, `split` and `replaceAll`, as
-- packages/core/src/collections.ts and packages/core/src/vod.ts use them.
use gundam_tcg_hub.Base.{
  ℕ, zero, suc, ◌+◌, ◌-◌, ◌*◌, ◌/◌, ◌%◌, ◌<◌, ◌≤◌, ◌≡◌, ◌↔◌, refl, Bool, true, false, ◌&&◌, ◌==◌,
  ltb, leb, if◌then◌else◌, List, [], ◌∷◌, ◌++◌, length, all, arith, Bool-cases, inl, inr,
  length-append,
}
use gundam_tcg_hub.Text.Defs.{Units, is_digit}

abbrev pub digit : ℕ → Units
digit n = (b'0' + n) ∷ []

-- `String(n)`, with fuel above the number.
unfoldable pub show_on : ℕ → ℕ → Units
show_on zero n = []
show_on (suc fuel) n = elim (ltb n 10) [
  | true ↦ digit n
  | false ↦ show_on fuel (n / 10) ++ digit (n % 10)
]

unfoldable pub show : ℕ → Units
show n = show_on (suc n) n

-- `Number(digits)`
unfoldable pub number_from : ℕ → Units → ℕ
number_from value [] = value
number_from value (c ∷ s) = number_from (value * 10 + (c - b'0')) s

abbrev pub number : Units → ℕ
number s = number_from 0 s

abbrev pub repeated : ℕ → ℕ → Units
repeated zero c = []
repeated (suc n) c = c ∷ repeated n c

abbrev pub pad_start : Units → ℕ → ℕ → Units
pad_start s n c = repeated (n - length s) c ++ s

abbrev pub pad_end : Units → ℕ → ℕ → Units
pad_end s n c = s ++ repeated (n - length s) c

-- The parts of a split, with a unit put before the first of them.
abbrev pub onto_first : ℕ → List Units → List Units
onto_first c [] = (c ∷ []) ∷ []
onto_first c (part ∷ parts) = (c ∷ part) ∷ parts

unfoldable pub split : ℕ → Units → List Units
split separator [] = [] ∷ []
split separator (c ∷ s) =
    let rest = split separator s in if c == separator then [] ∷ rest else onto_first c rest

-- `replaceAll(c, '')`
unfoldable pub without : ℕ → Units → Units
without c [] = []
without c (d ∷ s) = let rest = without c s in if d == c then rest else d ∷ rest

-- `/^\d{1,n}$/u.test(s)`
abbrev pub is_number : ℕ → Units → Bool
is_number most [] = false
is_number most (c ∷ s) = all is_digit (c ∷ s) && leb (length (c ∷ s)) most

abbrev pub pow10 : ℕ → ℕ
pow10 zero = 1
pow10 (suc k) = 10 * pow10 k

number_from-append :
    (xs ys : Units) (value : ℕ)
    → number_from value (xs ++ ys) ≡ number_from (number_from value xs) ys
unfolding number_from
number_from-append [] ys value = refl
number_from-append (x ∷ xs) ys value = number_from-append xs ys (value * 10 + (x - b'0'))

pub show_on-small : (fuel n : ℕ) → ltb n 10 ≡ true → show_on (suc fuel) n ≡ digit n
unfolding show_on
show_on-small fuel n h = rw (show_on, h) refl

pub show_on-large :
    (fuel n : ℕ) → ltb n 10 ≡ false → show_on (suc fuel) n ≡ show_on fuel (n / 10) ++ digit (n % 10)
unfolding show_on
show_on-large fuel n h = rw (show_on, h) refl

number-show_on : (fuel n : ℕ) → n < fuel → number (show_on fuel n) ≡ n
unfolding number_from show_on
number-show_on zero n h = absurd (omega arith)
number-show_on (suc fuel) n h = elim (Bool-cases (ltb n 10)) [
  | inl small ↦ rw (show_on-small fuel n small) (omega arith)
  | inr large ↦
      let e = number-show_on fuel (n / 10) (ground arith) in
      rw
        (
          show_on-large fuel n large,
          number_from-append (show_on fuel (n / 10)) (digit (n % 10)) 0,
          e,
        )
        (omega arith)
]

pub number-show : (n : ℕ) → number (show n) ≡ n
unfolding show
number-show n = number-show_on (suc n) n (omega arith)

pub all-append :
    (p : ℕ → Bool) (xs ys : Units) → all p xs ≡ true → all p ys ≡ true → all p (xs ++ ys) ≡ true
all-append p [] ys h k = k
all-append p (x ∷ xs) ys h k = ground (arith, all-append p xs ys)

show_on-digits : (fuel n : ℕ) → all is_digit (show_on fuel n) ≡ true
unfolding show_on
show_on-digits zero n = refl
show_on-digits (suc fuel) n = elim (Bool-cases (ltb n 10)) [
  | inl small ↦ rw (show_on-small fuel n small) (ground arith)
  | inr large ↦ rw (show_on-large fuel n large) (
      all-append is_digit (show_on fuel (n / 10)) (digit (n % 10)) (show_on-digits fuel (n / 10))
        (ground arith))
]

pub show-digits : (n : ℕ) → all is_digit (show n) ≡ true
unfolding show
show-digits n = show_on-digits (suc n) n

pub show_on-positive : (fuel n : ℕ) → n < fuel → 0 < length (show_on fuel n)
show_on-positive zero n h = absurd (omega arith)
show_on-positive (suc fuel) n h = elim (Bool-cases (ltb n 10)) [
  | inl small ↦ rw (show_on-small fuel n small) (omega arith)
  | inr large ↦
      rw (show_on-large fuel n large)
        (omega (arith, length-append (show_on fuel (n / 10)) (digit (n % 10))))
]

pow10-positive : (k : ℕ) → 0 < pow10 k
pow10-positive zero = omega arith
pow10-positive (suc k) = omega (arith, pow10-positive k)

length-show_on : (k fuel n : ℕ) → n < fuel → (length (show_on fuel n) ≤ suc k) ↔ (n < pow10 (suc k))
length-show_on k zero n h = absurd (omega arith)
length-show_on zero (suc fuel) n h = elim (Bool-cases (ltb n 10)) [
  | inl small ↦ rw (show_on-small fuel n small) (λ _. ground arith, λ _. omega arith)
  | inr large ↦
      let size = length-append (show_on fuel (n / 10)) (digit (n % 10)) in
      let more = show_on-positive fuel (n / 10) (ground arith) in
      rw (show_on-large fuel n large)
        (λ short. absurd (omega arith), λ below. absurd (ground arith))
]
length-show_on (suc k) (suc fuel) n h = elim (Bool-cases (ltb n 10)) [
  | inl small ↦
      rw (show_on-small fuel n small) (λ _. ground (arith, pow10-positive k), λ _. omega arith)
  | inr large ↦
      let size = length-append (show_on fuel (n / 10)) (digit (n % 10)) in
      let (forth, back) = length-show_on k fuel (n / 10) (ground arith) in
      rw (show_on-large fuel n large) (λ short. grind arith, λ below. grind arith)
]

-- A number has at most as many digits as the power of ten above it.
pub length-show : (k n : ℕ) → (length (show n) ≤ suc k) ↔ (n < pow10 (suc k))
unfolding show
length-show k n = length-show_on k (suc n) n (omega arith)
