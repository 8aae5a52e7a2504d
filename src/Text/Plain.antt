-- ===== src/Text/Plain.antt =====
-- Texts without white space and without a separator: `trim`, `split` and `replaceAll` on them.
use gundam_tcg_hub.Base.{
  ℕ, suc, ◌+◌, ◌≡◌, refl, Bool, true, false, not, ◌==◌, ltb, leb, [], ◌∷◌, ◌++◌, length, all, arith,
  ap, ◌∙◌, ◌-◌, ◌/◌, ◌%◌, ◌<◌, Bool-cases, inl, inr,
}
use gundam_tcg_hub.Text.Defs.{Units, is_digit, is_space, trim_start, before_end, trim_end, trim}
use gundam_tcg_hub.Text.Decimal.{
  split, without, show, show_on, show_on-small, show_on-large, digit, pad_start, is_number, pow10,
  show-digits, length-show, show_on-positive,
}

-- The tests of a text's units: no white space, and no unit `c`.
abbrev pub solid : ℕ → Bool
solid c = not (is_space c)

abbrev pub other : ℕ → ℕ → Bool
other c d = not (d == c)

pub all-weaken :
    (p q : ℕ → Bool) (s : Units)
    → ((c : ℕ) → p c ≡ true → q c ≡ true)
    → all p s ≡ true
    → all q s ≡ true
all-weaken p q [] f h = refl
all-weaken p q (c ∷ s) f h = ground (arith, f c, all-weaken p q s f)

trim_end-solid : (s : Units) → all solid s ≡ true → trim_end s ≡ s
unfolding trim_end before_end
trim_end-solid [] h = refl
trim_end-solid (c ∷ []) h = ground arith
trim_end-solid (c ∷ d ∷ s) h =
    let e : all solid (d ∷ s) ≡ true = ground arith in rw (trim_end-solid (d ∷ s) e) refl

pub trim-solid : (s : Units) → all solid s ≡ true → trim s ≡ s
unfolding trim trim_start
trim-solid [] h = trim_end-solid [] h
trim-solid (c ∷ s) h =
    let e : is_space c ≡ false = ground arith in rw (trim_start, e) (trim_end-solid (c ∷ s) h)

pub split-other :
    (separator : ℕ) (s : Units) → all (other separator) s ≡ true → split separator s ≡ s ∷ []
unfolding split
split-other separator [] h = refl
split-other separator (c ∷ s) h =
    let e : (c == separator) ≡ false = ground arith in
    let f = split-other separator s (ground arith) in rw (e, f) refl

pub split-joined :
    (separator : ℕ) (s t : Units)
    → all (other separator) s ≡ true
    → split separator (s ++ (separator ∷ t)) ≡ s ∷ split separator t
unfolding split
split-joined separator [] t h = let e : (separator == separator) ≡ true = ground arith in rw e refl
split-joined separator (c ∷ s) t h =
    let e : (c == separator) ≡ false = ground arith in
    let f = split-joined separator s t (ground arith) in rw (e, f) refl

pub without-other : (c : ℕ) (s : Units) → all (other c) s ≡ true → without c s ≡ s
unfolding without
without-other c [] h = refl
without-other c (d ∷ s) h =
    let e : (d == c) ≡ false = ground arith in
    let f = without-other c s (ground arith) in rw (e, f) refl

-- A number below a hundred, padded to two digits.
pub pad_start-two :
    (n : ℕ) → n < 100 → pad_start (show n) 2 b'0' ≡ (b'0' + n / 10) ∷ (b'0' + n % 10) ∷ []
unfolding show show_on
pad_start-two n h = elim (Bool-cases (ltb n 10)) [
  | inl small ↦
      let tens : n / 10 ≡ 0 = ground arith in
      let ones : n % 10 ≡ n = ground arith in rw (show_on-small n n small, tens, ones) refl
  | inr large ↦
      let e : ltb (n / 10) 10 ≡ true = ground arith in
      let more : n ≡ suc (n - 1) = ground arith in
      let tens : show_on n (n / 10) ≡ digit (n / 10) =
        ap (λ k. show_on k (n / 10)) more ∙ show_on-small (n - 1) (n / 10) e in
      rw (show_on-large n n large, tens) refl
]

is_number-digits :
    (most : ℕ) (s : Units)
    → all is_digit s ≡ true
    → 0 < length s
    → is_number most s ≡ leb (length s) most
is_number-digits most [] h l = absurd (omega arith)
is_number-digits most (c ∷ s) h l = rw h refl

-- The number of digits that a pattern allows bounds the number.
pub is_number-show : (k n : ℕ) → is_number (suc k) (show n) ≡ ltb n (pow10 (suc k))
unfolding show
is_number-show k n =
    let (forth, back) = length-show k n in
    is_number-digits (suc k) (show n) (show-digits n) (show_on-positive (suc n) n (omega arith))
    ∙ ground arith
