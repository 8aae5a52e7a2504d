-- ===== src/Amounts/DurationRoundTrip.antt =====
-- A written offset is read back as the same moment (packages/core/src/vod.ts).
use gundam_tcg_hub.Base.{
  ℕ, suc, ◌+◌, ◌*◌, ◌/◌, ◌%◌, ◌<◌, ◌≡◌, refl, Bool, true, false, not, ◌||◌, ◌==◌, ltb,
  if◌then◌else◌, [], ◌∷◌, ◌++◌, length, all, any, arith, Bool-cases, inl, inr, ap, ◌∙◌,
  length-append,
}
use gundam_tcg_hub.Text.{Units, is_digit, is_space}
use gundam_tcg_hub.Text.Decimal.{
  show, show_on-positive, number, number_from, split, is_number, pow10, number-show, show-digits,
  all-append,
}
use gundam_tcg_hub.Text.Plain.{
  solid, other, all-weaken, trim-solid, split-other, split-joined, pad_start-two, is_number-show,
}
use gundam_tcg_hub.Amounts.Durations.{
  max_vod_offset_seconds, bounded, clock_seconds, clock_parts, parse_clock, parse_units,
  parse_trimmed, parse_duration_to_seconds, two_digits, format_vod_offset,
}

-- The numbers of the fields.
pub two_digits-digits : (n : ℕ) → n < 100 → all is_digit (two_digits n) ≡ true
two_digits-digits n h = rw (pad_start-two n h) (ground arith)

pub number-two_digits : (n : ℕ) → n < 100 → number (two_digits n) ≡ n
unfolding number_from
number-two_digits n h = rw (pad_start-two n h) (omega arith)

is_number-two_digits : (n : ℕ) → n < 100 → is_number 3 (two_digits n) ≡ true
is_number-two_digits n h = rw (pad_start-two n h) (ground arith)

pub show-positive : (n : ℕ) → 0 < length (show n)
unfolding show
show-positive n = show_on-positive (suc n) n (omega arith)

-- The units of a written offset.
abbrev pub in_offset : ℕ → Bool
in_offset c = is_digit c || ((c == b':') || ((c == b'h') || ((c == b'm') || (c == b's'))))

pub in_offset-solid : (c : ℕ) → in_offset c ≡ true → solid c ≡ true
unfolding is_space
in_offset-solid c h = ground arith

pub digits-in_offset : (s : Units) → all is_digit s ≡ true → all in_offset s ≡ true
digits-in_offset s h = all-weaken is_digit in_offset s (λ c k. ground arith) h

pub all-broken :
    (p : ℕ → Bool) (xs : Units) (c : ℕ) (ys : Units) → p c ≡ false → all p (xs ++ (c ∷ ys)) ≡ false
all-broken p [] c ys h = rw h refl
all-broken p (x ∷ xs) c ys h = ground (arith, all-broken p xs c ys h)

any-met :
    (p : ℕ → Bool) (xs : Units) (c : ℕ) (ys : Units) → p c ≡ true → any p (xs ++ (c ∷ ys)) ≡ true
any-met p [] c ys h = rw h refl
any-met p (x ∷ xs) c ys h = ground (arith, any-met p xs c ys h)

pub any-never : (p : ℕ → Bool) (s : Units) → all (λ c. not (p c)) s ≡ true → any p s ≡ false
any-never p [] h = refl
any-never p (x ∷ xs) h = ground (arith, any-never p xs)

-- A text that is not only digits is read as a clock or as units.
pub parse_trimmed_lem :
    (s : Units)
    → 0 < length s
    → all is_digit s ≡ false
    → parse_trimmed s ≡ (if any (λ d. d == b':') s then parse_clock s else parse_units s)
parse_trimmed_lem [] l h = absurd (omega arith)
parse_trimmed_lem (c ∷ s) l h = rw h refl

-- The text of a clock: its digits before a colon are read with what follows.
clock-read :
    (n : ℕ) (tail : Units)
    → all in_offset tail ≡ true
    → parse_duration_to_seconds (show n ++ (b':' ∷ tail)) ≡ clock_parts (show n ∷ split b':' tail)
unfolding parse_duration_to_seconds parse_clock
clock-read n tail h =
    let text = show n ++ (b':' ∷ tail) in
    let units =
      all-append in_offset (show n) (b':' ∷ tail) (digits-in_offset (show n) (show-digits n)) h in
    let trimmed = trim-solid text (all-weaken in_offset solid text in_offset-solid units) in
    let long : 0 < length text =
      grind (arith, show-positive n, length-append (show n) (b':' ∷ tail)) in
    let mixed = all-broken is_digit (show n) b':' tail refl in
    let colon = any-met (λ d. d == b':') (show n) b':' tail refl in
    let free = all-weaken is_digit (other b':') (show n) (λ c k. ground arith) (show-digits n) in
    rw (trimmed, parse_trimmed_lem text long mixed, colon, split-joined b':' (show n) tail free)
      refl

split-two_digits : (n : ℕ) → n < 100 → split b':' (two_digits n) ≡ two_digits n ∷ []
split-two_digits n h =
    split-other b':' (two_digits n) (
      all-weaken is_digit (other b':') (two_digits n) (λ c k. ground arith) (two_digits-digits n h))

clock_seconds-bounded :
    (h m s seconds : ℕ)
    → m < 60
    → s < 60
    → h * 3600 + m * 60 + s ≡ seconds
    → clock_seconds h m s ≡ bounded seconds
clock_seconds-bounded h m s seconds hm hs e =
    let a : ltb 59 m ≡ false = ground arith in
    let b : ltb 59 s ≡ false = ground arith in rw (a, b, e) refl

pub minutes-read :
    (seconds : ℕ)
    → ltb 0 (seconds / 3600) ≡ false
    → parse_duration_to_seconds (format_vod_offset seconds) ≡ bounded seconds
unfolding format_vod_offset
minutes-read seconds h =
    let m = seconds % 3600 / 60 in
    let s = seconds % 60 in
    let tail = digits-in_offset (two_digits s) (two_digits-digits s (omega arith)) in
    let small : ltb m (pow10 3) ≡ true = ground arith in
    rw
      (
        h,
        clock-read m (two_digits s) tail,
        split-two_digits s (omega arith),
        is_number-show 2 m,
        small,
        is_number-two_digits s (omega arith),
        number-show m,
        number-two_digits s (omega arith),
      )
      (clock_seconds-bounded 0 m s seconds (omega arith) (omega arith) (ground arith))

split-fields :
    (m s : ℕ)
    → m < 100
    → s < 100
    → split b':' (two_digits m ++ (b':' ∷ two_digits s)) ≡ two_digits m ∷ two_digits s ∷ []
split-fields m s hm hs =
    let free =
      all-weaken is_digit (other b':') (two_digits m) (λ c k. ground arith)
        (two_digits-digits m hm) in
    split-joined b':' (two_digits m) (two_digits s) free
    ∙ ap (λ parts. two_digits m ∷ parts) (split-two_digits s hs)

-- A clock of three fields, whose hours may have three digits.
fields-read :
    (h m s seconds : ℕ)
    → m < 60
    → s < 60
    → h * 3600 + m * 60 + s ≡ seconds
    → clock_parts (show h ∷ two_digits m ∷ two_digits s ∷ []) ≡ bounded seconds
unfolding bounded
fields-read h m s seconds hm hs e =
    let mm = is_number-two_digits m (omega arith) in
    let ss = is_number-two_digits s (omega arith) in
    let bound = clock_seconds-bounded h m s seconds hm hs e in
    elim (Bool-cases (ltb h (pow10 3))) [
      | inl small ↦
          rw
            (
              is_number-show 2 h,
              small,
              mm,
              ss,
              number-show h,
              number-two_digits m (omega arith),
              number-two_digits s (omega arith),
            )
            bound
      | inr large ↦
          let far : ltb max_vod_offset_seconds seconds ≡ true = ground arith in
          rw (is_number-show 2 h, large, far) refl
    ]

pub hours-read :
    (seconds : ℕ)
    → ltb 0 (seconds / 3600) ≡ true
    → parse_duration_to_seconds (format_vod_offset seconds) ≡ bounded seconds
unfolding format_vod_offset
hours-read seconds h =
    let hours = seconds / 3600 in
    let m = seconds % 3600 / 60 in
    let s = seconds % 60 in
    let hm : m < 100 = omega arith in
    let hs : s < 100 = omega arith in
    let tail =
      all-append in_offset (two_digits m) (b':' ∷ two_digits s)
        (digits-in_offset (two_digits m) (two_digits-digits m hm))
        (digits-in_offset (two_digits s) (two_digits-digits s hs)) in
    rw (h, clock-read hours (two_digits m ++ (b':' ∷ two_digits s)) tail, split-fields m s hm hs)
      (fields-read hours m s seconds (omega arith) (omega arith) (ground arith))
