-- ===== src/Amounts/MoneyRoundTrip.antt =====
-- An exported amount is imported as the same amount (packages/core/src/collections.ts).
use gundam_tcg_hub.Base.{
  ℕ, suc, ◌+◌, ◌-◌, ◌*◌, ◌/◌, ◌%◌, ◌<◌, ◌≡◌, refl, Bool, true, false, ◌||◌, ◌==◌, ltb,
  if◌then◌else◌, [], ◌∷◌, none, some, all, arith, Bool-cases, inl, inr, ap, ◌∙◌,
}
use gundam_tcg_hub.Base.Int.{pos, negsuc}
use gundam_tcg_hub.Text.{Units, trim, is_digit, is_space}
use gundam_tcg_hub.Text.Decimal.{
  show, number_from, pad_start, split, without, pow10, number-show, show-digits, all-append,
}
use gundam_tcg_hub.Text.Plain.{
  solid, other, all-weaken, trim-solid, split-other, split-joined, without-other, pad_start-two,
  is_number-show,
}
use gundam_tcg_hub.Amounts.Money.{
  is_currency, without_currency, parse_parts, parse_money_to_cents, amount, format_cents_as_amount,
}

-- The units of a written amount.
abbrev in_amount : ℕ → Bool
in_amount c = is_digit c || ((c == b'.') || (c == b'-'))

two_digits-digits : (n : ℕ) → n < 100 → all is_digit (pad_start (show n) 2 b'0') ≡ true
two_digits-digits n h = rw (pad_start-two n h) (ground arith)

digit-in_amount : (c : ℕ) → is_digit c ≡ true → in_amount c ≡ true
digit-in_amount c h = ground arith

amount-units : (cents : ℕ) → all in_amount (amount cents) ≡ true
amount-units cents =
    let whole =
      all-weaken is_digit in_amount (show (cents / 100)) digit-in_amount
        (show-digits (cents / 100)) in
    let fraction =
      all-weaken is_digit in_amount (pad_start (show (cents % 100)) 2 b'0') digit-in_amount
        (two_digits-digits (cents % 100) (omega arith)) in
    all-append in_amount (show (cents / 100)) (b'.' ∷ pad_start (show (cents % 100)) 2 b'0') whole
      fraction

in_amount-solid : (c : ℕ) → in_amount c ≡ true → solid c ≡ true
unfolding is_space
in_amount-solid c h = ground arith

currency-solid : (c : ℕ) → is_currency c ≡ true → solid c ≡ true
unfolding is_space
currency-solid c h = ground arith

without_currency-none : (s : Units) → all in_amount s ≡ true → without_currency s ≡ s
unfolding without_currency
without_currency-none [] h = refl
without_currency-none (c ∷ s) h = let e : is_currency c ≡ false = ground arith in rw e refl

-- Nothing is taken from a written amount before it is split.
cleaned : (s : Units) → all in_amount s ≡ true → without b',' (without_currency (trim s)) ≡ s
cleaned s h =
    let a = trim-solid s (all-weaken in_amount solid s in_amount-solid h) in
    let b = without_currency-none s h in
    let c = without-other b',' s (all-weaken in_amount (other b',') s (λ c k. ground arith) h) in
    rw (a, b, c) refl

-- With a currency symbol in front, the symbol is taken.
cleaned_symbol :
    (symbol : ℕ) (s : Units)
    → is_currency symbol ≡ true
    → all in_amount s ≡ true
    → without b',' (without_currency (trim (symbol ∷ s))) ≡ s
unfolding without_currency
cleaned_symbol symbol s e h =
    let solids : all solid (symbol ∷ s) ≡ true =
      ground (arith, currency-solid symbol e, all-weaken in_amount solid s in_amount-solid h) in
    let a = trim-solid (symbol ∷ s) solids in
    let c = without-other b',' s (all-weaken in_amount (other b',') s (λ c k. ground arith) h) in
    rw (a, without_currency, e, c) refl

amount-split :
    (cents : ℕ)
    → split b'.' (amount cents) ≡ show (cents / 100) ∷ pad_start (show (cents % 100)) 2 b'0' ∷ []
amount-split cents =
    let w =
      all-weaken is_digit (other b'.') (show (cents / 100)) (λ c k. ground arith)
        (show-digits (cents / 100)) in
    let f =
      all-weaken is_digit (other b'.') (pad_start (show (cents % 100)) 2 b'0') (λ c k. ground arith)
        (two_digits-digits (cents % 100) (omega arith)) in
    split-joined b'.' (show (cents / 100)) (pad_start (show (cents % 100)) 2 b'0') w
    ∙ ap (λ parts. show (cents / 100) ∷ parts)
        (split-other b'.' (pad_start (show (cents % 100)) 2 b'0') f)

-- Nine digits before the point are the most that an amount may have.
abbrev pub first_too_large : ℕ
first_too_large = 100_000_000_000

parts-read :
    (cents : ℕ)
    → parse_parts (show (cents / 100) ∷ pad_start (show (cents % 100)) 2 b'0' ∷ [])
      ≡ (if ltb cents first_too_large then some cents else none)
unfolding number_from
parts-read cents = elim (Bool-cases (ltb (cents / 100) (pow10 9))) [
  | inl h ↦
      let e : ltb cents first_too_large ≡ true = ground arith in
      let tens : is_digit (b'0' + cents % 100 / 10) ≡ true = ground arith in
      let ones : is_digit (b'0' + cents % 100 % 10) ≡ true = ground arith in
      let sum : cents / 100 * 100
            + ((0 + (b'0' + cents % 100 / 10 - b'0')) * 10 + (b'0' + cents % 100 % 10 - b'0'))
          ≡ cents =
        omega arith in
      rw
        (
          is_number-show 8 (cents / 100),
          h,
          e,
          number-show (cents / 100),
          pad_start-two (cents % 100) (omega arith),
          tens,
          ones,
        )
        (ap some sum)
  | inr h ↦
      let e : ltb cents first_too_large ≡ false = ground arith in
      rw (is_number-show 8 (cents / 100), h, e) refl
]

-- A negative amount is not read.
negative-unread : (n : ℕ) → parse_money_to_cents (format_cents_as_amount (negsuc n)) ≡ none
unfolding parse_money_to_cents format_cents_as_amount
negative-unread n =
    let units : all in_amount (b'-' ∷ amount (suc n)) ≡ true = amount-units (suc n) in
    let w : all (other b'.') (b'-' ∷ show (suc n / 100)) ≡ true =
      all-weaken is_digit (other b'.') (show (suc n / 100)) (λ c k. ground arith)
        (show-digits (suc n / 100)) in
    let parts =
      split-joined b'.' (b'-' ∷ show (suc n / 100)) (pad_start (show (suc n % 100)) 2 b'0') w in
    let f =
      all-weaken is_digit (other b'.') (pad_start (show (suc n % 100)) 2 b'0') (λ c k. ground arith)
        (two_digits-digits (suc n % 100) (omega arith)) in
    rw
      (
        cleaned (b'-' ∷ amount (suc n)) units,
        parts,
        split-other b'.' (pad_start (show (suc n % 100)) 2 b'0') f,
      )
      refl

-- An amount of cents below a hundred thousand million that the export writes is read back as the same number of cents,
-- with or without one of the four currency symbols in front of it. A larger amount, or a negative one, is refused.
pub money_round_trip :
    (cents symbol n : ℕ)
    → is_currency symbol ≡ true
    → (parse_money_to_cents (format_cents_as_amount (pos cents))
        ≡ (if ltb cents first_too_large then some cents else none))
      × (parse_money_to_cents (symbol ∷ format_cents_as_amount (pos cents))
          ≡ (if ltb cents first_too_large then some cents else none))
      × (parse_money_to_cents (format_cents_as_amount (negsuc n)) ≡ none)
unfolding parse_money_to_cents format_cents_as_amount
money_round_trip cents symbol n e =
    let units = amount-units cents in
    let read = ap parse_parts (amount-split cents) ∙ parts-read cents in
    (
      ap (λ s. parse_parts (split b'.' s)) (cleaned (amount cents) units) ∙ read,
      ap (λ s. parse_parts (split b'.' s)) (cleaned_symbol symbol (amount cents) e units) ∙ read,
      negative-unread n,
    )
