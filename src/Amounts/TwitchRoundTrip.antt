-- ===== src/Amounts/TwitchRoundTrip.antt =====
-- The offset that a Twitch link carries is read back as the same moment (packages/core/src/vod.ts).
use mathlib.Core.List.{append_assoc, append-nil}
use gundam_tcg_hub.Base.{
  ℕ, ◌+◌, ◌*◌, ◌/◌, ◌%◌, ◌<◌, ◌≡◌, refl, Bool, true, false, not, ◌||◌, ◌==◌, ltb, leb,
  if◌then◌else◌, [], ◌∷◌, ◌++◌, length, Option, none, some, all, arith, Bool-cases, inl, inr, ap,
  ◌∙◌, length-append,
}
use gundam_tcg_hub.Text.{Units, is_digit, is_space}
use gundam_tcg_hub.Text.Decimal.{show, number, number-show, show-digits, all-append}
use gundam_tcg_hub.Text.Plain.{solid, all-weaken, trim-solid, pad_start-two}
use gundam_tcg_hub.Amounts.Durations.{
  max_vod_offset_seconds, bounded, lower, unit_seconds, UnitScan, at_least, with_weight, unit_step,
  unit_scan, scanned, parse_units, parse_duration_to_seconds, two_digits, format_vod_offset,
  twitch_offset,
}
use gundam_tcg_hub.Amounts.DurationRoundTrip.{
  two_digits-digits, number-two_digits, show-positive, all-broken, any-never, parse_trimmed_lem,
  minutes-read, hours-read,
}

-- The loop gathers the digits before a unit.
unit_scan-digits :
    (s : UnitScan) (ds rest : Units)
    → all is_digit ds ≡ true
    → unit_scan s (ds ++ rest) ≡ unit_scan (record s { digits = s.digits ++ ds }) rest
unfolding unit_scan unit_step
unit_scan-digits s [] rest h = rw (append-nil s.digits) refl
unit_scan-digits s (d ∷ ds) rest h =
    let same : lower d ≡ d = ground arith in
    let digit : is_digit d ≡ true = ground arith in
    let on = unit_scan-digits (record s { digits = s.digits ++ (d ∷ []) }) ds rest (ground arith) in
    rw (unit_scan, same, digit)
      (on ∙ ap (λ l. unit_scan (record s { digits = l }) rest) (append_assoc s.digits (d ∷ []) ds))

-- The variables after a unit, with nothing gathered.
abbrev after_unit : ℕ → Option ℕ → Bool → UnitScan
after_unit total previous saw = record {
  total = total;
  digits = [];
  previous_weight = previous;
  saw_unit = saw;
}

with_weight_lem :
    (s : UnitScan) (ds : Units) (weight : ℕ)
    → 0 < length ds
    → at_least weight s.previous_weight ≡ false
    → with_weight s ds weight ≡ some (after_unit (s.total + number ds * weight) (some weight) true)
with_weight_lem s [] weight l a = absurd (omega arith)
with_weight_lem s (d ∷ ds) weight l a = rw a refl

-- A field: a number, and a unit that weighs less than the one before.
unit_scan-field :
    (total : ℕ) (previous : Option ℕ) (saw : Bool) (ds : Units) (unit weight : ℕ) (rest : Units)
    → all is_digit ds ≡ true
    → 0 < length ds
    → is_digit (lower unit) ≡ false
    → unit_seconds (lower unit) ≡ some weight
    → at_least weight previous ≡ false
    → unit_scan (after_unit total previous saw) (ds ++ (unit ∷ rest))
      ≡ unit_scan (after_unit (total + number ds * weight) (some weight) true) rest
unfolding unit_scan unit_step
unit_scan-field total previous saw ds unit weight rest h l letter known less =
    let full : UnitScan = record {
      total = total;
      digits = ds;
      previous_weight = previous;
      saw_unit = saw;
    } in
    unit_scan-digits (after_unit total previous saw) ds (unit ∷ rest) h
    ∙ rw (unit_scan, letter, known, with_weight_lem full ds weight l less) refl

length-two_digits : (n : ℕ) → n < 100 → length (two_digits n) ≡ 2
length-two_digits n h = rw (pad_start-two n h) refl

-- The three fields add up.
units-read :
    (h m s : ℕ)
    → m < 100
    → s < 100
    → parse_units (show h ++ (b'h' ∷ two_digits m ++ (b'm' ∷ two_digits s ++ (b's' ∷ []))))
      ≡ bounded (h * 3600 + m * 60 + s)
unfolding parse_units unit_scan
units-read h m s hm hs =
    let a =
      unit_scan-field 0 none false (show h) b'h' 3600
        (two_digits m ++ (b'm' ∷ two_digits s ++ (b's' ∷ []))) (show-digits h) (show-positive h)
        refl refl refl in
    let b =
      unit_scan-field (0 + number (show h) * 3600) (some 3600) true (two_digits m) b'm' 60
        (two_digits s ++ (b's' ∷ [])) (two_digits-digits m hm)
        (omega (arith, length-two_digits m hm)) refl refl refl in
    let c =
      unit_scan-field (0 + number (show h) * 3600 + number (two_digits m) * 60) (some 60) true
        (two_digits s) b's' 1 [] (two_digits-digits s hs) (omega (arith, length-two_digits s hs))
        refl refl refl in
    let sum : 0 + number (show h) * 3600 + number (two_digits m) * 60 + number (two_digits s) * 1
        ≡ h * 3600 + m * 60 + s =
      omega (arith, number-show h, number-two_digits m hm, number-two_digits s hs) in
    ap scanned (a ∙ b ∙ c) ∙ ap (λ (n : ℕ). bounded n) sum

-- The units of a Twitch offset.
abbrev in_letters : ℕ → Bool
in_letters c = is_digit c || ((c == b'h') || ((c == b'm') || (c == b's')))

in_letters-solid : (c : ℕ) → in_letters c ≡ true → solid c ≡ true
unfolding is_space
in_letters-solid c h = ground arith

digits-in_letters : (s : Units) → all is_digit s ≡ true → all in_letters s ≡ true
digits-in_letters s h = all-weaken is_digit in_letters s (λ c k. ground arith) h

letters-read :
    (h m s : ℕ)
    → m < 100
    → s < 100
    → all in_letters (show h ++ (b'h' ∷ two_digits m ++ (b'm' ∷ two_digits s ++ (b's' ∷ []))))
      ≡ true
letters-read h m s hm hs =
    let ss = digits-in_letters (two_digits s) (two_digits-digits s hs) in
    let mm = digits-in_letters (two_digits m) (two_digits-digits m hm) in
    let hh = digits-in_letters (show h) (show-digits h) in
    let end = all-append in_letters (two_digits s) (b's' ∷ []) ss refl in
    let middle = all-append in_letters (two_digits m) (b'm' ∷ two_digits s ++ (b's' ∷ [])) mm end in
    all-append in_letters (show h) (b'h' ∷ two_digits m ++ (b'm' ∷ two_digits s ++ (b's' ∷ []))) hh
      middle

pub twitch-read :
    (seconds : ℕ) → parse_duration_to_seconds (twitch_offset seconds) ≡ bounded seconds
unfolding parse_duration_to_seconds twitch_offset
twitch-read seconds =
    let h = seconds / 3600 in
    let m = seconds % 3600 / 60 in
    let s = seconds % 60 in
    let hm : m < 100 = omega arith in
    let hs : s < 100 = omega arith in
    let text = twitch_offset seconds in
    let tail = two_digits m ++ (b'm' ∷ two_digits s ++ (b's' ∷ [])) in
    let units = letters-read h m s hm hs in
    let trimmed = trim-solid text (all-weaken in_letters solid text in_letters-solid units) in
    let long : 0 < length text =
      grind (arith, show-positive h, length-append (show h) (b'h' ∷ tail)) in
    let mixed = all-broken is_digit (show h) b'h' tail refl in
    let none =
      any-never (λ d. d == b':') text
        (all-weaken in_letters (λ c. not (c == b':')) text (λ c k. ground arith) units) in
    let e : h * 3600 + m * 60 + s ≡ seconds = omega arith in
    rw (trimmed, parse_trimmed_lem text long mixed, none, units-read h m s hm hs, e) refl

-- The moment that `formatVodOffset` writes, and the one that a link to Twitch carries, are read back by
-- `parseDurationToSeconds` as the same number of seconds, up to the day that an offset may have; above it neither is read.
pub offset_round_trip :
    (seconds : ℕ)
    → (parse_duration_to_seconds (format_vod_offset seconds)
        ≡ (if leb seconds max_vod_offset_seconds then some seconds else none))
      × (parse_duration_to_seconds (twitch_offset seconds)
          ≡ (if leb seconds max_vod_offset_seconds then some seconds else none))
unfolding bounded
offset_round_trip seconds =
    let within : bounded seconds
        ≡ (if leb seconds max_vod_offset_seconds then some seconds else none) =
      ground arith in
    let clock : parse_duration_to_seconds (format_vod_offset seconds) ≡ bounded seconds =
      elim (Bool-cases (ltb 0 (seconds / 3600))) [
        | inl h ↦ hours-read seconds h
        | inr h ↦ minutes-read seconds h
      ] in
    (clock ∙ within, twitch-read seconds ∙ within)
