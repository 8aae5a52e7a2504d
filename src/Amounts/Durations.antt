-- ===== src/Amounts/Durations.antt =====
-- Durations and offsets (`parseDurationToSeconds`, `parseClock`, `parseUnits`, `bounded`, `formatVodOffset` and the text
-- of a Twitch offset in packages/core/src/vod.ts).
use gundam_tcg_hub.Base.{
  ℕ, ◌+◌, ◌*◌, ◌/◌, ◌%◌, Bool, true, false, not, ◌&&◌, ◌||◌, ◌==◌, ltb, leb, if◌then◌else◌, List,
  [], ◌∷◌, ◌++◌, all, any, Option, none, some,
}
use gundam_tcg_hub.Text.{Units, trim, is_digit}
use gundam_tcg_hub.Text.Decimal.{show, number, pad_start, split, is_number}

abbrev pub max_vod_offset_seconds : ℕ
max_vod_offset_seconds = 24 * 60 * 60

-- `Number.isInteger(seconds) && seconds >= 0` is a natural number here.
unfoldable pub bounded : ℕ → Option ℕ
bounded seconds = if ltb max_vod_offset_seconds seconds then none else some seconds

abbrev pub clock_seconds : ℕ → ℕ → ℕ → Option ℕ
clock_seconds hours minutes seconds =
    if ltb 59 minutes || ltb 59 seconds
    then none
    else bounded (hours * 3600 + minutes * 60 + seconds)

abbrev pub clock_parts : List Units → Option ℕ
clock_parts (m ∷ s ∷ []) =
    if is_number 3 m && is_number 3 s then clock_seconds 0 (number m) (number s) else none
clock_parts (h ∷ m ∷ s ∷ []) =
    if is_number 3 h && (is_number 3 m && is_number 3 s)
    then clock_seconds (number h) (number m) (number s)
    else none
clock_parts _ = none

unfoldable pub parse_clock : Units → Option ℕ
parse_clock text = clock_parts (split b':' text)

-- `toLowerCase` on the letters of the units; no other character turns into one of them.
abbrev pub lower : ℕ → ℕ
lower c = if leb b'A' c && leb c b'Z' then c + 32 else c

abbrev pub unit_seconds : ℕ → Option ℕ
unit_seconds c =
    if c == b'h'
    then some 3600
    else if c == b'm'
    then some 60
    else if c == b's'
    then some 1
    else none

-- The variables of the loop. No previous weight is `Number.POSITIVE_INFINITY`.
pub record UnitScan : Type 0 where
  pub total : ℕ
  pub digits : Units
  pub previous_weight : Option ℕ
  pub saw_unit : Bool

abbrev pub at_least : ℕ → Option ℕ → Bool
at_least weight none = false
at_least weight (some previous) = leb previous weight

-- The round of a unit that weighs so much, after the digits that have been read.
abbrev pub with_weight : UnitScan → Units → ℕ → Option UnitScan
with_weight s [] weight = none
with_weight s (d ∷ ds) weight =
    if at_least weight s.previous_weight
    then none
    else some (record {
      total = s.total + number (d ∷ ds) * weight;
      digits = [];
      previous_weight = some weight;
      saw_unit = true;
    })

abbrev pub with_unit : UnitScan → Option ℕ → Option UnitScan
with_unit s none = none
with_unit s (some weight) = with_weight s s.digits weight

unfoldable pub unit_step : UnitScan → ℕ → Option UnitScan
unit_step s c =
    if is_digit c
    then some (record s { digits = s.digits ++ (c ∷ []) })
    else with_unit s (unit_seconds c)

unfoldable pub unit_scan : UnitScan → Units → Option UnitScan
unit_scan s [] = some s
unit_scan s (c ∷ text) = elim (unit_step s (lower c)) [ none ↦ none | some t ↦ unit_scan t text ]

abbrev pub is_empty : Units → Bool
is_empty [] = true
is_empty (c ∷ s) = false

abbrev pub scanned : Option UnitScan → Option ℕ
scanned none = none
scanned (some s) = if not (is_empty s.digits) || not s.saw_unit then none else bounded s.total

abbrev pub unit_start : UnitScan
unit_start = record { total = 0; digits = []; previous_weight = none; saw_unit = false }

unfoldable pub parse_units : Units → Option ℕ
parse_units text = scanned (unit_scan unit_start text)

abbrev pub parse_trimmed : Units → Option ℕ
parse_trimmed [] = none
parse_trimmed (c ∷ s) =
    if all is_digit (c ∷ s)
    then bounded (number (c ∷ s))
    else if any (λ d. d == b':') (c ∷ s)
    then parse_clock (c ∷ s)
    else parse_units (c ∷ s)

unfoldable pub parse_duration_to_seconds : Units → Option ℕ
parse_duration_to_seconds text = parse_trimmed (trim text)

abbrev pub two_digits : ℕ → Units
two_digits n = pad_start (show n) 2 b'0'

-- The text for a whole number of seconds; a negative one throws before this.
unfoldable pub format_vod_offset : ℕ → Units
format_vod_offset seconds =
    let h = seconds / 3600 in
    let m = (seconds % 3600) / 60 in
    let s = seconds % 60 in
    if ltb 0 h
    then show h ++ (b':' ∷ two_digits m ++ (b':' ∷ two_digits s))
    else show m ++ (b':' ∷ two_digits s)

-- The value of the parameter `t` that `withVodOffset` sets for Twitch.
unfoldable pub twitch_offset : ℕ → Units
twitch_offset seconds =
    show (seconds / 3600)
    ++ (b'h' ∷ two_digits ((seconds % 3600) / 60)
        ++ (b'm' ∷ two_digits (seconds % 60) ++ (b's' ∷ [])))
