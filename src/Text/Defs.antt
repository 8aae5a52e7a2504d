-- ===== src/Text/Defs.antt =====
-- Strings of packages/security/src/csv.ts, packages/core/src/collections.ts and
-- packages/core/src/vod.ts, and the JavaScript functions that these files call on them.
use Prim.Native.Char.{code}
use Prim.Native.String.{String}
use gundam_tcg_hub.Base.{
  ℕ, ◌+◌, ◌≡◌, refl, Bool, true, false, ◌&&◌, ◌||◌, ◌==◌, leb, ltb, if◌then◌else◌, List, [], ◌∷◌,
  ◌↔◌, arith, Option, none, some,
}

-- UTF-16 code units.
abbrev pub Units : Type 0
Units = List ℕ

-- The units of a text outside the astral planes.
abbrev pub units : String → Units
units String.[] = []
units (String.◌∷◌ c s) = code c ∷ units s

-- `===` of two strings.
unfoldable pub same_text : Units → Units → Bool
same_text [] [] = true
same_text [] (d ∷ t) = false
same_text (c ∷ s) [] = false
same_text (c ∷ s) (d ∷ t) = (c == d) && same_text s t

pub same_text_iff : (s t : Units) → (same_text s t ≡ true) ↔ (s ≡ t)
unfolding same_text
same_text_iff [] [] = (λ _. refl, λ _. refl)
same_text_iff [] (d ∷ t) = (λ h. cc, λ h. cc)
same_text_iff (c ∷ s) [] = (λ h. cc, λ h. cc)
same_text_iff (c ∷ s) (d ∷ t) =
    (λ h. ground (arith, same_text_iff s t), λ h. ground (arith, same_text_iff s t))

-- `charAt(0)`, which is empty past the end.
abbrev pub first : Units → Option ℕ
first [] = none
first (c ∷ s) = some c

abbrev pub is_digit : ℕ → Bool
is_digit c = leb b'0' c && leb c b'9'

-- What `trim` takes away: white space and line terminators.
unfoldable pub is_space : ℕ → Bool
is_space c =
    (leb 9 c && leb c 13)
    || (c == 32)
    || (c == 160)
    || (c == 5760)
    || (leb 8192 c && leb c 8202)
    || (c == 8232)
    || (c == 8233)
    || (c == 8239)
    || (c == 8287)
    || (c == 12288)
    || (c == 65279)

unfoldable pub trim_start : Units → Units
unfolding is_space
trim_start [] = []
trim_start (c ∷ s) = if is_space c then trim_start s else c ∷ s

-- The unit stays, unless it is a space with nothing behind it.
unfoldable pub before_end : ℕ → Units → Units
unfolding is_space
before_end c [] = if is_space c then [] else c ∷ []
before_end c (d ∷ t) = c ∷ d ∷ t

unfoldable pub trim_end : Units → Units
unfolding before_end
trim_end [] = []
trim_end (c ∷ s) = before_end c (trim_end s)

unfoldable pub trim : Units → Units
unfolding trim_start trim_end
trim s = trim_end (trim_start s)

abbrev pub is_high : ℕ → Bool
is_high c = leb 55296 c && leb c 56319

abbrev pub is_low : ℕ → Bool
is_low c = leb 56320 c && leb c 57343

-- `Buffer.byteLength(text, 'utf8')`: four bytes for a surrogate pair, three for half of one. The flag says that
-- the unit before was a high half.
unfoldable pub utf8_length : Bool → Units → ℕ
utf8_length high [] = 0
utf8_length high (c ∷ s) =
    (if ltb c 128 then 1 else if ltb c 2048 then 2 else if high && is_low c then 1 else 3)
    + utf8_length (is_high c) s

unfoldable pub byte_length : Units → ℕ
unfolding utf8_length
byte_length s = utf8_length false s
