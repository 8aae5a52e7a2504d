-- ===== src/Images/Segments.antt =====
-- Files laid out by the formats' own rules, and what `readImageHeader` and `hasExif` read from them
-- (packages/security/src/images.ts). A JPEG is a run of segments before its frame header.
use gundam_tcg_hub.Base.{
  ℕ, ◌+◌, ◌/◌, ◌%◌, ◌≤◌, ◌≡◌, refl, true, false, ◌==◌, ltb, List, [], ◌∷◌, ◌++◌, length, drop, some,
  arith, ap, ◌∙◌, length-drop,
}
use gundam_tcg_hub.Images.Bytes.{Bytes, at, word16, get_uint16, drop-drop, at-drop}
use gundam_tcg_hub.Images.Header.{segment, is_standalone, read_segment, has_segment}

-- A number below 2 ^ 16 in two bytes.
abbrev pub two_bytes : ℕ → Bytes
two_bytes n = (n / 256) ∷ (n % 256) ∷ []

-- A segment: its marker and its payload, whose length is written with its own two bytes.
pub record Part : Type 0 where
  pub marker : ℕ
  pub payload : Bytes

unfoldable pub written : Part → Bytes
written p = 0xff ∷ p.marker ∷ two_bytes (length p.payload + 2) ++ p.payload

-- The marker has a length after it, and is not the start of a scan.
abbrev pub IsPart : ℕ → Type 0
IsPart marker =
    (is_standalone marker ≡ false) × ((marker == 0xda) ≡ false) × ((marker == 0xff) ≡ false)

unfoldable pub all_written : List Part → Bytes
all_written [] = []
all_written (p ∷ ps) = written p ++ all_written ps

pub two_bytes-word16 : (n : ℕ) (rest : Bytes) → word16 (two_bytes n ++ rest) ≡ some n
two_bytes-word16 n rest = ap some (omega arith)

-- At an offset where a marker and a length stand, both walks read a segment.
pub read_segment-written :
    (bytes : Bytes) (offset marker n : ℕ) (rest : Bytes)
    → IsPart marker
    → 2 ≤ n
    → drop offset bytes ≡ 0xff ∷ marker ∷ two_bytes n ++ rest
    → read_segment bytes offset ≡ segment marker n
unfolding read_segment get_uint16
read_segment-written bytes offset marker n rest (alone, scan, fill) le e =
    let a : at bytes offset ≡ some 0xff = at-drop offset bytes ∙ ap (λ xs. at xs 0) e in
    let b : at bytes (offset + 1) ≡ some marker =
      at-drop (offset + 1) bytes
      ∙ ap (λ xs. at xs 0) (drop-drop offset 1 bytes ∙ ap (λ xs. drop 1 xs) e) in
    let c : get_uint16 bytes (offset + 2) ≡ some n =
      ap word16 (drop-drop offset 2 bytes ∙ ap (λ xs. drop 2 xs) e) ∙ two_bytes-word16 n rest in
    let long : ltb n 2 ≡ false = ground arith in rw (a, b, fill, alone, scan, c, long) refl

-- The walks go on where a marker and a length stand.
pub has_segment-written :
    (bytes : Bytes) (offset a b c d : ℕ) (rest : Bytes)
    → drop offset bytes ≡ a ∷ b ∷ c ∷ d ∷ rest
    → has_segment bytes offset ≡ true
unfolding has_segment
has_segment-written bytes offset a b c d rest e =
    let f : length (drop offset bytes) ≡ length (a ∷ b ∷ c ∷ d ∷ rest) = ap length e in
    ground (arith, length-drop offset bytes)

drop-append : (xs ys : Bytes) → drop (length xs) (xs ++ ys) ≡ ys
drop-append [] ys = refl
drop-append (x ∷ xs) ys = drop-append xs ys

-- Past a segment the rest of the file follows.
pub drop-written :
    (bytes : Bytes) (offset : ℕ) (p : Part) (rest : Bytes)
    → drop offset bytes ≡ written p ++ rest
    → drop (offset + (2 + (length p.payload + 2))) bytes ≡ rest
unfolding written
drop-written bytes offset p rest e =
    let size : 2 + (length p.payload + 2) ≡ length (written p) = ground arith in
    drop-drop offset (2 + (length p.payload + 2)) bytes
    ∙ ap (λ xs. drop (2 + (length p.payload + 2)) xs) e
    ∙ ap (λ k. drop k (written p ++ rest)) size
    ∙ drop-append (written p) rest
