-- ===== src/Images/Located.antt =====
-- Where `hasExif` finds EXIF in a JPEG (packages/security/src/images.ts).
use mathlib.Core.List.{append_assoc}
use gundam_tcg_hub.Base.{
  ℕ, zero, suc, ◌+◌, ◌*◌, ◌/◌, ◌%◌, ◌<◌, ◌≡◌, refl, Bool, true, false, ◌==◌, ◌&&◌, ◌||◌, ltb,
  if◌then◌else◌, List, [], ◌∷◌, ◌++◌, length, drop, All, some, arith, ap, ◌∙◌, length-drop,
  length-append, Bool-cases, inl, inr,
}
use gundam_tcg_hub.Images.Bytes.{Bytes, word32, get_uint32, starts_with, drop-drop, at, at-drop}
use gundam_tcg_hub.Images.Walk.{next, answer, returned, walk, walk-inside}
use gundam_tcg_hub.Images.Header.{sniff_image_type, is_standalone, has_segment, read_segment}
use gundam_tcg_hub.Images.Exif.{exif_round, find_jpeg_app1_exif, has_exif}
use gundam_tcg_hub.Images.Segments.{
  two_bytes, Part, written, IsPart, all_written, read_segment-written, has_segment-written,
  drop-written,
}
use gundam_tcg_hub.Images.ReadBack.{jpeg_file, length-all_written}

abbrev pub IsByte : ℕ → Type 0
IsByte b = b < 256

-- The ASCII `Exif`.
abbrev pub exif_bytes : Bytes
exif_bytes = 0x45 ∷ 0x78 ∷ 0x69 ∷ 0x66 ∷ []

-- A segment that carries EXIF: an APP1 whose payload starts so.
abbrev pub is_exif : Part → Bool
is_exif p = (p.marker == 0xe1) && starts_with p.payload exif_bytes

unfoldable pub any_exif : List Part → Bool
any_exif [] = false
any_exif (p ∷ ps) = is_exif p || any_exif ps

-- The start of the scan, with its length.
unfoldable pub scan_start : ℕ → ℕ → Bytes → Bytes
scan_start a b rest = 0xff ∷ 0xda ∷ a ∷ b ∷ rest

-- A segment that a file can hold: every number in it is a byte, and its length fits in two of them.
abbrev pub IsOrdinary : Part → Type 0
IsOrdinary p =
    IsPart p.marker × IsByte p.marker × (length p.payload + 2 < 65536) × All IsByte p.payload

word_name :
    (a b c d : ℕ)
    → IsByte a
    → IsByte b
    → IsByte c
    → IsByte d
    → ((((a * 256 + b) * 256 + c) * 256 + d) == 0x45786966)
      ≡ starts_with (a ∷ b ∷ c ∷ d ∷ []) exif_bytes
unfolding starts_with
word_name a b c d ha hb hc hd = ground arith

-- The word at the payload is the name exactly if the payload starts with it: what follows a shorter payload is a
-- marker, and no marker is in the name.
name_word :
    (payload : Bytes) (a b c : ℕ) (rest : Bytes)
    → All IsByte payload
    → IsByte a
    → IsByte b
    → IsByte c
    → (v : ℕ) × (word32 (payload ++ 0xff ∷ a ∷ b ∷ c ∷ rest) ≡ some v)
      × ((v == 0x45786966) ≡ starts_with payload exif_bytes)
unfolding starts_with
name_word [] a b c rest all ha hb hc = (_, refl, word_name 255 a b c (omega arith) ha hb hc)
name_word (p ∷ []) a b c rest (hp, all) ha hb hc =
    (_, refl, word_name p 255 a b hp (omega arith) ha hb)
name_word (p ∷ q ∷ []) a b c rest (hp, (hq, all)) ha hb hc =
    (_, refl, word_name p q 255 a hp hq (omega arith) ha)
name_word (p ∷ q ∷ r ∷ []) a b c rest (hp, (hq, (hr, all))) ha hb hc =
    (_, refl, word_name p q r 255 hp hq hr (omega arith))
name_word (p ∷ q ∷ r ∷ s ∷ xs) a b c rest (hp, (hq, (hr, (hs, all)))) ha hb hc =
    (_, refl, word_name p q r s hp hq hr hs)

-- What follows a segment: a marker, its length, and one byte more.
record Follows (tail : Bytes) : Type 0 where
  a : ℕ
  b : ℕ
  c : ℕ
  x : ℕ
  rest : Bytes
  shape : tail ≡ 0xff ∷ a ∷ b ∷ c ∷ x ∷ rest
  byte_a : IsByte a
  byte_b : IsByte b
  byte_c : IsByte c

two_bytes-IsByte : (n : ℕ) → n < 65536 → IsByte (n / 256) × IsByte (n % 256)
two_bytes-IsByte n h = (omega arith, omega arith)

append-cons : (xs : Bytes) (y : ℕ) (ys : Bytes) → (z : ℕ) × (zs : Bytes) × (xs ++ (y ∷ ys) ≡ z ∷ zs)
append-cons [] y ys = (y, ys, refl)
append-cons (x ∷ xs) y ys = (x, xs ++ (y ∷ ys), refl)

tail-Follows :
    (ps : List Part) (a b x : ℕ) (rest : Bytes)
    → All IsOrdinary ps
    → IsByte a
    → IsByte b
    → Follows (all_written ps ++ scan_start a b (x ∷ rest))
unfolding all_written written scan_start
tail-Follows [] a b x rest all ha hb = record {
  a = 0xda;
  b = a;
  c = b;
  x = x;
  rest = rest;
  shape = refl;
  byte_a = omega arith;
  byte_b = ha;
  byte_c = hb;
}
tail-Follows (p ∷ ps) a b x rest ((part, m, n, payload), all) ha hb =
    let (y, ys, e) = append-cons (p.payload ++ all_written ps) 0xff (0xda ∷ a ∷ b ∷ x ∷ rest) in
    let (high, low) = two_bytes-IsByte (length p.payload + 2) n in
    record {
      a = p.marker;
      b = (length p.payload + 2) / 256;
      c = (length p.payload + 2) % 256;
      x = y;
      rest = ys;
      shape = ap (λ l. 0xff ∷ p.marker ∷ two_bytes (length p.payload + 2) ++ l) e;
      byte_a = m;
      byte_b = high;
      byte_c = low;
    }

and-true :
    (b c : Bool) (o : ℕ)
    → (if (b && true) && c then answer true else next o) ≡ (if b && c then answer true else next o)
and-true true c o = refl
and-true false c o = refl

-- A round at a segment finds EXIF exactly if the segment carries it, and passes it otherwise.
exif_round-part :
    (bytes : Bytes) (offset : ℕ) (p : Part) (tail : Bytes)
    → IsOrdinary p
    → Follows tail
    → drop offset bytes ≡ written p ++ tail
    → exif_round bytes offset
      ≡ (if is_exif p then answer true else next (offset + (2 + (length p.payload + 2))))
unfolding exif_round written get_uint32
exif_round-part bytes offset p tail (part, m, n, payload) f e =
    let read =
      read_segment-written bytes offset p.marker (length p.payload + 2) _ part (omega arith) e in
    let (v, word, name) =
      name_word p.payload f.a f.b f.c (f.x ∷ f.rest) payload f.byte_a f.byte_b f.byte_c in
    let w : get_uint32 bytes (offset + 4) ≡ some v =
      ap word32
        (drop-drop offset 4 bytes ∙ ap (λ xs. drop 4 xs) e ∙ ap (λ t. p.payload ++ t) f.shape)
      ∙ word in
    let fits : ltb (offset + 8) (length bytes) ≡ true =
      let long : length (drop offset bytes) ≡ length (written p ++ tail) = ap length e in
      let rest : length tail ≡ 5 + length f.rest = ap length f.shape ∙ omega arith in
      ground (arith, length-drop offset bytes, length-append (p.payload) tail) in
    rw (read, w, fits, name) (and-true (p.marker == 0xe1) (starts_with p.payload exif_bytes) _)

-- The walk ends at the start of the scan.
exif_round-scan :
    (bytes : Bytes) (offset a b : ℕ) (rest : Bytes)
    → drop offset bytes ≡ scan_start a b rest
    → exif_round bytes offset ≡ answer false
unfolding exif_round read_segment scan_start is_standalone
exif_round-scan bytes offset a b rest e =
    let f : at bytes offset ≡ some 0xff = at-drop offset bytes ∙ ap (λ xs. at xs 0) e in
    let g : at bytes (offset + 1) ≡ some 0xda =
      at-drop (offset + 1) bytes
      ∙ ap (λ xs. at xs 0) (drop-drop offset 1 bytes ∙ ap (λ xs. drop 1 xs) e) in
    rw (f, g) refl

walk_to_scan :
    (bytes : Bytes) (ps : List Part) (a b x : ℕ) (rest : Bytes) (fuel offset : ℕ)
    → All IsOrdinary ps
    → IsByte a
    → IsByte b
    → drop offset bytes ≡ all_written ps ++ scan_start a b (x ∷ rest)
    → length ps < fuel
    → walk (has_segment bytes) (exif_round bytes) false fuel offset ≡ returned (any_exif ps)
unfolding all_written any_exif written scan_start
walk_to_scan bytes ps a b x rest zero offset all ha hb e h = absurd (omega arith)
walk_to_scan bytes [] a b x rest (suc fuel) offset all ha hb e h =
    let inside = has_segment-written bytes offset _ _ _ _ _ e in
    rw
      (
        walk-inside (has_segment bytes) (exif_round bytes) false fuel offset inside,
        exif_round-scan bytes offset a b (x ∷ rest) e,
      )
      refl
walk_to_scan bytes (p ∷ ps) a b x rest (suc fuel) offset (o, all) ha hb e h =
    let d = e ∙ append_assoc (written p) (all_written ps) (scan_start a b (x ∷ rest)) in
    let inside = has_segment-written bytes offset _ _ _ _ _ d in
    let round = exif_round-part bytes offset p _ o (tail-Follows ps a b x rest all ha hb) d in
    let on =
      walk_to_scan bytes ps a b x rest fuel _ all ha hb (drop-written bytes offset p _ d)
        (omega arith) in
    elim (Bool-cases (is_exif p)) [
      | inl found ↦
          rw
            (
              walk-inside (has_segment bytes) (exif_round bytes) false fuel offset inside,
              round,
              found,
            )
            refl
      | inr lost ↦
          rw
            (
              walk-inside (has_segment bytes) (exif_round bytes) false fuel offset inside,
              round,
              lost,
            )
            on
    ]

-- A JPEG that is any run of segments and then a scan has EXIF for `hasExif` exactly if one of the segments is an APP1
-- whose payload starts with the ASCII `Exif`, wherever it stands among them: the segments' numbers are bytes, their
-- lengths fit in two bytes, and the scan has at least one byte after its length.
pub has_exif-jpeg_file :
    (ps : List Part) (a b x : ℕ) (rest : Bytes)
    → All IsOrdinary ps
    → IsByte a
    → IsByte b
    → has_exif (jpeg_file ps (scan_start a b (x ∷ rest))) ≡ returned (any_exif ps)
unfolding has_exif find_jpeg_app1_exif jpeg_file sniff_image_type starts_with
has_exif-jpeg_file ps a b x rest all ha hb =
    walk_to_scan (jpeg_file ps (scan_start a b (x ∷ rest))) ps a b x rest _ 2 all ha hb refl (
      omega
        (arith, length-all_written ps, length-append (all_written ps) (scan_start a b (x ∷ rest))))
