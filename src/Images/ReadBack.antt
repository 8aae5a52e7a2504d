-- ===== src/Images/ReadBack.antt =====
-- The dimensions that `readImageHeader` reads from a file laid out by the formats' own rules
-- (packages/security/src/images.ts).
use mathlib.Core.List.{append_assoc}
use gundam_tcg_hub.Base.{
  ℕ, zero, suc, ◌+◌, ◌/◌, ◌%◌, ◌<◌, ◌≤◌, ◌≡◌, refl, true, false, ltb, leb, List, [], ◌∷◌, ◌++◌,
  length, drop, All, none, some, arith, ap, ◌∙◌, length-drop, length-append,
}
use gundam_tcg_hub.Images.Bytes.{
  Bytes, word16, word32, get_uint16, get_uint32, starts_with, drop-drop,
}
use gundam_tcg_hub.Images.Walk.{answer, returned, walk, walk-inside}
use gundam_tcg_hub.Images.Header.{
  jpeg, png, jpeg_soi, png_signature, sniff_image_type, is_standalone, is_frame_header, has_segment,
  frame, header_round, read_png_header, read_jpeg_header, read_image_header,
}
use gundam_tcg_hub.Images.Segments.{
  two_bytes, two_bytes-word16, Part, written, IsPart, all_written, read_segment-written,
  has_segment-written, drop-written,
}

-- A frame header: its marker, its length, a byte of precision, and the dimensions.
unfoldable pub frame_header : ℕ → ℕ → ℕ → ℕ → ℕ → Bytes
frame_header marker n precision height width =
    0xff ∷ marker ∷ two_bytes n ++ precision ∷ two_bytes height ++ two_bytes width

-- A segment of metadata: it is not a frame header either.
abbrev pub IsMetadata : Part → Type 0
IsMetadata p = IsPart p.marker × (is_frame_header p.marker ≡ false)

frame_marker-IsPart : (marker : ℕ) → is_frame_header marker ≡ true → IsPart marker
unfolding is_frame_header is_standalone
frame_marker-IsPart marker h = ground arith

frame-sizes :
    (bytes : Bytes) (offset marker n precision height width x : ℕ) (rest : Bytes)
    → drop offset bytes ≡ frame_header marker n precision height width ++ x ∷ rest
    → frame bytes offset ≡ answer (some (record { type = jpeg; width = width; height = height }))
unfolding frame frame_header get_uint16
frame-sizes bytes offset marker n precision height width x rest e =
    let long : length (drop offset bytes) ≡ 10 + length rest = ap length e ∙ omega arith in
    let fits : leb (length bytes) (offset + 9) ≡ false = ground (arith, length-drop offset bytes) in
    let h : get_uint16 bytes (offset + 5) ≡ some height =
      ap word16 (drop-drop offset 5 bytes ∙ ap (λ xs. drop 5 xs) e)
      ∙ two_bytes-word16 height (two_bytes width ++ x ∷ rest) in
    let w : get_uint16 bytes (offset + 7) ≡ some width =
      ap word16 (drop-drop offset 7 bytes ∙ ap (λ xs. drop 7 xs) e)
      ∙ two_bytes-word16 width (x ∷ rest) in
    rw (fits, h, w) refl

-- The walk passes the metadata and stops at the frame header.
walk_to_frame :
    (bytes : Bytes) (ps : List Part) (marker n precision height width x : ℕ) (rest : Bytes)
    (fuel offset : ℕ)
    → All IsMetadata ps
    → is_frame_header marker ≡ true
    → 2 ≤ n
    → drop offset bytes
      ≡ all_written ps ++ (frame_header marker n precision height width ++ x ∷ rest)
    → length ps < fuel
    → walk (has_segment bytes) (header_round bytes) none fuel offset
      ≡ returned (some (record { type = jpeg; width = width; height = height }))
unfolding header_round all_written frame_header written
walk_to_frame bytes ps marker n precision height width x rest zero offset all f le e h =
    absurd (omega arith)
walk_to_frame bytes [] marker n precision height width x rest (suc fuel) offset all f le e h =
    let inside = has_segment-written bytes offset _ _ _ _ _ e in
    let read = read_segment-written bytes offset marker n _ (frame_marker-IsPart marker f) le e in
    rw
      (
        walk-inside (has_segment bytes) (header_round bytes) none fuel offset inside,
        read,
        f,
        frame-sizes bytes offset marker n precision height width x rest e,
      )
      refl
walk_to_frame bytes (p ∷ ps) marker n precision height width x rest (suc fuel) offset
      ((part, no_frame), all) f le e h =
    let d =
      e
      ∙ append_assoc (written p) (all_written ps)
          (frame_header marker n precision height width ++ x ∷ rest) in
    let inside = has_segment-written bytes offset _ _ _ _ _ d in
    let read =
      read_segment-written bytes offset p.marker (length p.payload + 2) _ part (omega arith) d in
    rw
      (walk-inside (has_segment bytes) (header_round bytes) none fuel offset inside, read, no_frame)
      (walk_to_frame bytes ps marker n precision height width x rest fuel _ all f le
        (drop-written bytes offset p _ d) (omega arith))

pub length-all_written : (ps : List Part) → length ps ≤ length (all_written ps)
unfolding all_written written
length-all_written [] = omega arith
length-all_written (p ∷ ps) =
    omega (arith, length-all_written ps, length-append (written p) (all_written ps))

-- A JPEG: metadata, a frame header, and at least one byte more.
unfoldable pub jpeg_file : List Part → Bytes → Bytes
jpeg_file ps tail = jpeg_soi ++ (all_written ps ++ tail)

-- A number below 2 ^ 32 in four bytes.
abbrev pub four_bytes : ℕ → Bytes
four_bytes n = (n / 16777216) ∷ (n / 65536 % 256) ∷ (n / 256 % 256) ∷ (n % 256) ∷ []

four_bytes-word32 : (n : ℕ) (rest : Bytes) → word32 (four_bytes n ++ rest) ≡ some n
four_bytes-word32 n rest = ap some (omega arith)

-- A PNG: the signature, and a first chunk `IHDR` that starts with the dimensions.
unfoldable pub png_file : ℕ → ℕ → Bytes → Bytes
png_file width height rest =
    png_signature
    ++ (four_bytes 13
        ++ (0x49 ∷ 0x48 ∷ 0x44 ∷ 0x52 ∷ (four_bytes width ++ (four_bytes height ++ rest))))

jpeg_header-read :
    (ps : List Part) (marker n precision height width x : ℕ) (rest : Bytes)
    → All IsMetadata ps
    → is_frame_header marker ≡ true
    → 2 ≤ n
    → read_image_header (jpeg_file ps (frame_header marker n precision height width ++ x ∷ rest))
      ≡ returned (some (record { type = jpeg; width = width; height = height }))
unfolding read_image_header read_jpeg_header jpeg_file sniff_image_type starts_with
jpeg_header-read ps marker n precision height width x rest all f le =
    walk_to_frame (jpeg_file ps (frame_header marker n precision height width ++ x ∷ rest)) ps
      marker n precision height width x rest _ 2 all f le refl
      (omega (
        arith,
        length-all_written ps,
        length-append (all_written ps) (frame_header marker n precision height width ++ x ∷ rest),
      ))

ihdr-read :
    (bytes : Bytes) (width height : ℕ)
    → ltb (length bytes) 24 ≡ false
    → get_uint32 bytes 12 ≡ some 0x49484452
    → get_uint32 bytes 16 ≡ some width
    → get_uint32 bytes 20 ≡ some height
    → read_png_header bytes
      ≡ returned (some (record { type = png; width = width; height = height }))
unfolding read_png_header
ihdr-read bytes width height long name w h = rw (long, name, w, h) refl

png_header-read :
    (width height : ℕ) (rest : Bytes)
    → read_image_header (png_file width height rest)
      ≡ returned (some (record { type = png; width = width; height = height }))
unfolding read_image_header read_png_header png_file sniff_image_type starts_with get_uint32
png_header-read width height rest =
    ihdr-read (png_file width height rest) width height (ground arith) refl
      (four_bytes-word32 width (four_bytes height ++ rest)) (four_bytes-word32 height rest)

-- The dimensions that a file is written with are read back. A JPEG may have any run of metadata segments before the
-- frame header, whose marker is one of the thirteen that start a frame, and something follows that header; a PNG's
-- first chunk starts with the dimensions, and anything follows them.
pub header_read_back :
    (ps : List Part) (marker n precision height width x : ℕ) (rest : Bytes)
    → All IsMetadata ps
    → is_frame_header marker ≡ true
    → 2 ≤ n
    → (read_image_header (jpeg_file ps (frame_header marker n precision height width ++ x ∷ rest))
        ≡ returned (some (record { type = jpeg; width = width; height = height })))
      × (read_image_header (png_file width height rest)
          ≡ returned (some (record { type = png; width = width; height = height })))
header_read_back ps marker n precision height width x rest all f le = (
  jpeg_header-read ps marker n precision height width x rest all f le,
  png_header-read width height rest,
)
