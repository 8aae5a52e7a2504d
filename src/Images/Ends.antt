-- ===== src/Images/Ends.antt =====
-- Every walk over an upload ends, and none reads past the end of the file (packages/security/src/images.ts).
use gundam_tcg_hub.Base.{
  ℕ, suc, ◌+◌, ◌<◌, ◌≤◌, ◌≡◌, refl, Bool, true, false, ◌==◌, ◌&&◌, ◌||◌, ltb, leb, length, Option,
  none, some, arith, Bool-cases, Option-cases, inl, inr,
}
use gundam_tcg_hub.Images.Bytes.{
  Bytes, at, get_uint16, get_uint32, get_uint16-some, get_uint32-some,
}
use gundam_tcg_hub.Images.Walk.{next, returned, GoesOn, forward, answers, walk-returned}
use gundam_tcg_hub.Images.Header.{
  ImageType, jpeg, png, ImageHeader, sniff_image_type, Segment, stop, skip, segment, beyond,
  with_length, with_marker, is_byte, is_standalone, is_frame_header, read_segment, has_segment,
  frame, after_segment, header_round, named_ihdr, read_png_header, read_jpeg_header, read_as,
  read_image_header,
}
use gundam_tcg_hub.Images.Exif.{
  exif_name, exif_segment, exif_round, find_jpeg_app1_exif, after_chunk, chunk_round, has_chunk,
  chunk_type, find_png_text_chunk, exif_chunk, exif_as, has_exif,
}

data Ahead (offset : ℕ) : Segment → Type 0 where
  stops : Ahead offset stop
  skips : {o : ℕ} → offset < o → Ahead offset (skip o)
  long : {marker n : ℕ} → 2 ≤ n → Ahead offset (segment marker n)

with_length-Ahead : (offset marker n : ℕ) → Ahead offset (with_length marker (some n))
with_length-Ahead offset marker n = elim (Bool-cases (ltb n 2)) [
  | inl short ↦ rw short stops
  | inr enough ↦ rw enough (long (ground arith))
]

with_marker-Ahead :
    (bytes : Bytes) (offset n marker : ℕ)
    → get_uint16 bytes (offset + 2) ≡ some n
    → Ahead offset (with_marker bytes offset (some marker))
with_marker-Ahead bytes offset n marker e = elim (Bool-cases (marker == 0xff)) [
  | inl h ↦ rw h (skips (omega arith))
  | inr h ↦ elim (Bool-cases (is_standalone marker)) [
    | inl h2 ↦ rw (h, h2) (skips (omega arith))
    | inr h2 ↦ elim (Bool-cases (marker == 0xda)) [
      | inl h3 ↦ rw (h, h2, h3) stops
      | inr h3 ↦ rw (h, h2, h3, e) (with_length-Ahead offset marker n)
    ]
  ]
]

read_segment-Ahead :
    (bytes : Bytes) (offset : ℕ)
    → has_segment bytes offset ≡ true
    → Ahead offset (read_segment bytes offset)
unfolding read_segment has_segment
read_segment-Ahead bytes offset h =
    let (n, e) = get_uint16-some bytes (offset + 2) (ground arith) in
    elim (Bool-cases (is_byte 0xff (at bytes offset))) [
      | inl m ↦ elim (Option-cases (at bytes (offset + 1))) [
        | inl o ↦ rw (m, o) stops
        | inr (marker, o) ↦ rw (m, o) (with_marker-Ahead bytes offset n marker e)
      ]
      | inr m ↦ rw m stops
    ]

-- Both dimensions of a frame header are inside the file.
frame-GoesOn :
    (bytes : Bytes) (offset : ℕ) → GoesOn (Option ImageHeader) offset (frame bytes offset)
unfolding frame
frame-GoesOn bytes offset = elim (Bool-cases (leb (length bytes) (offset + 9))) [
  | inl short ↦ rw short answers
  | inr fits ↦
      let (h, e) = get_uint16-some bytes (offset + 5) (ground arith) in
      let (w, f) = get_uint16-some bytes (offset + 7) (ground arith) in rw (fits, e, f) answers
]

after_segment-GoesOn :
    (bytes : Bytes) (offset : ℕ) (s : Segment)
    → Ahead offset s
    → GoesOn (Option ImageHeader) offset (after_segment bytes offset s)
after_segment-GoesOn bytes offset stop a = answers
after_segment-GoesOn bytes offset (skip o) (skips lt) = forward lt
after_segment-GoesOn bytes offset beyond a = elim a [ ]
after_segment-GoesOn bytes offset (segment marker n) (long le) =
    elim (Bool-cases (is_frame_header marker)) [
      | inl h ↦ rw h (frame-GoesOn bytes offset)
      | inr h ↦ rw h (forward (omega arith))
    ]

-- The name of a segment is read where the guard says that it fits.
exif_name-GoesOn :
    (offset : ℕ) (name : Option ℕ) (fits : Bool) (o : ℕ)
    → offset < o
    → (fits ≡ true → (v : ℕ) × (name ≡ some v))
    → GoesOn Bool offset (exif_name name fits (next o))
exif_name-GoesOn offset none false o lt inside = forward lt
exif_name-GoesOn offset none true o lt inside = absurd (ground arith)
exif_name-GoesOn offset (some v) false o lt inside = forward lt
exif_name-GoesOn offset (some v) true o lt inside = elim (Bool-cases (v == 0x45786966)) [
  | inl h ↦ rw h answers
  | inr h ↦ rw h (forward lt)
]

exif_segment-GoesOn :
    (bytes : Bytes) (offset : ℕ) (s : Segment)
    → Ahead offset s
    → GoesOn Bool offset (exif_segment bytes offset s)
exif_segment-GoesOn bytes offset stop a = answers
exif_segment-GoesOn bytes offset (skip o) (skips lt) = forward lt
exif_segment-GoesOn bytes offset beyond a = elim a [ ]
exif_segment-GoesOn bytes offset (segment marker n) (long le) =
    exif_name-GoesOn offset (get_uint32 bytes (offset + 4))
      ((marker == 0xe1) && ltb (offset + 8) (length bytes)) (offset + (2 + n)) (omega arith)
      (λ fits. get_uint32-some bytes (offset + 4) (ground arith))

after_chunk-GoesOn :
    (bytes : Bytes) (wanted offset n type : ℕ)
    → GoesOn Bool offset (after_chunk bytes wanted offset (some n) (some type))
after_chunk-GoesOn bytes wanted offset n type = elim (Bool-cases (type == wanted)) [
  | inl h ↦ rw h answers
  | inr h ↦
      elim (Bool-cases (leb (offset + 12 + n) offset || ltb (length bytes) (offset + 12 + n))) [
        | inl g ↦ rw (h, g) answers
        | inr g ↦ rw (h, g) (forward (omega arith))
      ]
]

chunk_round-GoesOn :
    (bytes : Bytes) (wanted offset : ℕ)
    → has_chunk bytes offset ≡ true
    → GoesOn Bool offset (chunk_round bytes wanted offset)
unfolding chunk_round has_chunk
chunk_round-GoesOn bytes wanted offset h =
    let (n, e) = get_uint32-some bytes offset (ground arith) in
    let (type, f) = get_uint32-some bytes (offset + 4) (ground arith) in
    rw (e, f) (after_chunk-GoesOn bytes wanted offset n type)

read_jpeg_header-returned :
    (bytes : Bytes) → (h : Option ImageHeader) × (read_jpeg_header bytes ≡ returned h)
unfolding read_jpeg_header header_round has_segment
read_jpeg_header-returned bytes =
    walk-returned (has_segment bytes) (header_round bytes) none (length bytes)
      (λ offset h. (
        ground arith,
        after_segment-GoesOn bytes offset (read_segment bytes offset)
            (read_segment-Ahead bytes offset h),
      ))
      (suc (length bytes)) 2 (omega arith)

named_ihdr-returned :
    (bytes : Bytes) (name w h : ℕ)
    → get_uint32 bytes 16 ≡ some w
    → get_uint32 bytes 20 ≡ some h
    → (o : Option ImageHeader) × (named_ihdr (some name) bytes ≡ returned o)
named_ihdr-returned bytes name w h f g = elim (Bool-cases (name == 0x49484452)) [
  | inl e ↦ rw (e, f, g) (some (record { type = png; width = w; height = h }), refl)
  | inr e ↦ rw e (none, refl)
]

read_png_header-returned :
    (bytes : Bytes) → (h : Option ImageHeader) × (read_png_header bytes ≡ returned h)
unfolding read_png_header
read_png_header-returned bytes = elim (Bool-cases (ltb (length bytes) 24)) [
  | inl short ↦ rw short (none, refl)
  | inr fits ↦
      let (name, e) = get_uint32-some bytes 12 (ground arith) in
      let (w, f) = get_uint32-some bytes 16 (ground arith) in
      let (h, g) = get_uint32-some bytes 20 (ground arith) in
      rw (fits, e) (named_ihdr-returned bytes name w h f g)
]

read_as-returned :
    (type : Option ImageType) (bytes : Bytes)
    → (h : Option ImageHeader) × (read_as type bytes ≡ returned h)
read_as-returned none bytes = (none, refl)
read_as-returned (some png) bytes = read_png_header-returned bytes
read_as-returned (some jpeg) bytes = read_jpeg_header-returned bytes

exif_as-returned :
    (type : Option ImageType) (bytes : Bytes) → (b : Bool) × (exif_as type bytes ≡ returned b)
unfolding find_jpeg_app1_exif find_png_text_chunk exif_round has_segment has_chunk
exif_as-returned none bytes = (false, refl)
exif_as-returned (some png) bytes =
    let wanted = chunk_type exif_chunk in
    walk-returned (has_chunk bytes) (chunk_round bytes wanted) false (length bytes)
      (λ offset h. (ground arith, chunk_round-GoesOn bytes wanted offset h)) (suc (length bytes)) 8
      (omega arith)
exif_as-returned (some jpeg) bytes =
    walk-returned (has_segment bytes) (exif_round bytes) false (length bytes)
      (λ offset h. (
        ground arith,
        exif_segment-GoesOn bytes offset (read_segment bytes offset)
            (read_segment-Ahead bytes offset h),
      ))
      (suc (length bytes)) 2 (omega arith)

-- Whatever the bytes, the reader of the header and the search for EXIF come to an end and answer: no walk turns in
-- circles, runs out of the fuel of one round for each byte and one more, or reads past the end of the file.
pub every_walk_ends :
    (bytes : Bytes)
    → ((h : Option ImageHeader) × (read_image_header bytes ≡ returned h))
      × ((b : Bool) × (has_exif bytes ≡ returned b))
unfolding read_image_header has_exif
every_walk_ends bytes = (
  read_as-returned (sniff_image_type bytes) bytes,
  exif_as-returned (sniff_image_type bytes) bytes,
)
