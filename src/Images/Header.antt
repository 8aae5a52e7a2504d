-- ===== src/Images/Header.antt =====
-- The type and the dimensions that a file's header declares (`sniffImageType`, `readImageHeader` and `endsCleanly` in
-- packages/security/src/images.ts).
use gundam_tcg_hub.Base.{
  ℕ, suc, ◌+◌, Bool, false, ◌&&◌, ◌||◌, not, ◌==◌, ltb, leb, if◌then◌else◌, [], ◌∷◌, length, Option,
  none, some,
}
use gundam_tcg_hub.Images.Bytes.{Bytes, at, get_uint16, get_uint32, starts_with, ends_with}
use gundam_tcg_hub.Images.Walk.{Round, next, answer, range_error, Run, returned, threw, walk}

pub data ImageType : Type 0 where
  jpeg : ImageType
  png : ImageType

abbrev pub jpeg_soi : Bytes
jpeg_soi = 0xff ∷ 0xd8 ∷ []

abbrev pub png_signature : Bytes
png_signature = 0x89 ∷ 0x50 ∷ 0x4e ∷ 0x47 ∷ 0x0d ∷ 0x0a ∷ 0x1a ∷ 0x0a ∷ []

abbrev pub png_iend : Bytes
png_iend = 0x00 ∷ 0x00 ∷ 0x00 ∷ 0x00 ∷ 0x49 ∷ 0x45 ∷ 0x4e ∷ 0x44 ∷ 0xae ∷ 0x42 ∷ 0x60 ∷ 0x82 ∷ []

abbrev pub jpeg_eoi : Bytes
jpeg_eoi = 0xff ∷ 0xd9 ∷ []

unfoldable pub sniff_image_type : Bytes → Option ImageType
sniff_image_type bytes =
    if starts_with bytes png_signature
    then some png
    else if starts_with bytes jpeg_soi
    then some jpeg
    else none

pub record ImageHeader : Type 0 where
  pub type : ImageType
  pub width : ℕ
  pub height : ℕ

-- A header with two numbers that the file may be too short to have: reading past its end throws.
abbrev pub with_sizes : ImageType → Option ℕ → Option ℕ → Run (Option ImageHeader)
with_sizes type (some w) (some h) = returned (some (record { type = type; width = w; height = h }))
with_sizes type _ _ = threw

-- `view.getUint32(12) !== 0x49484452`
abbrev pub named_ihdr : Option ℕ → Bytes → Run (Option ImageHeader)
named_ihdr none bytes = threw
named_ihdr (some name) bytes =
    if name == 0x49484452
    then with_sizes png (get_uint32 bytes 16) (get_uint32 bytes 20)
    else returned none

unfoldable pub read_png_header : Bytes → Run (Option ImageHeader)
read_png_header bytes =
    if ltb (length bytes) 24 then returned none else named_ihdr (get_uint32 bytes 12) bytes

-- The markers that carry no length.
unfoldable pub is_standalone : ℕ → Bool
is_standalone marker =
    (marker == 0xd8) || ((marker == 0xd9) || (leb 0xd0 marker && leb marker 0xd7))

unfoldable pub is_frame_header : ℕ → Bool
is_frame_header marker =
    leb 0xc0 marker
    && (leb marker 0xcf && (not (marker == 0xc4) && (not (marker == 0xc8) && not (marker == 0xcc))))

-- What both walks over a JPEG find at an offset: the walk ends, it skips to another offset, or there is a
-- segment with a marker and a length.
pub data Segment : Type 0 where
  stop : Segment
  skip : ℕ → Segment
  segment : ℕ → ℕ → Segment
  beyond : Segment

abbrev pub with_length : ℕ → Option ℕ → Segment
with_length marker none = beyond
with_length marker (some n) = if ltb n 2 then stop else segment marker n

abbrev pub with_marker : Bytes → ℕ → Option ℕ → Segment
with_marker bytes offset none = stop
with_marker bytes offset (some marker) =
    if marker == 0xff
    then skip (offset + 1)
    else if is_standalone marker
    then skip (offset + 2)
    else if marker == 0xda
    then stop
    else with_length marker (get_uint16 bytes (offset + 2))

abbrev pub is_byte : ℕ → Option ℕ → Bool
is_byte n none = false
is_byte n (some b) = b == n

unfoldable pub read_segment : Bytes → ℕ → Segment
read_segment bytes offset =
    if is_byte 0xff (at bytes offset)
    then with_marker bytes offset (at bytes (offset + 1))
    else stop

-- The dimensions of a frame header.
abbrev pub frame_sizes : Option ℕ → Option ℕ → Round (Option ImageHeader)
frame_sizes (some h) (some w) = answer (some (record { type = jpeg; width = w; height = h }))
frame_sizes _ _ = range_error

unfoldable pub frame : Bytes → ℕ → Round (Option ImageHeader)
frame bytes offset =
    if leb (length bytes) (offset + 9)
    then answer none
    else frame_sizes (get_uint16 bytes (offset + 5)) (get_uint16 bytes (offset + 7))

-- A round of the walk of `readJpegHeader`.
abbrev pub after_segment : Bytes → ℕ → Segment → Round (Option ImageHeader)
after_segment bytes offset stop = answer none
after_segment bytes offset (skip o) = next o
after_segment bytes offset beyond = range_error
after_segment bytes offset (segment marker n) =
    if is_frame_header marker then frame bytes offset else next (offset + (2 + n))

unfoldable pub header_round : Bytes → ℕ → Round (Option ImageHeader)
header_round bytes offset = after_segment bytes offset (read_segment bytes offset)

-- The loops go on while a marker and a length fit.
unfoldable pub has_segment : Bytes → ℕ → Bool
has_segment bytes offset = ltb (offset + 3) (length bytes)

unfoldable pub read_jpeg_header : Bytes → Run (Option ImageHeader)
read_jpeg_header bytes = walk (has_segment bytes) (header_round bytes) none (suc (length bytes)) 2

abbrev pub read_as : Option ImageType → Bytes → Run (Option ImageHeader)
read_as (some png) bytes = read_png_header bytes
read_as (some jpeg) bytes = read_jpeg_header bytes
read_as none bytes = returned none

unfoldable pub read_image_header : Bytes → Run (Option ImageHeader)
read_image_header bytes = read_as (sniff_image_type bytes) bytes

abbrev pub ends_as : Option ImageType → Bytes → Bool
ends_as (some png) bytes = ends_with bytes png_iend
ends_as (some jpeg) bytes = ends_with bytes jpeg_eoi
ends_as none bytes = false

unfoldable pub ends_cleanly : Bytes → Bool
ends_cleanly bytes = ends_as (sniff_image_type bytes) bytes
