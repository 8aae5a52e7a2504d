-- ===== src/Images/Exif.antt =====
-- Whether a file carries EXIF (`hasExif` in packages/security/src/images.ts).
use gundam_tcg_hub.Base.{
  ℕ, suc, ◌+◌, ◌*◌, ◌%◌, ◌^◌, Bool, true, false, ◌&&◌, ◌||◌, ◌==◌, ltb, leb, if◌then◌else◌, [], ◌∷◌,
  length, Option, none, some,
}
use gundam_tcg_hub.Text.{Units}
use gundam_tcg_hub.Images.Bytes.{Bytes, get_uint32}
use gundam_tcg_hub.Images.Walk.{Round, next, answer, range_error, Run, returned, walk}
use gundam_tcg_hub.Images.Header.{
  ImageType, jpeg, png, sniff_image_type, Segment, stop, skip, segment, beyond, read_segment,
  has_segment,
}

-- `marker === 0xe1 && offset + 8 < bytes.length && view.getUint32(offset + 4) === 0x45786966`
abbrev pub exif_name : Option ℕ → Bool → Round Bool → Round Bool
exif_name none fits otherwise = if fits then range_error else otherwise
exif_name (some name) fits otherwise =
    if fits && (name == 0x45786966) then answer true else otherwise

-- A round of the walk of `findJpegApp1Exif`.
abbrev pub exif_segment : Bytes → ℕ → Segment → Round Bool
exif_segment bytes offset stop = answer false
exif_segment bytes offset (skip o) = next o
exif_segment bytes offset beyond = range_error
exif_segment bytes offset (segment marker n) =
    exif_name (get_uint32 bytes (offset + 4)) ((marker == 0xe1) && ltb (offset + 8) (length bytes))
      (next (offset + (2 + n)))

unfoldable pub exif_round : Bytes → ℕ → Round Bool
exif_round bytes offset = exif_segment bytes offset (read_segment bytes offset)

unfoldable pub find_jpeg_app1_exif : Bytes → Run Bool
find_jpeg_app1_exif bytes = walk (has_segment bytes) (exif_round bytes) false (suc (length bytes)) 2

-- The word of a chunk's name, for character codes below 256, where `|` adds.
abbrev pub chunk_word : ℕ → Units → ℕ
chunk_word word [] = word
chunk_word word (c ∷ name) = chunk_word ((word * 256 + c) % 2 ^ 32) name

unfoldable pub chunk_type : Units → ℕ
chunk_type name = chunk_word 0 name

-- A round of the walk of `findPngTextChunk`, with the chunk's length and its type.
abbrev pub after_chunk : Bytes → ℕ → ℕ → Option ℕ → Option ℕ → Round Bool
after_chunk bytes wanted offset (some n) (some type) =
    if type == wanted
    then answer true
    else if leb (offset + 12 + n) offset || ltb (length bytes) (offset + 12 + n)
    then answer false
    else next (offset + 12 + n)
after_chunk bytes wanted offset _ _ = range_error

unfoldable pub chunk_round : Bytes → ℕ → ℕ → Round Bool
chunk_round bytes wanted offset =
    after_chunk bytes wanted offset (get_uint32 bytes offset) (get_uint32 bytes (offset + 4))

unfoldable pub has_chunk : Bytes → ℕ → Bool
has_chunk bytes offset = leb (offset + 8) (length bytes)

unfoldable pub find_png_text_chunk : Bytes → Units → Run Bool
find_png_text_chunk bytes name =
    walk (has_chunk bytes) (chunk_round bytes (chunk_type name)) false (suc (length bytes)) 8

-- `'eXIf'`
abbrev pub exif_chunk : Units
exif_chunk = 101 ∷ 88 ∷ 73 ∷ 102 ∷ []

abbrev pub exif_as : Option ImageType → Bytes → Run Bool
exif_as (some jpeg) bytes = find_jpeg_app1_exif bytes
exif_as (some png) bytes = find_png_text_chunk bytes exif_chunk
exif_as none bytes = returned false

unfoldable pub has_exif : Bytes → Run Bool
has_exif bytes = exif_as (sniff_image_type bytes) bytes
