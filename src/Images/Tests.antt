-- ===== src/Images/Tests.antt =====
-- Runs of the upload checks, and the theorems about them at concrete files.
use gundam_tcg_hub.Base.{◌≡◌, refl, Bool, true, [], ◌∷◌, ◌++◌, Option, none, some, arith}
use gundam_tcg_hub.Images.Bytes.{Bytes, starts_with, ends_with, get_uint32}
use gundam_tcg_hub.Images.Walk.{returned}
use gundam_tcg_hub.Images.Header.{
  jpeg, png, ImageHeader, png_iend, sniff_image_type, read_png_header, read_image_header,
  ends_cleanly, is_standalone, is_frame_header,
}
use gundam_tcg_hub.Images.Exif.{has_exif}
use gundam_tcg_hub.Images.Ends.{every_walk_ends}
use gundam_tcg_hub.Images.Inspect.{
  InspectOptions, accepted, rejected, type_mismatch, trailing_data, inspect_header, inspect_type,
  inspect_image,
}
use gundam_tcg_hub.Images.Segments.{Part}
use gundam_tcg_hub.Images.ReadBack.{frame_header, jpeg_file, png_file, header_read_back}
use gundam_tcg_hub.Images.Located.{any_exif, scan_start, has_exif-jpeg_file}

abbrev photo : Bytes
photo = png_file 800 600 (8 ∷ 2 ∷ png_iend)

abbrev declared_png : InspectOptions
declared_png = record { declared_type = some png; max_bytes = none }

abbrev declared_jpeg : InspectOptions
declared_jpeg = record { declared_type = some jpeg; max_bytes = none }

abbrev sizes : ImageHeader
sizes = record { type = png; width = 800; height = 600 }

accepts : inspect_image photo declared_png ≡ accepted sizes
unfolding inspect_image inspect_type inspect_header sniff_image_type starts_with png_file
    read_image_header read_png_header get_uint32 ends_cleanly ends_with
accepts = refl

wrong_type : inspect_image photo declared_jpeg ≡ rejected type_mismatch
unfolding inspect_image inspect_type sniff_image_type starts_with png_file
wrong_type = refl

passenger : inspect_image (photo ++ (60 ∷ [])) declared_png ≡ rejected trailing_data
unfolding inspect_image inspect_type inspect_header sniff_image_type starts_with png_file
    read_image_header read_png_header get_uint32 ends_cleanly ends_with
passenger = refl

-- A comment segment, and an APP1 with EXIF.
abbrev comment : Part
comment = record { marker = 0xfe; payload = 104 ∷ 105 ∷ [] }

abbrev gps : Part
gps = record { marker = 0xe1; payload = 0x45 ∷ 0x78 ∷ 0x69 ∷ 0x66 ∷ 0 ∷ 0 ∷ [] }

every_walk_ends_example :
    ((h : Option ImageHeader) × (read_image_header photo ≡ returned h))
    × ((b : Bool) × (has_exif photo ≡ returned b))
every_walk_ends_example = every_walk_ends photo

header_read_back_example :
    (read_image_header (jpeg_file (comment ∷ gps ∷ []) (frame_header 0xc2 17 8 600 800 ++ 3 ∷ []))
      ≡ returned (some (record { type = jpeg; width = 800; height = 600 })))
    × (read_image_header (png_file 800 600 [])
        ≡ returned (some (record { type = png; width = 800; height = 600 })))
unfolding is_standalone is_frame_header
header_read_back_example =
    header_read_back (comment ∷ gps ∷ []) 0xc2 17 8 600 800 3 []
      (((refl, refl, refl), refl), (((refl, refl, refl), refl), tt)) refl (omega arith)

has_exif-jpeg_file_example :
    has_exif (jpeg_file (comment ∷ gps ∷ []) (scan_start 0 12 (3 ∷ [])))
    ≡ returned (any_exif (comment ∷ gps ∷ []))
unfolding is_standalone
has_exif-jpeg_file_example =
    has_exif-jpeg_file (comment ∷ gps ∷ []) 0 12 3 []
      (
        ((refl, refl, refl), omega arith, omega arith, (omega arith, (omega arith, tt))),
        (
          (
            (refl, refl, refl),
            omega arith,
            omega arith,
            (
              omega arith,
              (omega arith, (omega arith, (omega arith, (omega arith, (omega arith, tt))))),
            ),
          ),
          tt,
        ),
      )
      (omega arith) (omega arith)

finds_it : any_exif (comment ∷ gps ∷ []) ≡ true
unfolding any_exif starts_with
finds_it = refl
