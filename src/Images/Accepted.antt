-- ===== src/Images/Accepted.antt =====
-- What an upload that `inspectImage` accepts is (packages/security/src/images.ts).
use gundam_tcg_hub.Base.{◌*◌, ◌≤◌, ◌≡◌, true, length, Option, none, some}
use gundam_tcg_hub.Images.Bytes.{Bytes}
use gundam_tcg_hub.Images.Walk.{returned}
use gundam_tcg_hub.Images.Header.{
  ImageType, ImageHeader, sniff_image_type, read_image_header, ends_cleanly,
}
use gundam_tcg_hub.Images.Inspect.{
  max_photo_dimension, max_photo_pixels, min_photo_dimension, InspectOptions, default_bytes,
}

abbrev pub Fits : ImageHeader → Type 0
Fits header =
    (min_photo_dimension ≤ header.width)
    × (min_photo_dimension ≤ header.height)
    × (header.width ≤ max_photo_dimension)
    × (header.height ≤ max_photo_dimension)
    × (header.width * header.height ≤ max_photo_pixels)

abbrev pub Declared : Option ImageType → ImageType → Type 0
Declared none type = Unit
Declared (some declared) type = declared ≡ type

-- The file is small enough, starts as the declared type does, its header is read and its dimensions fit, and it ends
-- where the image ends.
abbrev pub Acceptable : Bytes → InspectOptions → ImageHeader → Type 0
Acceptable bytes options header =
    (length bytes ≤ default_bytes options.max_bytes)
    × ((type : ImageType) × (sniff_image_type bytes ≡ some type)
        × Declared options.declared_type type)
    × (read_image_header bytes ≡ returned (some header))
    × Fits header
    × (ends_cleanly bytes ≡ true)
