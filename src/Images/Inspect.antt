-- ===== src/Images/Inspect.antt =====
-- The checks of an upload, in their order (`inspectImage` in packages/security/src/images.ts).
use gundam_tcg_hub.Base.{
  ℕ, ◌*◌, Bool, true, false, ◌||◌, ltb, if◌then◌else◌, length, Option, none, some,
}
use gundam_tcg_hub.Images.Bytes.{Bytes}
use gundam_tcg_hub.Images.Walk.{Run, returned, threw, out_of_fuel}
use gundam_tcg_hub.Images.Header.{
  ImageType, jpeg, png, ImageHeader, sniff_image_type, read_image_header, ends_cleanly,
}

abbrev pub max_photo_bytes : ℕ
max_photo_bytes = 10 * 1024 * 1024

abbrev pub max_photo_dimension : ℕ
max_photo_dimension = 8000

abbrev pub max_photo_pixels : ℕ
max_photo_pixels = 24_000_000

abbrev pub min_photo_dimension : ℕ
min_photo_dimension = 200

pub data ImageRejection : Type 0 where
  not_an_image : ImageRejection
  type_mismatch : ImageRejection
  too_large : ImageRejection
  too_small : ImageRejection
  dimensions_too_large : ImageRejection
  too_many_pixels : ImageRejection
  malformed : ImageRejection
  trailing_data : ImageRejection

pub record InspectOptions : Type 0 where
  pub declared_type : Option ImageType
  pub max_bytes : Option ℕ

-- A header, an `ImageRejectedError`, or the `RangeError` of a walk.
pub data Inspection : Type 0 where
  accepted : ImageHeader → Inspection
  rejected : ImageRejection → Inspection
  crashed : Inspection

abbrev pub default_bytes : Option ℕ → ℕ
default_bytes none = max_photo_bytes
default_bytes (some n) = n

abbrev pub same_type : ImageType → ImageType → Bool
same_type jpeg jpeg = true
same_type png png = true
same_type _ _ = false

-- `options.declaredType !== undefined && options.declaredType !== type`
abbrev pub mismatch : Option ImageType → ImageType → Bool
mismatch none type = false
mismatch (some declared) type = if same_type declared type then false else true

unfoldable pub inspect_header : Bytes → Run (Option ImageHeader) → Inspection
inspect_header bytes threw = crashed
inspect_header bytes out_of_fuel = crashed
inspect_header bytes (returned none) = rejected malformed
inspect_header bytes (returned (some header)) =
    if ltb header.width min_photo_dimension || ltb header.height min_photo_dimension
    then rejected too_small
    else if ltb max_photo_dimension header.width || ltb max_photo_dimension header.height
    then rejected dimensions_too_large
    else if ltb max_photo_pixels (header.width * header.height)
    then rejected too_many_pixels
    else if ends_cleanly bytes
    then accepted header
    else rejected trailing_data

unfoldable pub inspect_type : Bytes → InspectOptions → Option ImageType → Inspection
inspect_type bytes options none = rejected not_an_image
inspect_type bytes options (some type) =
    if mismatch options.declared_type type
    then rejected type_mismatch
    else inspect_header bytes (read_image_header bytes)

unfoldable pub inspect_image : Bytes → InspectOptions → Inspection
inspect_image bytes options =
    if ltb (default_bytes options.max_bytes) (length bytes)
    then rejected too_large
    else inspect_type bytes options (sniff_image_type bytes)
