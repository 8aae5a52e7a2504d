-- ===== src/Images.antt =====
-- What an uploaded photo is, decided from its bytes (packages/security/src/images.ts).
pub mod Bytes
pub mod Walk
pub mod Header
pub mod Exif
pub mod Ends
pub mod Inspect
pub mod Accepted
pub mod Segments
pub mod ReadBack
pub mod Located
pub mod Tests
