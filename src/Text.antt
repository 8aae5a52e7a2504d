-- ===== src/Text.antt =====
-- Text as JavaScript has it: a list of UTF-16 code units, with the parts of the language's own library
-- that the repository's parsers use.
mod Defs
pub mod Decimal
pub mod Plain
unfoldable pub use Defs.*
