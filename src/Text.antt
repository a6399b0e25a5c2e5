-- ===== src/Text.antt =====
-- Strings as the program sees them: `String` and `&str` are lists of UTF-8 bytes, compared byte by
-- byte, which is also the order that the index tables sort their text keys by.
pub mod Decimal
mod Laws
use openxet.Base.{◌*◌}
unfoldable pub use Laws.*
