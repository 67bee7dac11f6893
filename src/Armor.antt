-- ===== src/Armor.antt =====
-- trunk/src/common/armor.cpp: base64 with optional line breaks.
mod Defs
pub mod Bits
pub mod Encode
pub mod Decode
unfoldable pub use Defs.*
mod Tests
