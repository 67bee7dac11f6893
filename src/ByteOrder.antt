-- ===== src/ByteOrder.antt =====
-- trunk/include/common/byteorder.h: the byte swaps and the little-endian types.
pub mod Defs
pub mod Swaps
mod Tests
unfoldable pub use Defs.*
