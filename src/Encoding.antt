-- ===== src/Encoding.antt =====
-- trunk/include/common/encoding.h: values as bytes of a `buffer`.
pub mod Defs
pub mod Laws
pub mod Values
pub mod Codec
pub mod Sets
pub mod Pieces
mod RoundTrips
mod Tests
