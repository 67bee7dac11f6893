-- ===== src/Common/OrderedMap.antt =====
-- `std::map` with unsigned keys: an association list in the order of its keys.
mod Defs
mod Laws
mod Values
unfoldable pub use Defs.*
pub use Laws.*
pub use Values.*
