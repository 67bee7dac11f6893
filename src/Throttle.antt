-- ===== src/Throttle.antt =====
-- trunk/include/common/throttle.h, trunk/src/common/throttle.cpp: a counter with a limit, and the
-- threads that wait for it in turn.
mod Defs
pub mod Wakeups
pub mod Limit
mod Drain
unfoldable pub use Defs.*
mod Tests
