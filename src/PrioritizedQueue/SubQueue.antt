-- ===== src/PrioritizedQueue/SubQueue.antt =====
-- trunk/include/common/prioritizedqueue.h: `SubQueue`, the items of one priority. They stand in a
-- list for each class of clients, and `cur` goes round the classes.
mod Defs
pub mod View
pub mod Invariant
pub mod Pop
pub mod Removal
pub mod ByClass
unfoldable pub use Defs.*
