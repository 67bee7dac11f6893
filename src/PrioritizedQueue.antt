-- ===== src/PrioritizedQueue.antt =====
-- trunk/include/common/prioritizedqueue.h: the queue of queues that the dispatcher drains.
pub mod SubQueue
mod Defs
pub mod View
pub mod Enqueue
pub mod Puts
pub mod Settle
pub mod Dequeue
pub mod Policy
pub mod Removal
pub mod ByClass
pub mod History
mod Tests
unfoldable pub use Defs.*
