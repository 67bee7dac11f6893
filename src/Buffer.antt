-- ===== src/Buffer.antt =====
-- trunk/src/common/buffer.cpp, trunk/include/common/buffer.h: lists of pieces of shared memory.
pub mod Store
pub mod Bytes
pub mod Defs
pub mod Grow
pub mod Valid
pub mod Append
pub mod Room
pub mod Loop
pub mod Cursor
pub mod Place
pub mod Walk
pub mod CopyLoop
pub mod Copy
pub mod CrcCache
pub mod Crc32
pub mod Chosen
pub mod Slice
pub mod Substr
pub mod Index
pub mod Equal
pub mod Splice
pub mod Cut
pub mod Ends
pub mod Spliced
pub mod Gather
pub mod Rebuild
pub mod RebuildLoop
pub mod Rebuilt
mod Tests
