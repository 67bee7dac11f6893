-- ===== src/Lib.antt =====
-- The event core of the library under trunk/: the queue that the dispatcher drains, the throttle
-- that bounds what is in flight, the buffers that messages stand in, their checksums and byte order,
-- and the text armor of binary data.
--
-- * PrioritizedQueue models trunk/include/common/prioritizedqueue.h. `PrioritizedQueue.SubQueue` is
--   the class `SubQueue`: the items of one priority in a list for each class, and the cursor `cur`
--   that goes round the classes. `PrioritizedQueue.Defs` is the class `PrioritizedQueue`, a function
--   for each method under the method's name (`is_idle` is `empty()`, `sub_length` is the `length()`
--   of a sub-queue). Each loop of `remove_by_filter`, `remove_by_class` and `dequeue` is a function
--   by recursion on the map that it walks. `View` is what a client sees, a list of pending items for
--   each lane, priority and class, with the invariant of the queue.
-- * Armor models trunk/src/common/armor.cpp. The destination is the room that is left in it, and a
--   call returns the bytes that it wrote with its length, `-ERANGE` or `-EINVAL`.
-- * Throttle models trunk/src/common/throttle.cpp and trunk/include/common/throttle.h as steps of
--   threads under the lock: a call, which may block, and the return from `cond->wait`. `Wakeups` is
--   about lost wakeups, `Limit` about the count, and `Drain` about the end of a limit.
-- * Crc models the checksums of trunk/src/common/: crc32_sctp.c with its tables (`FarTables`,
--   `NearTables`, `ByteTables`), crc32_intel_baseline.c (`Defs`), crc32_intel_fast.c,
--   crc32_aarch64.c and the choice in crc32.cpp (`Machine`). Memory is the byte at each address, and
--   addresses do not wrap. `Bitwise` is the reference, one binary digit after the other. The loops
--   of crc32_sctp.c stand in both forms of `#ifdef BIG_ENDIAN`, on a host that keeps the lowest byte
--   first. The assembly and the instructions of a processor are the parameter `Machine`, and
--   `Choice.Documented` says what the code relies on.
-- * ByteOrder models trunk/include/common/byteorder.h: the swaps and the types `le16`, `le32` and
--   `le64`, with `BIG_ENDIAN` defined or not.
-- * Buffer models the lists of pieces of shared memory of trunk/src/common/buffer.cpp and
--   trunk/include/common/buffer.h. `Store` has the bytes of each raw, which is known by a
--   number, and the class `ptr`; several `ptr`s may share a raw. `Defs` is the class `buffer`
--   with what puts pieces into it, `Cursor` its iterator and `copy`, `Slice` has `operator[]`,
--   `substr_of` and `contents_equal`, `Splice` has `splice`, `Rebuild` has `rebuild`, and
--   `CrcCache` has `crc32` with the checksums that a raw keeps. The contents of a buffer are
--   one list of bytes, and `Valid.IsValid` is the invariant: no piece is empty or lies in the
--   free tail of the append buffer, and the iterator that a buffer keeps for the next `copy`
--   stands where its offset says. `CrcCache.Checksum` is the interface between the buffer and
--   the checksum function, and `Chosen` fills it with that of crc32.cpp. `BUFFER_ALLOC_UNIT`
--   and `sizeof(raw_combined)` are parameters, and fresh memory holds anything.
-- * Encoding models trunk/include/common/encoding.h over Buffer and ByteOrder. An encoder adds to a
--   buffer, a decoder reads at an iterator and gives its value and the iterator. `Laws` says what it
--   means that bytes are written and read, `Codec.IsCodec` is what a pair of both promises to its
--   users, and a member of a set is any type with such a pair. The record `Host` has what a build
--   decides: the host's byte order, and whether `BIG_ENDIAN` is defined, which it always is on Linux,
--   so that a little-endian host swaps there.
-- * Entities models the names, addresses and instances of trunk/include/net/msg_types.h: `Wire` has
--   their bytes, and `Order` their comparisons.
-- * Clock models `utime_t` of trunk/include/common/time_utils.h (`Defs`, `Duration`) and the calendar
--   of trunk/src/common/time_utils.cpp (`Calendar`, `Days`).
-- * Timer models trunk/src/common/timer.cpp over Clock: the schedule in the order of the times and the
--   map from each callback to its entry there. `complete` is that of
--   trunk/include/common/callback.h, and the `finish` of a callback's class is a parameter.
-- * StringUtils models the URL and the hexadecimal codes of trunk/src/common/string_utils.cpp.
-- * Common has the list and number lemmas and `Common.OrderedMap`, a `std::map` as a list that is
--   sorted by its keys.
--
-- Machine integers keep their wrap-around: `unsigned` is a number below 2 ^ 32, the 64-bit size
-- and the sum of the priorities are bit patterns, the counts of the throttle are integers that
-- `atomic_add` and `atomic_sub` wrap to a `long`, and what these take is cut to an `int`. The keys of the queue's classes are numbers. The
-- length that armor returns is not cut: its input would have to pass 1.5 GB. Where a loop of
-- Buffer does not walk a list it gets the rounds that it may take, and its theorem says how many
-- are enough: two for `append`, one for each byte of a `copy`, one for each piece of
-- `contents_equal`, one for each entry of the timer's schedule. Every other loop walks a list.
-- An exception is the value `threw`, without the state that it leaves.
--
-- Not modelled: the locks and the scheduler, sockets and system calls, logging, the processor
-- probes, the demo, the messages, the dispatch queue and the number parsing; of the text
-- utilities, all but these codes; of the clock, the texts, the floating point and the system's
-- time; of the timer, the wait of its thread; of the encoding, the decoders of a `ptr` and of a
-- buffer; of the entities, the parser of addresses and the ports; of the buffer, the alignment
-- of memory, files and streams, base64, the writes to a range of a buffer, a negative `advance`
-- and the reference counts, which decide only when memory is freed.
pub mod Common
pub mod Armor
pub mod Buffer
pub mod ByteOrder
pub mod Clock
pub mod Crc
pub mod Encoding
pub mod Entities
pub mod PrioritizedQueue
pub mod StringUtils
pub mod Throttle
pub mod Timer
