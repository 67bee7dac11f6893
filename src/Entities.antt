-- ===== src/Entities.antt =====
-- trunk/include/net/msg_types.h: the names, addresses and instances of the peers, and their order.
mod Defs
mod Wire
mod Order
mod Tests
