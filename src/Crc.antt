-- ===== src/Crc.antt =====
-- CRC.
pub mod FarTables
pub mod NearTables
pub mod ByteTables
pub mod Bitwise
pub mod Defs
pub mod Tables
pub mod Rounds
pub mod Slicing
pub mod Checksum
pub mod Machine
pub mod Choice
pub mod Reference
mod Tests
