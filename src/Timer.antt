-- ===== src/Timer.antt =====
-- trunk/src/common/timer.cpp: callbacks that are scheduled for a time.
pub mod Defs
mod Schedule
mod Valid
mod Cancel
mod Fires
mod Tests
