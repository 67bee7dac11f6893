-- ===== src/Clock.antt =====
-- trunk/include/common/time_utils.h and trunk/src/common/time_utils.cpp: points in time, and the calendar.
pub mod Defs
mod Duration
mod Calendar
mod Days
mod Tests
