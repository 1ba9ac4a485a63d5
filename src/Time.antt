-- ===== src/Time.antt =====
-- lib/libc/time.c: the calendar and the clocks.
pub mod Calendar
pub mod Clock
pub mod Laws
pub mod Printed
mod Tests
