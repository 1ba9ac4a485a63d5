-- ===== src/Process.antt =====
-- usr/sbin/process: the table of processes.
pub mod State
pub mod Distinct
pub mod Laws
mod Tests
