-- ===== src/Kern.antt =====
-- kern/: interrupt maps, visible spellings of characters, reference counts, shared reference pointers, and producer/consumer locks.
pub mod Refcnt
pub mod Srp
pub mod Pclock
pub mod Vis
pub mod Intrmap
pub mod Leaks
mod Tests
