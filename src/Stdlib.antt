-- ===== src/Stdlib.antt =====
-- lib/libc/stdlib.c: searching and sorting.
pub mod Search
pub mod Number
pub mod Spelling
pub mod Sort
pub mod Partition
mod Tests
