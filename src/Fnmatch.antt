-- ===== src/Fnmatch.antt =====
-- lib/libc/fnmatch.c: pattern matching.
pub mod Match
pub mod Bracket
pub mod Total
mod Tests
