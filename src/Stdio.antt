-- ===== src/Stdio.antt =====
-- lib/libc/stdio.c: formatted output, and input by lines.
pub mod Format
pub mod Sized
pub mod Print
pub mod Counted
pub mod Line
pub mod Input
mod Tests
