-- ===== src/Str.antt =====
-- lib/libc/string.c. Memory is a function from addresses to bytes; a `char` is its byte. A loop that
-- runs to a terminator has fuel, since there may be none: its result is then `none`.
pub mod Memory
pub mod Scan
pub mod Copy
pub mod Token
pub mod Length
pub mod Move
mod Tests
