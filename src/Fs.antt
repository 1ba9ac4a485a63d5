-- ===== src/Fs.antt =====
-- usr/drivers/fs.c and usr/include/sys/fs.h: the in-memory file system. The tables are in `State`,
-- name lookup in `Lookup`, creation and deletion in `Entries`, access to open files in `Access`, the
-- current directory in `Dirs`; the theorems stand below `Valid`, `Find`, `Io` and `Cwd`.
pub mod State
pub mod Lookup
pub mod Entries
pub mod Access
pub mod Dirs
pub mod Search
pub mod Find
pub mod Valid
pub mod Keep
pub mod Files
pub mod Io
pub mod Steps
pub mod Created
pub mod Hidden
pub mod Cwd
pub mod Writing
pub mod RoundTrip
mod Tests
