-- ===== src/Paging.antt =====
-- usr/drivers/paging.c: page tables.
pub mod Table
pub mod Bits
pub mod Mapped
pub mod Shared
mod Tests
