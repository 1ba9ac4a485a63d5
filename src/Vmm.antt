-- ===== src/Vmm.antt =====
-- usr/drivers/vmm.c and usr/include/vmm.h: the page table of the virtual memory manager. The
-- functions are in `Table` and `Queries`.
pub mod Table
pub mod Queries
pub mod Align
pub mod Scan
pub mod Release
pub mod Largest
mod Tests
