-- ===== src/Pmm.antt =====
-- usr/drivers/pmm.c and usr/include/pmm.h: the physical page allocator. The bitmap of a region is in
-- `Bitmap`, the regions and their operations in `Region` and `Manager`; the theorems stand in the
-- other modules.
pub mod Bitmap
pub mod Region
pub mod Manager
pub mod Laws
pub mod Leading
pub mod Runs
pub mod Pages
pub mod Blocks
pub mod Totals
mod Tests
