-- ===== src/Vga.antt =====
-- usr/drivers/vga.c: the text screen.
pub mod Screen
pub mod Text
pub mod Areas
pub mod Lines
pub mod Calls
pub mod Keep
pub mod Writing
pub mod Decimal
pub mod Drawing
pub mod Reachable
pub mod Scroll
mod Tests
