-- ===== src/Keyboard.antt =====
-- dev/keyboard: the keyboard driver.
pub mod State
pub mod Driver
pub mod Modifiers
pub mod Pressed
pub mod Letters
pub mod Reading
mod Tests
