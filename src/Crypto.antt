-- ===== src/Crypto.antt =====
-- usr/drivers/crypto: the stream cipher.
pub mod Arc4
pub mod Permutes
pub mod Stream
mod Tests
