-- ===== src/Des.antt =====
-- The cipher of cpp/algorithm/3des.c.
pub mod Tables
pub mod Blocks
pub mod Cipher
pub mod Cells
pub mod Permute
pub mod Hex
pub mod Bytes
pub mod Feistel
pub mod RoundTrip
pub mod Keys
pub mod Boxes
mod Tests
