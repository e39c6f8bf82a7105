-- ===== src/Num.antt =====
-- The decimal big numbers of cpp/algorithm/big_num.c.
pub mod Digits
pub mod Memory
pub mod Ops
pub mod Cells
pub mod State
pub mod Scale
pub mod NewSum
pub mod Text
pub mod Shift
pub mod Compare
pub mod Sum
pub mod InPlace
pub mod Product
pub mod Multiply
mod Tests
