-- ===== src/Big.antt =====
-- The class BigNum of cpp/BigNum.cpp and the functions of its Paillier demonstration.
pub mod Ops
pub mod Divide
pub mod Crypt
pub mod Primes
pub mod Sieve
pub mod Value
pub mod Compare
pub mod Sub
pub mod Mul
pub mod Short
pub mod Quotient
pub mod PowerStep
pub mod Power
pub mod Euclid
pub mod Add
mod Tests
