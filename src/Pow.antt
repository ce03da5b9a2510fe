-- ===== src/Pow.antt =====
-- pow: the proof of work that the upstream service asks for (deepseek_hash.go, deepseek_pow.go).
pub mod Keccak
pub mod Hash
pub mod Decimal
pub mod Solve
pub mod Absorb
pub mod Search
pub mod Tests
