-- ===== src/Suite.antt =====
-- The tests that the repository keeps beside its code, run by `cargo test`.
pub mod Print
pub mod Mutators
pub mod Rounds
pub mod Input
