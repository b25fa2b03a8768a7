-- ===== src/Mutators.antt =====
-- fuzzer/src/mutators: the mutators of a sequence of packets, for any type of packets. Each takes
-- the packets of the input that the source borrows mutably, and returns its result with the new ones.
pub mod Outcome
pub mod Copy
pub mod Move
pub mod Create
pub mod Token
pub mod Content
pub mod Crossover
