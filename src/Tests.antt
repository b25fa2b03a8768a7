-- ===== src/Tests.antt =====
-- The theorems at concrete inputs, and runs of the operations on a source of "random" numbers that
-- counts.
pub mod Counter
mod Packets
mod Streams
mod Stack
mod Fuzzing
mod Server
mod Target
mod Program
mod Inputs
mod Suite
