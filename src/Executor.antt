-- ===== src/Executor.antt =====
-- fuzzer/src/executor.rs: how the fuzzer talks to the fork server, and how it runs the target. The type
-- `Forkserver` is the crate libafl's: a parameter, with what its documentation says of its fields. An
-- `i32` is its pattern of 32 bits.
pub mod Server
pub mod Handshake
pub mod Target
pub mod Setup
