-- ===== src/Mutate.antt =====
-- fuzzer/src/tokens/mutators: the mutators of one token stream. Each takes the stream that the
-- source borrows mutably and returns its Boolean result with the new stream.
pub mod Common
pub mod Rewrite
pub mod Copy
pub mod Delete
pub mod Truncate
pub mod Split
pub mod Crossover
pub mod Random
pub mod Repeat
pub mod Swap
pub mod Words
pub mod Flip
pub mod Special
pub mod Interesting
pub mod Dict
pub mod Keeps
