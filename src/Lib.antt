-- ===== src/Lib.antt =====
-- A model of the Exim fuzzer, fuzzer/src, with proofs.
--
-- The fuzzer sends sequences of packets to a mail server. A packet is a stream of text tokens
-- (constants, numbers, whitespace, text), parsed from a line of text and printed back to it. An input
-- is a vector of packets, which the fuzzer writes to and reads from one text with separators, the form
-- that libdesock takes. Mutators change one token stream, or the vector of packets; all draw from a
-- random source. Parsing and the generators make tokens, the mutators change streams of them, and
-- bounds on lengths are to keep inputs small enough for the executor's buffers. The main program puts ten
-- mutators together, which the crate libafl applies in any order to inputs of a corpus, and the executor
-- hands each new input to the target through a fork server and a buffer in shared memory.
--
-- Files, and the code that they model:
--   Token                 fuzzer/src/tokens/tokenstream.rs: TextToken, its accessors, verify
--   Token/WellFormed      the description of well-formed tokens that verify is compared with
--   Token/Constants       what is asked of the bytes of constants, which verify does not look at
--   Token/Parse           try_parse_whitespace, try_parse_number, try_parse_text, from_str
--   Token/Parse/Next, Total   one token, and the whole loop
--   Token/Random, Laws    random_whitespace, random_number, random_text with its table
--   Token/Generate, Laws  create_random_packet and generate_packets
--   Token/Length          how many tokens a text is read as
--   Token/Serialize, Deserialize, RoundTrip   the two methods of Packet for TokenStream, and one behind
--                         the other
--   Packet, Input         fuzzer/src/input.rs: the trait Packet, BytesInput, convert_to_txt, parse_txt
--   Input/Convert, Overflow, Scan, Total, RoundTrip   writing, also to a buffer that is too short,
--                         reading, and reading what was written
--   Mutate/*              fuzzer/src/tokens/mutators/*.rs, a file each; Swap and Words share swap.rs,
--                         and Rewrite holds the loop that several of them have in common
--   Mutators/*            fuzzer/src/mutators: copy.rs and repeat.rs in Copy, delete.rs and swap.rs in
--                         Move, create.rs and generate.rs in Create, token.rs in Token, and
--                         content.rs and crossover.rs in files of their names
--   Mutate/Keeps, Keeps/Tokens, Keeps/Each, Token/WellFormed/Parts   what all mutators of a stream keep
--   Campaign              fuzzer/src/main.rs: the list of mutators, and the inputs and corpora that
--                         fuzzing can reach, as step relations
--   Campaign/Keeps, Reach, Start   what every mutator keeps, all that can be reached, and a start from
--                         text files
--   Campaign/Cores, Monitor   main.rs: the binary of a core, and the closure of disk_monitor
--   Campaign/Seeds        main.rs: the seeds of the random sources
--   Campaign/Load         main.rs: the inputs that are loaded before fuzzing
--   Campaign/Print        main.rs: print, with from_file of fuzzer/src/input.rs
--   Executor/Server       the type Forkserver of the crate libafl, as a parameter, and i32
--   Executor/Handshake    fuzzer/src/executor.rs: do_forkserver_handshake
--   Executor/Handshake/Protocol, Errors, Panics   the messages that it waits for, and how it fails
--   Executor/Setup, Laws  executor.rs: LibdesockExecutor::new
--   Executor/Target       executor.rs: run_target; Runs has the messages of a run, Flag the timeout of
--                         the run before, Buffer the packet buffer
--   Suite/Print, Mutators, Mutators/Laws   the tests in the files of fuzzer/src/tokens/mutators
--   Suite/Rounds, Rounds/Laws, Rounds/Overflow   the tests in fuzzer/src/tokens/mutators/mod.rs
--   Suite/Input           the test in fuzzer/src/input.rs
--   Io, Io/Laws, Panics   calls to the outside, with errors and panics
--   Rand, Rand/Rules      the trait Rand of the crate libafl_bolts, as a parameter
--   Run, Run/Ensures, Fallible, Vec, Buffer, Utf8, Base   the language: panics, vectors, slices, str
--   Tests                 runs at concrete inputs
--
-- A computation that draws random numbers is a function from the state of the random source to a
-- result and a new state, or to nothing, which is a panic. `Ensures P m` says that `m` panics from no
-- state and that its result satisfies `P`. What is borrowed mutably is taken and returned. Panics are
-- those of a debug build: indexing and slicing out of range, `debug_assert!`, a subtraction of usize
-- below 0, a division by 0. Sums of lengths are taken without wrapping, since no vector is longer than
-- isize::MAX bytes; where the code itself wraps, in `mutate_swap_words`, wrapping is at 2 ^ 64. Bytes
-- are numbers; eight random bytes are cut from a u64 in little-endian order. The vectors' capacity and
-- the allocator are left out.
--
-- The random source is any state with the operations that the code calls and the bounds that the
-- crate documents for their results. The dictionary is the list of its items; in the repository's
-- own tests it is what `Tokens::add_tokens` of libafl makes of a list, which may leave out and
-- reorder entries. What a test prints is its result. The endless loop of `fuzz_mutators` is cut off
-- after any number of iterations. For the mutators of packets the type of packets is any, and the
-- methods that make new packets are arguments. The corpus is what the mutators ask of it: a drawn
-- id, the current id, and the packets of an id or an error.
--
-- Loops that do not follow the data run on fuel: `from_str` has a round for each byte and one more,
-- since every round takes a byte; so has `parse_txt`, where every round moves the cursor; the
-- search of `find_valid_byte` has 256, one for each byte. Fuel that runs out counts as a panic.
--
-- In Campaign and Executor, what is outside the repository is a parameter with the laws that the
-- code relies on: the corpus stores what was added to it, `add_input` adds to it even what is not
-- interesting, and the fork server's handle keeps the flag and the process id that were set last. A
-- message is the pattern of 32 bits of an i32. Reading bytes from the server into a vector may panic
-- for lengths from 2 ^ 63 on. The packet buffer is a part of the server's state, with what is read from it
-- being what was written last: the target maps it too, and moves the cursor in src/hooks.c, so nothing is
-- assumed of it once the server was told to run.
--
-- Not modelled: the rest of main.rs (the command line, the parts of libafl that are put together,
-- and the results that main passes on from them); the constructors and names of the mutators, which
-- the crate asks for; the formats `{:?}`, which are parameters where their text is printed; how libafl
-- picks mutators; the dictionary that the fork server sends, which the code drops; and everything outside
-- fuzzer/src.
pub mod Base
pub mod Run
pub mod Rand
pub mod Fallible
pub mod Io
pub mod Vec
pub mod Buffer
pub mod Token
pub mod Utf8
pub mod Packet
pub mod Input
pub mod Mutate
pub mod Mutators
mod Tests
pub mod Executor
pub mod Campaign
pub mod Suite
