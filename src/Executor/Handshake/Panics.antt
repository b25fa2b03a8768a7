-- ===== src/Executor/Handshake/Panics.antt =====
-- The size of a dictionary is an `i32`, and its sign is extended to that of a `usize`.
use Prim.Native.Nat.{bit_and}
use exim_fuzzer.Base.{ℕ, ◌≤◌, ◌^◌, ◌≡◌, ◌≢◌, Option, some}
use exim_fuzzer.Io.{panicked}
use exim_fuzzer.Io.Panics.{Panics}
use exim_fuzzer.Executor.Server.{Forkserver, i32_as_usize}
use exim_fuzzer.Executor.Handshake.Protocol.{version_1, complement, MapSize}

module _ (server : Forkserver) where
  open server use {State, read_st, read_st_of_len, read_st_of_len-Unpanicked, write_ctl}

  -- A dictionary of a negative size is announced, and no vector of that many bytes, as a `usize`, can be
  -- made.
  pub record NegativeSize (status : ℕ) (s : State) (s' : State) : Type 0 where
    pub announced : bit_and status 0x800 ≢ 0
    pub size : ℕ
    pub sized : State
    pub sent : read_st s ≡ (some size, sized)
    pub negative : 2 ^ 31 ≤ size
    pub refused : read_st_of_len (i32_as_usize size) sized ≡ (panicked, s')

  -- The server keeps to the protocol up to its options, with which it announces such a dictionary.
  pub record Overlong (s s' : State) : Type 0 where
    pub greeted : State
    pub greeting : read_st s ≡ (some version_1, greeted)
    pub acknowledged : State
    pub acknowledgement : write_ctl complement greeted ≡ (some tt, acknowledged)
    pub status : ℕ
    pub told : State
    pub options : read_st acknowledged ≡ (some status, told)
    pub map_size : Option ℕ
    pub mapped : State
    pub size : MapSize server status told map_size mapped
    pub dictionary : NegativeSize status mapped s'
