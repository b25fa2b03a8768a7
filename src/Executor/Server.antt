-- ===== src/Executor/Server.antt =====
-- The fork server's interface, and the machine integers of its messages.
use exim_fuzzer.Base.{ℕ, ◌+◌, ◌-◌, ◌%◌, ◌^◌, ◌<◌, ◌≡◌, Bool, Option, Bytes, ltb, if◌then◌else◌}
use exim_fuzzer.Io.{Io, Reply}
use exim_fuzzer.Io.Laws.{Unpanicked}

-- `a < b` on `i32`.
unfoldable pub i32_lt : ℕ → ℕ → Bool
i32_lt a b = ltb ((a + 2 ^ 31) % 2 ^ 32) ((b + 2 ^ 31) % 2 ^ 32)

-- `a as usize`, of an `i32`: its sign is extended.
unfoldable pub i32_as_usize : ℕ → ℕ
i32_as_usize a = if ltb a (2 ^ 31) then a else a + (2 ^ 64 - 2 ^ 32)

abbrev pub i32_from_bool : Bool → ℕ
i32_from_bool b = if b then 1 else 0

pub record Forkserver : Type 1 where
  pub State : Type 0
  -- One message from the server.
  pub read_st : Reply State ℕ
  -- So many bytes from the server, into a vector of that length. It panics at most for lengths that no
  -- vector can have, from 2 ^ 63 on.
  pub read_st_of_len : ℕ → Io State Bytes
  -- A message, or none within the timeout.
  pub read_st_timed : Reply State (Option ℕ)
  -- One message to the server.
  pub write_ctl : ℕ → Reply State (Unit {0})
  pub last_run_timed_out_raw : State → ℕ
  pub set_last_run_timed_out : Bool → State → State
  pub child_pid : State → ℕ
  pub set_child_pid : ℕ → State → State
  pub reset_child_pid : State → State
  -- `libc::kill(pid, SIGKILL)`, whose result the code drops.
  pub kill : ℕ → State → State
  pub read_st_of_len-Unpanicked :
      (n : ℕ) → n < 2 ^ 63 → (s : State) → Unpanicked (read_st_of_len n s)
  -- The flag is what was set last; talking to the server and the process id do not change it.
  pub raw-set :
      (b : Bool) (s : State) → last_run_timed_out_raw (set_last_run_timed_out b s) ≡ i32_from_bool b
  pub raw-read_st : (s : State) → last_run_timed_out_raw (read_st s).1 ≡ last_run_timed_out_raw s
  pub raw-read_st_timed :
      (s : State) → last_run_timed_out_raw (read_st_timed s).1 ≡ last_run_timed_out_raw s
  pub raw-write_ctl :
      (n : ℕ) (s : State) → last_run_timed_out_raw (write_ctl n s).1 ≡ last_run_timed_out_raw s
  pub raw-set_child_pid :
      (p : ℕ) (s : State) → last_run_timed_out_raw (set_child_pid p s) ≡ last_run_timed_out_raw s
  pub raw-reset_child_pid :
      (s : State) → last_run_timed_out_raw (reset_child_pid s) ≡ last_run_timed_out_raw s
  pub raw-kill : (p : ℕ) (s : State) → last_run_timed_out_raw (kill p s) ≡ last_run_timed_out_raw s
  -- The process id is what was set last; reading a message and the flag do not change it.
  pub child_pid-set : (p : ℕ) (s : State) → child_pid (set_child_pid p s) ≡ p
  pub child_pid-read_st_timed : (s : State) → child_pid (read_st_timed s).1 ≡ child_pid s
  pub child_pid-set_last_run_timed_out :
      (b : Bool) (s : State) → child_pid (set_last_run_timed_out b s) ≡ child_pid s
