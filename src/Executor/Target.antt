-- ===== src/Executor/Target.antt =====
-- `LibdesockExecutor`: `run_target`, with the packet buffer that it shares with the target.
pub mod Runs
pub mod Buffer
pub mod Flag
use exim_fuzzer.Base.{ℕ, ◌+◌, ◌≡◌, not, Bool, true, false, Option, none, some, Bytes, if◌then◌else◌}
use exim_fuzzer.Executor.Server.{Forkserver, i32_lt}
use exim_fuzzer.Input.{PacketBasedInput, convert_to_txt, left_in_buffer}
use exim_fuzzer.Io.{
  Io, Result, done, panicked, Error, invalid_pid, pure, fail, call, run, ◌>>=◌, ◌>>◌,
}
use exim_fuzzer.Packet.{Packet}

-- `ExitKind`, of which the code uses three values
pub data ExitKind : Type 0 where
  ok crash timeout : ExitKind

pub record PacketBuffer : Type 0 where
  pub cursor : ℕ
  pub size : ℕ
  pub bytes : Bytes

-- The packet buffer lies in memory that the target maps too: the target reads it, moves the cursor (`hook_input`
-- and `hook_seek` in src/hooks.c) and could write anywhere. So it is a part of the state of the fork server,
-- which stands for that process and its children, and whatever the server does may change it.
pub record SharedMemory (S : Type 0) : Type 0 where
  pub read : S → PacketBuffer
  pub write : PacketBuffer → S → S
  pub read-write : (b : PacketBuffer) (s : S) → read (write b s) ≡ b
  pub write-write : (b b' : PacketBuffer) (s : S) → write b' (write b s) ≡ write b' s

-- What a run changes: the counter of the fuzzer's state, and the fork server with the shared buffer.
pub record Executor (S : Type 0) : Type 0 where
  pub executions : ℕ
  pub forkserver : S

-- The macros of the C library that read a wait status.
module _ (server : Forkserver) (wifsignaled wifstopped : ℕ → Bool) where
  open server use {
    State, read_st, read_st_timed, write_ctl, last_run_timed_out_raw, set_last_run_timed_out,
    child_pid, set_child_pid, reset_child_pid, kill,
  }

  -- The wait status of a child that ended in time.
  unfoldable pub ended : ℕ → Io State ExitKind
  ended status = do
    _ ← if not (wifstopped status) then run reset_child_pid else pure tt
    pure (if wifsignaled status then crash else ok)

  unfoldable pub killed : Io State ExitKind
  killed = do
    _ ← run (set_last_run_timed_out true)
    _ ← run (λ s. kill (child_pid s) s)
    _ ← call read_st
    pure timeout

  -- The branches of the `if let` on the answer within the timeout.
  unfoldable pub finished : Option ℕ → Io State ExitKind
  finished none = killed
  finished (some status) = ended status

  -- What happens between "Spin off target" and the end, with the flag of the last run.
  unfoldable pub fork_and_wait : ℕ → Io State ExitKind
  fork_and_wait last_run_timed_out = do
    _ ← run (set_last_run_timed_out false)
    _ ← call (write_ctl last_run_timed_out)
    pid ← call read_st
    if not (i32_lt 0 pid)
        then fail invalid_pid
        else do _ ← run (set_child_pid pid); answer ← call read_st_timed; finished answer

  unfoldable pub spin_off : Io State ExitKind
  spin_off s = fork_and_wait (last_run_timed_out_raw s) s

-- A computation on the fork server alone.
abbrev pub with_forkserver : {S A : Type 0} → ℕ → Result A × S → Result A × Executor S
with_forkserver executions (r, s) = (r, record { executions = executions; forkserver = s })

unfoldable pub on_forkserver : {S A : Type 0} → Io S A → Io (Executor S) A
on_forkserver m e = with_forkserver e.executions (m e.forkserver)

module _ {S P : Type 0} (I : Packet P) (memory : SharedMemory S) where
  open memory use {read, write}

  -- A write to the packet buffer.
  abbrev in_buffer : PacketBuffer → Executor S → Executor S
  in_buffer b e = record { executions = e.executions; forkserver = write b e.forkserver }

  -- If `convert_to_txt` panics, the size is as it was, and a part of the text is in the buffer.
  abbrev stored :
      PacketBasedInput P
      → PacketBuffer
      → Executor S
      → Option (ℕ × Bytes)
      → Result (Unit {0}) × Executor S
  stored input b e none = (
    panicked,
    in_buffer (record { cursor = b.cursor; size = b.size; bytes = left_in_buffer I input b.bytes })
        e,
  )
  stored input b e (some (n, buf)) =
      (done tt, in_buffer (record { cursor = b.cursor; size = n; bytes = buf }) e)

  -- The counter, the cursor, and the input as text in the packet buffer.
  unfoldable pub store : PacketBasedInput P → Io (Executor S) (Unit {0})
  store input e =
      let b = read e.forkserver in
      let reset : PacketBuffer = record { cursor = 0; size = b.size; bytes = b.bytes } in
      let counted : Executor S = record {
        executions = e.executions + 1;
        forkserver = e.forkserver;
      } in
      stored input reset (in_buffer reset counted) (convert_to_txt I input b.bytes)

module _ {P : Type 0} (I : Packet P) (server : Forkserver) (memory : SharedMemory server.State)
    (wifsignaled wifstopped : ℕ → Bool) where
  unfoldable pub run_target : PacketBasedInput P → Io (Executor server.State) ExitKind
  run_target input = do
    _ ← store I memory input
    on_forkserver (spin_off server wifsignaled wifstopped)
