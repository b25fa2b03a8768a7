-- ===== src/Executor/Target/Buffer.antt =====
-- The packet buffer and the counter of executions.
use exim_fuzzer.Base.{
  ℕ, ◌+◌, ◌-◌, ◌≤◌, ◌<◌, ◌≡◌, refl, ap, Bool, false, not, Option, none, some, ◌++◌, length,
  length-append, length-drop, drop, leb, le→leb, arith,
}
use exim_fuzzer.Executor.Server.{Forkserver, i32_lt}
use exim_fuzzer.Executor.Target.{
  Executor, PacketBuffer, SharedMemory, store, killed, ended, finished, with_forkserver,
  fork_and_wait, spin_off, on_forkserver, run_target,
}
use exim_fuzzer.Input.{PacketBasedInput, left_in_buffer}
use exim_fuzzer.Input.Convert.{framed, convert_to_txt_lem}
use exim_fuzzer.Input.Overflow.{Stuck, left_in_buffer-Stuck}
use exim_fuzzer.Io.{Result, done, failed, panicked}
use exim_fuzzer.Io.Laws.{
  IsSafe, IsSafe-pure, IsSafe-fail, IsSafe-call, IsSafe-if, IsSafe-bind, IsSafe-run, IsSafe-method,
  Unpanicked, bind-step, panic-step,
}
use exim_fuzzer.Packet.{Packet}

module _ {P : Type 0} (I : Packet P) (server : Forkserver) (memory : SharedMemory server.State)
    (wifsignaled wifstopped : ℕ → Bool) where
  open memory use {read, write, read-write, write-write}

  -- The packet buffer with the text of an input from its start.
  abbrev pub filled : PacketBasedInput P → PacketBuffer → PacketBuffer
  filled input b = record {
    cursor = 0;
    size = length (framed I input) - 8;
    bytes = framed I input ++ drop (length (framed I input)) b.bytes;
  }

  -- The fork server's state with that in the shared buffer, where a run of the target begins.
  abbrev pub loaded : PacketBasedInput P → server.State → server.State
  loaded input s = write (filled input (read s)) s

  store-fits :
      (input : PacketBasedInput P) (e : Executor server.State)
      → length (framed I input) ≤ length (read e.forkserver).bytes
      → store I memory input e ≡ (
        done tt,
        record { executions = e.executions + 1; forkserver = loaded input e.forkserver },
      )
  unfolding store
  store-fits input e h =
      let b = read e.forkserver in
      let fits = le→leb (length (framed I input)) (length b.bytes) h in
      rw (convert_to_txt_lem I input b.bytes, fits)
        (ap
          (λ (s : server.State).
            (done tt, record { executions = e.executions + 1; forkserver = s }))
          (write-write _ (filled input b) e.forkserver))

  IsSafe-killed : IsSafe (killed server wifsignaled wifstopped)
  unfolding killed
  IsSafe-killed = IsSafe-run _ _ (IsSafe-run _ _ (IsSafe-bind (IsSafe-call _) λ _. IsSafe-pure _))

  IsSafe-ended : (status : ℕ) → IsSafe (ended server wifsignaled wifstopped status)
  unfolding ended
  IsSafe-ended status =
      IsSafe-bind (IsSafe-if (not (wifstopped status)) (λ _. IsSafe-method _) λ _. IsSafe-pure _)
        λ _. IsSafe-pure _

  IsSafe-finished : (r : Option ℕ) → IsSafe (finished server wifsignaled wifstopped r)
  unfolding finished
  IsSafe-finished none = IsSafe-killed
  IsSafe-finished (some status) = IsSafe-ended status

  IsSafe-spin_off : IsSafe (spin_off server wifsignaled wifstopped)
  unfolding spin_off fork_and_wait
  IsSafe-spin_off = record { at = λ s. (waits (server.last_run_timed_out_raw s)).at s }
    where
      waits : (n : ℕ) → IsSafe (fork_and_wait server wifsignaled wifstopped n)
      waits n = IsSafe-run _ _ (
          IsSafe-bind (IsSafe-call _) λ _. IsSafe-bind (IsSafe-call _) λ pid.
            IsSafe-if (not (i32_lt 0 pid)) (λ _. IsSafe-fail _)
              λ _. IsSafe-run _ _ (IsSafe-bind (IsSafe-call _) IsSafe-finished))

  with_forkserver-Unpanicked :
      {A : Type 0} (n : ℕ) (r : Result A × server.State)
      → Unpanicked r
      → Unpanicked (with_forkserver n r)
  with_forkserver-Unpanicked n (done a, s) u = tt
  with_forkserver-Unpanicked n (failed x, s) u = tt
  with_forkserver-Unpanicked n (panicked, s) u = u

  run_target-loaded :
      (input : PacketBasedInput P) (e : Executor server.State)
      → length (framed I input) ≤ length (read e.forkserver).bytes
      → run_target I server memory wifsignaled wifstopped input e
        ≡ with_forkserver
            (e.executions + 1)
            (spin_off server wifsignaled wifstopped (loaded input e.forkserver))
  unfolding run_target on_forkserver
  run_target-loaded input e h = bind-step _ _ (store-fits input e h) refl

  -- Where the text of the input, with a separator behind each packet, fits into the packet buffer, a run
  -- never panics, whatever the fork server does. The counter is one higher, and before the server is told
  -- anything the shared buffer is filled: its cursor is 0, it begins with the text, its size is that of the
  -- text without the last separator, and the rest of it is as it was, its length too. From there
  -- the run is that of `spin_off`.
  pub run_target_lem :
      (input : PacketBasedInput P) (e : Executor server.State)
      → length (framed I input) ≤ length (read e.forkserver).bytes
      → let before = loaded input e.forkserver in
        (run_target I server memory wifsignaled wifstopped input e
          ≡ with_forkserver (e.executions + 1) (spin_off server wifsignaled wifstopped before))
        × Unpanicked (run_target I server memory wifsignaled wifstopped input e)
        × (read before ≡ filled input (read e.forkserver))
        × (length (read before).bytes ≡ length (read e.forkserver).bytes)
  run_target_lem input e h =
      let before = loaded input e.forkserver in
      let b = read e.forkserver in
      let same = read-write (filled input b) e.forkserver in
      (
        run_target-loaded input e h,
        rw (run_target-loaded input e h) (
            with_forkserver-Unpanicked (e.executions + 1)
              (spin_off server wifsignaled wifstopped before) (IsSafe-spin_off.at before)),
        same,
        omega (
          arith,
          ap (λ (c : PacketBuffer). length c.bytes) same,
          length-append (framed I input) (drop (length (framed I input)) b.bytes),
          length-drop (length (framed I input)) b.bytes,
          h,
        ),
      )

  -- Where the text of the input, with a separator behind each packet, does not fit into the packet buffer,
  -- a run panics before the fork server is told or asked anything. The counter is one higher, and of the
  -- shared buffer the cursor is 0 and the size is as it was; the packets in front of the first one without
  -- room are in it, with their separators, and of that one what the buffer can hold.
  pub run_target-panics :
      (input : PacketBasedInput P) (e : Executor server.State)
      → length (read e.forkserver).bytes < length (framed I input)
      → (b : PacketBuffer) × (run_target I server memory wifsignaled wifstopped input e
          ≡ (panicked, record { executions = e.executions + 1; forkserver = write b e.forkserver }))
        × (b.cursor ≡ 0)
        × (b.size ≡ (read e.forkserver).size)
        × Stuck I input (read e.forkserver).bytes b.bytes
  unfolding run_target store
  run_target-panics input e h =
      let old = read e.forkserver in
      let full : leb (length (framed I input)) (length old.bytes) ≡ false = ground arith in
      (
        record { cursor = 0; size = old.size; bytes = left_in_buffer I input old.bytes },
        panic-step _ _ (
            rw (convert_to_txt_lem I input old.bytes, full)
              (ap
                (λ (s : server.State).
                  (panicked, record { executions = e.executions + 1; forkserver = s }))
                (write-write _ _ e.forkserver))),
        refl,
        refl,
        left_in_buffer-Stuck I input old.bytes h,
      )
