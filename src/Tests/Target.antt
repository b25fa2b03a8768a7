-- ===== src/Tests/Target.antt =====
-- The executor with a fork server that sends the words of a list: how it is set up, and runs.
use exim_fuzzer.Base.{
  ℕ, ◌≡◌, ◌↔◌, refl, Bool, false, Option, some, List, [], ◌∷◌, Bytes, codes, length, replicate,
  arith, get_elem?, ap, sym, ◌==◌,
}
use exim_fuzzer.Executor.Server.{i32_lt, i32_from_bool}
use exim_fuzzer.Executor.Target.{
  ok, timeout, Executor, PacketBuffer, with_forkserver, fork_and_wait, finished, killed, ended,
  spin_off, run_target,
}
use exim_fuzzer.Executor.Target.Runs.{Ran, is_timeout, spin_off-Ran}
use exim_fuzzer.Executor.Target.Flag.{spin_off-told}
use exim_fuzzer.Executor.Target.Buffer.{filled, loaded, run_target_lem, run_target-panics}
use exim_fuzzer.Executor.Setup.{Arguments, new}
use exim_fuzzer.Executor.Setup.Laws.{SetUp, new-SetUp}
use exim_fuzzer.Input.Overflow.{Stuck}
use exim_fuzzer.Io.{call, run, ◌>>=◌, done, panicked}
use exim_fuzzer.Io.Laws.{Unpanicked}
use exim_fuzzer.Packet.{bytes_packet}
use exim_fuzzer.Tests.Server.{Words, server, shared_of, words, put, memory, greeting}

-- The world is the buffers that were announced; a buffer is its handle, and the observers are the size of
-- the map.
abbrev new_shmem : ℕ → List ℕ → Option ℕ × List ℕ
new_shmem n w = (some 7, w)

abbrev write_to_env : Bytes → ℕ → List ℕ → Option (Unit {0}) × List ℕ
write_to_env name shm w = (some tt, shm ∷ w)

abbrev start_forkserver : Arguments → List ℕ → Option Words × List ℕ
start_forkserver arguments w = (some greeting, w)

abbrev cut : ℕ → ℕ → Option ℕ
cut size observers = some size

abbrev in_millis : ℕ → ℕ
in_millis n = n

abbrev environment : List ℕ → Bytes → Option ℕ
environment w name = get_elem? w 0

announces :
    (name : Bytes) (shm : ℕ) (w w' : List ℕ)
    → write_to_env name shm w ≡ (some tt, w')
    → environment w' name ≡ some shm
announces name shm w w' e =
    let same : shm ∷ w ≡ w' = cc in ap (λ (l : List ℕ). get_elem? l 0) (sym same)

abbrev exim : Bytes
exim = codes "/usr/sbin/exim"

abbrev libdesock : Bytes
libdesock = codes "libdesock.so"

new-SetUp_example :
    new server new_shmem write_to_env start_forkserver cut in_millis 0 exim
        (codes "-bh" ∷ [])
        5000
        libdesock
        []
      ≡ (done (words [] (0xbeb9b3fe ∷ []) 0 0, 65536, 7, 5000), 7 ∷ [])
    ↔ SetUp server new_shmem write_to_env start_forkserver cut in_millis environment announces 0
        exim
        (codes "-bh" ∷ [])
        5000
        libdesock
        []
        (words [] (0xbeb9b3fe ∷ []) 0 0, 65536, 7, 5000)
        (7 ∷ [])
new-SetUp_example =
    new-SetUp server new_shmem write_to_env start_forkserver cut in_millis environment announces 0
      exim (codes "-bh" ∷ []) 5000 libdesock [] (words [] (0xbeb9b3fe ∷ []) 0 0, 65536, 7, 5000)
      (7 ∷ [])

abbrev wifsignaled : ℕ → Bool
wifsignaled status = status == 9

abbrev wifstopped : ℕ → Bool
wifstopped status = status == 127

-- The child 12 is over time and killed; the child 13 ends.
abbrev two_runs : Words
two_runs = words (12 ∷ 999 ∷ 9 ∷ 13 ∷ 0 ∷ []) [] 0 0

abbrev after_one : Words
after_one = words (13 ∷ 0 ∷ []) (0 ∷ []) 1 12

spin_off-Ran_example :
    spin_off server wifsignaled wifstopped two_runs ≡ (done timeout, after_one)
    ↔ Ran server wifsignaled wifstopped two_runs timeout after_one
spin_off-Ran_example = spin_off-Ran server wifsignaled wifstopped two_runs after_one timeout

first_run : spin_off server wifsignaled wifstopped two_runs ≡ (done timeout, after_one)
unfolding spin_off fork_and_wait finished killed i32_lt ◌>>=◌ call run
first_run = refl

second_run : spin_off server wifsignaled wifstopped after_one ≡ (done ok, words [] (1 ∷ 0 ∷ []) 0 0)
unfolding spin_off fork_and_wait finished ended i32_lt ◌>>=◌ call run
second_run = refl

spin_off-told_example :
    (told : Words) × (server.write_ctl
        (i32_from_bool (is_timeout timeout))
        (server.set_last_run_timed_out false after_one)
      ≡ (some tt, told))
spin_off-told_example =
    spin_off-told server wifsignaled wifstopped two_runs after_one (words [] (1 ∷ 0 ∷ []) 0 0)
      timeout ok first_run second_run

abbrev executor : ℕ → Executor Words
executor room = record { executions = 4; forkserver = put (shared_of room) two_runs }

abbrev quit : List Bytes
quit = codes "QUIT" ∷ []

abbrev quit_loaded : Words
quit_loaded = loaded bytes_packet server memory wifsignaled wifstopped quit (executor 16).forkserver

run_target_lem_example :
    (run_target bytes_packet server memory wifsignaled wifstopped quit (executor 16)
      ≡ with_forkserver 5 (spin_off server wifsignaled wifstopped quit_loaded))
    × Unpanicked (run_target bytes_packet server memory wifsignaled wifstopped quit (executor 16))
    × (quit_loaded.shared
        ≡ filled bytes_packet server memory wifsignaled wifstopped quit (shared_of 16))
    × (length quit_loaded.shared.bytes ≡ length (shared_of 16).bytes)
run_target_lem_example =
    run_target_lem bytes_packet server memory wifsignaled wifstopped quit (executor 16)
      (omega arith)

run_target-panics_example :
    (b : PacketBuffer) × (run_target bytes_packet server memory wifsignaled wifstopped quit
        (executor 11)
      ≡ (panicked, record { executions = 5; forkserver = put b (put (shared_of 11) two_runs) }))
    × (b.cursor ≡ 0)
    × (b.size ≡ 0)
    × Stuck bytes_packet quit (replicate 11 0) b.bytes
run_target-panics_example =
    run_target-panics bytes_packet server memory wifsignaled wifstopped quit (executor 11)
      (omega arith)
