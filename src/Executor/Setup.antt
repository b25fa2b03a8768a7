-- ===== src/Executor/Setup.antt =====
-- `LibdesockExecutor::new`. The provider of shared memory, the environment and the start of the process
-- are parameters, on a state of the world; so are the map observer among the observers, which may be
-- missing, and the conversion of the timeout. The type parameters have no values.
pub mod Laws
use exim_fuzzer.Base.{
  ℕ, ◌*◌, ◌≡◌, ◌↔◌, refl, sym, ◌∙◌, ap, subst, Option, none, some, Bytes, codes, List, [], ◌∷◌, ◌-◌,
  ◌^◌, Bool, true, false,
}
use exim_fuzzer.Executor.Server.{Forkserver}
use exim_fuzzer.Executor.Handshake.{do_forkserver_handshake}
use exim_fuzzer.Executor.Handshake.Protocol.{Handshake, do_forkserver_handshake-Handshake}
use exim_fuzzer.Io.{
  Io, Result, done, failed, panicked, no_map_observer, Reply, pure, fail, call, ◌>>=◌,
}
use exim_fuzzer.Io.Laws.{
  Yields, Yields-bind, Yields-call, Yields-pure, Yields-fail, bind-step, call-step, pure-step,
}

-- `PACKET_BUFFER_SIZE` and `ENV_VAR`
abbrev pub packet_buffer_size : ℕ
packet_buffer_size = 64 * 1024 * 1024

abbrev pub env_var : Bytes
env_var = codes "LIBDESOCK_PACKET_BUFFER"

-- `MAP_SIZE` of fuzzer/src/main.rs
abbrev pub map_size : ℕ
map_size = 65536

-- The arguments of `Forkserver::new` of the crate libafl, by the names that its documentation gives them.
-- The file descriptor is the pattern of an `i32`.
pub record Arguments : Type 0 where
  pub target : Bytes
  pub args : List Bytes
  pub envs : List (Bytes × Bytes)
  pub input_filedesc : ℕ
  pub use_stdin : Bool
  pub memlimit : ℕ
  pub is_persistent : Bool
  pub is_deferred_frksrv : Bool
  pub dump_asan_logs : Bool
  pub coverage_map_size : Option ℕ
  pub debug_output : Bool

-- What `new` gives.
unfoldable pub arguments : Bytes → List Bytes → Bytes → Arguments
arguments program args libdesock_path = record {
  target = program;
  args = args;
  envs = (codes "LD_PRELOAD", libdesock_path) ∷ [];
  input_filedesc = 2 ^ 32 - 1;
  use_stdin = false;
  memlimit = 0;
  is_persistent = false;
  is_deferred_frksrv = true;
  dump_asan_logs = false;
  coverage_map_size = some map_size;
  debug_output = false;
}

-- A computation on a state of its own, which is kept with the result.
module _ {S World A : Type 0} where
  abbrev pub brought : World → Result A × S → Result (A × S) × World
  brought w (done a, s) = (done (a, s), w)
  brought w (failed e, s) = (failed e, w)
  brought w (panicked, s) = (panicked, w)

  unfoldable pub with_own : Io S A → S → Io World (A × S)
  with_own m s w = brought w (m s)

module _ (server : Forkserver) {World Shm Observers TimeSpec : Type 0}
    (new_shmem : ℕ → Reply World Shm) (write_to_env : Bytes → Shm → Reply World (Unit {0}))
    (start_forkserver : Arguments → Reply World server.State)
    (truncate : ℕ → Observers → Option Observers) (from_millis : ℕ → TimeSpec) where
  -- The executor: its fork server, observers, packet buffer and timeout.
  abbrev pub Parts : Type 0
  Parts = server.State × Observers × Shm × TimeSpec

  -- `none` is a map observer that is missing.
  unfoldable pub truncated : Option Observers → Io World Observers
  truncated none = fail no_map_observer
  truncated (some observers) = pure observers

  unfoldable pub fit_observer : Option ℕ → Observers → Io World Observers
  fit_observer none observers = pure observers
  fit_observer (some size) observers = truncated (truncate size observers)

  unfoldable pub new : Observers → Bytes → List Bytes → ℕ → Bytes → Io World Parts
  unfolding arguments fit_observer
  new observers program args timeout libdesock_path = do
    packet_buffer ← call (new_shmem packet_buffer_size)
    _ ← call (write_to_env env_var packet_buffer)
    forkserver ← call (start_forkserver (arguments program args libdesock_path))
    (size, forkserver') ← with_own (do_forkserver_handshake server) forkserver
    observers' ← fit_observer size observers
    pure (forkserver', observers', packet_buffer, from_millis timeout)
