-- ===== src/Executor/Setup/Laws.antt =====
-- How `LibdesockExecutor::new` sets up an executor.
use exim_fuzzer.Base.{
  ℕ, ◌≡◌, ◌↔◌, refl, sym, ◌∙◌, ap, subst, Option, none, some, Bytes, codes, List, [], ◌∷◌, true,
  false,
}
use exim_fuzzer.Executor.Server.{Forkserver}
use exim_fuzzer.Executor.Handshake.{do_forkserver_handshake}
use exim_fuzzer.Executor.Handshake.Protocol.{Handshake, do_forkserver_handshake-Handshake}
use exim_fuzzer.Io.{Io, Result, done, failed, panicked, Reply, pure}
use exim_fuzzer.Io.Laws.{
  Yields, Yields-bind, Yields-call, Yields-pure, Yields-fail, bind-step, call-step, pure-step,
}
use exim_fuzzer.Executor.Setup.{
  packet_buffer_size, env_var, Arguments, arguments, brought, with_own, truncated, fit_observer,
  new, Parts,
}

returned : {S A : Type 0} → A × S → Result A × S
returned p = (done p.0, p.1)

module _ {S World A : Type 0} where
  with_own-step :
      (m : Io S A) (s s' : S) (a : A) (w : World)
      → m s ≡ (done a, s')
      → with_own m s w ≡ (done (a, s'), w)
  unfolding with_own
  with_own-step m s s' a w e = rw e refl

  with_own-done :
      (m : Io S A) (s : S) (w : World) (r : A × S) (w' : World)
      → with_own m s w ≡ (done r, w')
      → (m s ≡ returned r) × (w' ≡ w)
  unfolding with_own returned
  with_own-done m s w r w' e = go (m s) refl e
    where
      go : (x : Result A × S) → m s ≡ x → brought w x ≡ (done r, w') → (m s ≡ returned r) × (w' ≡ w)
      go (done a, t) q f = let same : (a, t) ≡ r = cc in (q ∙ ap returned same, cc)
      go (failed x, t) q f = cc
      go (panicked, t) q f = cc

module _ (server : Forkserver) {World Shm Observers TimeSpec : Type 0}
    (new_shmem : ℕ → Reply World Shm) (write_to_env : Bytes → Shm → Reply World (Unit {0}))
    (start_forkserver : Arguments → Reply World server.State)
    (truncate : ℕ → Observers → Option Observers) (from_millis : ℕ → TimeSpec) where
  -- The map observer is cut to the size that the server sent, if it sent one.
  abbrev pub Fitted : Option ℕ → Observers → Observers → Type 0
  Fitted none observers observers' = observers' ≡ observers
  Fitted (some size) observers observers' = truncate size observers ≡ some observers'

  module _ (environment : World → Bytes → Option Shm)
      (announces : (name : Bytes) (shm : Shm) (w w' : World)
        → write_to_env name shm w ≡ (some tt, w')
        → environment w' name ≡ some shm)
      (observers : Observers) (program : Bytes) (args : List Bytes) (timeout : ℕ)
      (libdesock_path : Bytes) where
    -- The executor is set up: the world in which the target starts has a buffer of 64 MiB that the variable
    -- names, the target is the program with its arguments under libdesock, as a server that is deferred and
    -- not persistent; it kept to the protocol of the handshake; and the observer is of the server's size.
    pub record SetUp (w : World)
        (parts : Parts server new_shmem write_to_env start_forkserver truncate from_millis)
        (w' : World) : Type 0 where
      pub reserved : World
      pub buffer : new_shmem 67108864 w ≡ (some parts.2, reserved)
      pub announced : World
      pub exported :
          write_to_env (codes "LIBDESOCK_PACKET_BUFFER") parts.2 reserved ≡ (some tt, announced)
      pub found : environment announced (codes "LIBDESOCK_PACKET_BUFFER") ≡ some parts.2
      pub forkserver : server.State
      pub started :
          start_forkserver
            (record {
              target = program;
              args = args;
              envs = (codes "LD_PRELOAD", libdesock_path) ∷ [];
              input_filedesc = 0xffffffff;
              use_stdin = false;
              memlimit = 0;
              is_persistent = false;
              is_deferred_frksrv = true;
              dump_asan_logs = false;
              coverage_map_size = some 65536;
              debug_output = false;
            })
            announced
          ≡ (some forkserver, w')
      pub sent_size : Option ℕ
      pub handshake : Handshake server forkserver sent_size parts.0
      pub fitted : Fitted sent_size observers parts.1
      pub limit : from_millis timeout ≡ parts.3

  fit_observer-Fitted :
      (m : Option ℕ) (observers : Observers) (w : World)
      → Yields
          (λ o w'. Fitted m observers o × (w' ≡ w))
          (fit_observer server new_shmem write_to_env start_forkserver truncate from_millis m
            observers)
          w
  unfolding fit_observer truncated
  fit_observer-Fitted none observers w = Yields-pure observers (refl, refl)
  fit_observer-Fitted (some n) observers w = go (truncate n observers) refl
    where
      go :
          (o : Option Observers)
          → truncate n observers ≡ o
          → Yields
              (λ o w'. (truncate n observers ≡ some o) × (w' ≡ w))
              (truncated server new_shmem write_to_env start_forkserver truncate from_millis o)
              w
      go none e = Yields-fail _
      go (some o) e = Yields-pure o (e, refl)

  Fitted-fit_observer :
      (m : Option ℕ) (observers observers' : Observers) (w : World)
      → Fitted m observers observers'
      → fit_observer server new_shmem write_to_env start_forkserver truncate from_millis m observers
          w
        ≡ (done observers', w)
  unfolding fit_observer truncated
  Fitted-fit_observer none observers observers' w e =
      subst (λ o. pure observers w ≡ (done o, w)) (sym e) pure-step
  Fitted-fit_observer (some n) observers observers' w e = rw e pure-step

  module _ (environment : World → Bytes → Option Shm)
      (announces : (name : Bytes) (shm : Shm) (w w' : World)
        → write_to_env name shm w ≡ (some tt, w')
        → environment w' name ≡ some shm)
      (observers : Observers) (program : Bytes) (args : List Bytes) (timeout : ℕ)
      (libdesock_path : Bytes) where
    abbrev IsSetUp :
        World
        → Parts server new_shmem write_to_env start_forkserver truncate from_millis
        → World
        → Type 0
    IsSetUp = SetUp environment announces observers program args timeout libdesock_path

    sound :
        (w : World)
        → Yields
            (IsSetUp w)
            (new server new_shmem write_to_env start_forkserver truncate from_millis observers
              program args timeout libdesock_path)
            w
    unfolding new returned arguments
    sound w = Yields-call (new_shmem packet_buffer_size) λ shm reserved buffer.
        Yields-call (write_to_env env_var shm) λ _ announced exported.
          Yields-call (start_forkserver (arguments program args libdesock_path))
            λ forkserver w' started.
              Yields-bind (with_own (do_forkserver_handshake server) forkserver) λ r w1 shaken.
                Yields-bind
                  (fit_observer server new_shmem write_to_env start_forkserver truncate from_millis
                    r.0 observers)
                  λ observers' w2 fits.
                    let (ran, same) =
                      with_own-done (do_forkserver_handshake server) forkserver w' r w1 shaken in
                    let (fitted, kept) =
                      (fit_observer-Fitted r.0 observers w1).at observers' w2 fits in
                    Yields-pure _ (record {
                      reserved = reserved;
                      buffer = buffer;
                      announced = announced;
                      exported = exported;
                      found = announces env_var shm reserved announced exported;
                      forkserver = forkserver;
                      started =
                          subst
                            (λ x.
                              start_forkserver (arguments program args libdesock_path) announced
                              ≡ (some forkserver, x))
                            (sym (kept ∙ same)) started;
                      sent_size = r.0;
                      handshake =
                          (do_forkserver_handshake-Handshake server forkserver r.1 r.0).0 ran;
                      fitted = fitted;
                      limit = refl;
                    })

    complete :
        (w : World)
        (parts : Parts server new_shmem write_to_env start_forkserver truncate from_millis)
        (w' : World)
        → IsSetUp w parts w'
        → new server new_shmem write_to_env start_forkserver truncate from_millis observers program
            args timeout libdesock_path w
          ≡ (done parts, w')
    unfolding new arguments
    complete w parts w' h = call-step _ _ h.buffer (
        call-step _ _ h.exported (
          call-step _ _ h.started (
            bind-step _ _
              (with_own-step (do_forkserver_handshake server) h.forkserver parts.0 h.sent_size w' (
                (do_forkserver_handshake-Handshake server h.forkserver parts.0 h.sent_size).1
                  h.handshake))
              (bind-step _ _ (Fitted-fit_observer h.sent_size observers parts.1 w' h.fitted)
                (rw (← h.limit) pure-step)))))

    -- Where writing to the environment makes the variable name the buffer, `LibdesockExecutor::new` returns
    -- an executor exactly if a buffer of 64 MiB was reserved and announced as `LIBDESOCK_PACKET_BUFFER`,
    -- the fork server was started after that, so that it finds the buffer there, with the program, its
    -- arguments, libdesock as `LD_PRELOAD`, a coverage map of 65536 bytes and no input by a file, the server
    -- kept to the protocol of the handshake, and the map observer was cut to the size that the server sent;
    -- if the server sent none, the observers are as they were. The timeout is the one given.
    pub new-SetUp :
        (w : World)
        (parts : Parts server new_shmem write_to_env start_forkserver truncate from_millis)
        (w' : World)
        → new server new_shmem write_to_env start_forkserver truncate from_millis observers program
              args timeout libdesock_path w
            ≡ (done parts, w')
          ↔ IsSetUp w parts w'
    new-SetUp w parts w' = ((sound w).at parts w', complete w parts w')
