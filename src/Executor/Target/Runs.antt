-- ===== src/Executor/Target/Runs.antt =====
-- What `run_target` does, as the messages that go to and fro in a run of the target.
use exim_fuzzer.Base.{
  ℕ, ◌≡◌, refl, sym, ◌∙◌, ap, subst, not, Bool, true, false, Option, none, some, if◌then◌else◌,
  arith, inl, inr, ◌↔◌, Bool-cases,
}
use exim_fuzzer.Executor.Server.{Forkserver, i32_lt}
use exim_fuzzer.Executor.Target.{
  ExitKind, ok, crash, timeout, ended, killed, finished, fork_and_wait, spin_off,
}
use exim_fuzzer.Io.{Result, done}
use exim_fuzzer.Io.Laws.{
  Yields, Yields-call, Yields-pure, Yields-guard, Yields-run, Yields-done, bind-step, call-step,
  run-step, pure-step,
}

abbrev pub is_timeout : ExitKind → Bool
is_timeout timeout = true
is_timeout ok = false
is_timeout crash = false

module _ (server : Forkserver) (wifsignaled wifstopped : ℕ → Bool) where
  open server use {
    State, read_st, read_st_timed, write_ctl, last_run_timed_out_raw, set_last_run_timed_out,
    child_pid, set_child_pid, reset_child_pid, kill,
  }

  -- The server was told whether the last run timed out, and sent the id of a new child.
  pub record Forked (s : State) (pid : ℕ) (s' : State) : Type 0 where
    pub told : State
    pub order :
        write_ctl (last_run_timed_out_raw s) (set_last_run_timed_out false s) ≡ (some tt, told)
    pub answered : State
    pub answer : read_st told ≡ (some pid, answered)
    pub positive : i32_lt 0 pid ≡ true
    pub after : set_child_pid pid answered ≡ s'

  -- One run: the child ended in time, with a wait status, or it was killed.
  pub data Ran (s : State) : ExitKind → State → Type 0 where
    in_time :
        (pid : ℕ) (forked : State)
        → Forked s pid forked
        → (status : ℕ) (s' : State) → read_st_timed forked ≡ (some (some status), s')
        → Ran s
            (if wifsignaled status then crash else ok)
            (if wifstopped status then s' else reset_child_pid s')
    too_late :
        (pid : ℕ) (forked : State)
        → Forked s pid forked
        → (waited : State) → read_st_timed forked ≡ (some none, waited)
        → (status : ℕ) (s' : State)
        → read_st (kill pid (set_last_run_timed_out true waited)) ≡ (some status, s')
        → Ran s timeout s'

  ended-step :
      (status : ℕ) (s : State)
      → ended server wifsignaled wifstopped status s ≡ (
        done (if wifsignaled status then crash else ok),
        if wifstopped status then s else reset_child_pid s,
      )
  unfolding ended
  ended-step status s = elim (Bool-cases (wifstopped status)) [
    | inl t ↦ rw t (bind-step _ _ pure-step pure-step)
    | inr f ↦ rw f (run-step _ _ pure-step)
  ]

  killed-Yields :
      (waited : State) (pid : ℕ)
      → child_pid waited ≡ pid
      → Yields
          (λ kind s'.
            (kind ≡ timeout)
            × ((status : ℕ) × (read_st (kill pid (set_last_run_timed_out true waited))
                  ≡ (some status, s'))))
          (killed server wifsignaled wifstopped)
          waited
  unfolding killed
  killed-Yields waited pid e = Yields-run _ _ (
      Yields-run _ _
        (Yields-call read_st λ status s' h. Yields-pure _ (refl, (status, rw (same_child) at h))))
    where
      same_child : child_pid (set_last_run_timed_out true waited) ≡ pid
      same_child = server.child_pid-set_last_run_timed_out true waited ∙ e

  killed-step :
      (waited : State) (pid status : ℕ) (s' : State)
      → child_pid waited ≡ pid
      → read_st (kill pid (set_last_run_timed_out true waited)) ≡ (some status, s')
      → killed server wifsignaled wifstopped waited ≡ (done timeout, s')
  unfolding killed
  killed-step waited pid status s' e h =
      let same_child = server.child_pid-set_last_run_timed_out true waited ∙ e in
      run-step _ _ (run-step _ _ (rw same_child (call-step _ _ h pure-step)))

  -- The child that is killed is the one that the server has just forked.
  waited_child :
      {pid : ℕ} {answered waited : State} {r : Option (Option ℕ)}
      → read_st_timed (set_child_pid pid answered) ≡ (r, waited)
      → child_pid waited ≡ pid
  waited_child {pid} {answered} {waited} e =
      ap (λ x. child_pid x.1) (sym e)
      ∙ server.child_pid-read_st_timed (set_child_pid pid answered)
      ∙ server.child_pid-set pid answered

  spin_off-Yields : (s : State) → Yields (Ran s) (spin_off server wifsignaled wifstopped) s
  unfolding spin_off fork_and_wait finished
  spin_off-Yields s = record { at = waits.at }
    where
      forked-Ran :
          (pid : ℕ) (answered : State)
          → Forked s pid (set_child_pid pid answered)
          → (answer : Option ℕ) (waited : State)
          → read_st_timed (set_child_pid pid answered) ≡ (some answer, waited)
          → Yields (Ran s) (finished server wifsignaled wifstopped answer) waited
      forked-Ran pid answered f none waited e = record {
        at = λ kind s' g.
            let (k, (status, h)) = (killed-Yields waited pid (waited_child e)).at kind s' g in
            subst (λ x. Ran s x s') (sym k) (too_late pid _ f waited e status s' h);
      }
      forked-Ran pid answered f (some status) waited e =
          Yields-done (ended-step status waited) (in_time pid _ f status waited e)

      waits :
          Yields (Ran s) (fork_and_wait server wifsignaled wifstopped (last_run_timed_out_raw s)) s
      waits = Yields-run _ _ (
          Yields-call (write_ctl (last_run_timed_out_raw s)) λ _ told order.
            Yields-call read_st λ pid answered answer.
              Yields-guard (not (i32_lt 0 pid)) _ λ positive. Yields-run _ _ (
                Yields-call read_st_timed λ r waited e.
                  forked-Ran pid answered
                    (record {
                      told = told;
                      order = order;
                      answered = answered;
                      answer = answer;
                      positive = ground arith;
                      after = refl;
                    })
                    r waited e))

  fork_and_wait-Forked :
      (s : State) (pid : ℕ) (forked : State)
      → Forked s pid forked
      → (r : Option ℕ) (waited : State) → read_st_timed forked ≡ (some r, waited)
      → (result : Result ExitKind × State)
      → (child_pid waited ≡ pid → finished server wifsignaled wifstopped r waited ≡ result)
      → spin_off server wifsignaled wifstopped s ≡ result
  unfolding spin_off fork_and_wait
  fork_and_wait-Forked s pid forked f r waited e result k =
      let e' : read_st_timed (set_child_pid pid f.answered) ≡ (some r, waited) = rw f.after e in
      let positive : not (i32_lt 0 pid) ≡ false = rw f.positive refl in
      run-step _ _ (
        call-step _ _ f.order (
          call-step _ _ f.answer
            (rw positive (run-step _ _ (call-step _ _ e' (k (waited_child e')))))))

  Ran-spin_off :
      (s s' : State) (kind : ExitKind)
      → Ran s kind s'
      → spin_off server wifsignaled wifstopped s ≡ (done kind, s')
  unfolding finished
  Ran-spin_off s _ _ (in_time pid forked f status waited e) =
      fork_and_wait-Forked s pid forked f (some status) waited e _ λ _. ended-step status waited
  Ran-spin_off s s' _ (too_late pid forked f waited e status _ h) =
      fork_and_wait-Forked s pid forked f none waited e _ λ c. killed-step waited pid status s' c h

  -- From "Spin off target" on, the code returns an exit kind exactly if the messages of a run went to and
  -- fro: the server was told whether the last run timed out, it sent the id of a new child, and either
  -- the child's wait status came in time, which tells a crash, or the code killed that child, and read
  -- its status. In this case the kind is a timeout.
  pub spin_off-Ran :
      (s s' : State) (kind : ExitKind)
      → spin_off server wifsignaled wifstopped s ≡ (done kind, s') ↔ Ran s kind s'
  spin_off-Ran s s' kind = ((spin_off-Yields s).at kind s', Ran-spin_off s s' kind)
