-- ===== src/Executor/Target/Flag.antt =====
-- The flag that tells the fork server whether the last run timed out.
use exim_fuzzer.Base.{ℕ, ◌≡◌, sym, ◌∙◌, ap, subst, Bool, true, false, some, if◌then◌else◌}
use exim_fuzzer.Executor.Server.{Forkserver, i32_from_bool}
use exim_fuzzer.Executor.Target.{ExitKind, ok, crash, spin_off}
use exim_fuzzer.Executor.Target.Runs.{Ran, in_time, too_late, Forked, is_timeout, spin_off-Ran}
use exim_fuzzer.Io.{done}

module _ (server : Forkserver) (wifsignaled wifstopped : ℕ → Bool) where
  open server use {
    State, read_st, read_st_timed, write_ctl, last_run_timed_out_raw, set_last_run_timed_out,
    child_pid, set_child_pid, reset_child_pid, kill,
  }

  -- `self.forkserver.last_run_timed_out`
  abbrev raw : State → ℕ
  raw = last_run_timed_out_raw

  raw-Forked : {s s' : State} {pid : ℕ} → Forked server wifsignaled wifstopped s pid s' → raw s' ≡ 0
  raw-Forked {s} {s'} {pid} f =
      ap raw (sym f.after)
      ∙ server.raw-set_child_pid pid f.answered
      ∙ ap (λ x. raw x.1) (sym f.answer)
      ∙ server.raw-read_st f.told
      ∙ ap (λ x. raw x.1) (sym f.order)
      ∙ server.raw-write_ctl (raw s) (set_last_run_timed_out false s)
      ∙ server.raw-set false s

  raw-Ran :
      {s s' : State} {kind : ExitKind}
      → Ran server wifsignaled wifstopped s kind s'
      → raw s' ≡ i32_from_bool (is_timeout kind)
  raw-Ran (in_time pid forked f status waited e) =
      let kept : raw waited ≡ 0 =
        ap (λ x. raw x.1) (sym e) ∙ server.raw-read_st_timed forked ∙ raw-Forked f in
      at_end (wifsignaled status) (wifstopped status) waited kept
    where
      at_end :
          (c b : Bool) (t : State)
          → raw t ≡ 0
          → raw (if b then t else reset_child_pid t)
            ≡ i32_from_bool (is_timeout (if c then crash else ok))
      at_end true true t h = h
      at_end true false t h = server.raw-reset_child_pid t ∙ h
      at_end false true t h = h
      at_end false false t h = server.raw-reset_child_pid t ∙ h
  raw-Ran (too_late pid forked f waited e status s' h) =
      ap (λ x. raw x.1) (sym h)
      ∙ server.raw-read_st (kill pid (set_last_run_timed_out true waited))
      ∙ server.raw-kill pid (set_last_run_timed_out true waited)
      ∙ server.raw-set true waited

  -- Where one run returned an exit kind, and the next returns one too, the word that the next writes to
  -- the server is 1 if the first one's kind was a timeout, and else 0; and it is written before anything
  -- else is sent or read.
  pub spin_off-told :
      (s s1 s2 : State) (kind kind' : ExitKind)
      → spin_off server wifsignaled wifstopped s ≡ (done kind, s1)
      → spin_off server wifsignaled wifstopped s1 ≡ (done kind', s2)
      → (told : State) × (write_ctl
            (i32_from_bool (is_timeout kind))
            (set_last_run_timed_out false s1)
          ≡ (some tt, told))
  spin_off-told s s1 s2 kind kind' e e' =
      let flag = raw-Ran ((spin_off-Ran server wifsignaled wifstopped s s1 kind).0 e) in
      let f = forked ((spin_off-Ran server wifsignaled wifstopped s1 s2 kind').0 e') in
      (
        f.1.told,
        subst (λ n. write_ctl n (set_last_run_timed_out false s1) ≡ (some tt, f.1.told)) flag
            f.1.order,
      )
    where
      forked :
          {t t' : State} {k : ExitKind}
          → Ran server wifsignaled wifstopped t k t'
          → (p : ℕ × State) × Forked server wifsignaled wifstopped t p.0 p.1
      forked (in_time pid u f _ _ _) = ((pid, u), f)
      forked (too_late pid u f _ _ _ _ _) = ((pid, u), f)
