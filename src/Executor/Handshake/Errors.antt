-- ===== src/Executor/Handshake/Errors.antt =====
-- How the handshake fails.
use Prim.Native.Nat.{bit_and}
use exim_fuzzer.Base.{
  Bool-cases, ℕ, ◌-◌, ◌≤◌, ◌≡◌, ◌≢◌, refl, false, not, some, ◌==◌, arith, inl, inr,
}
use exim_fuzzer.Io.{instrumentation_complained, old_version, unsupported_version, failed, Error}
use exim_fuzzer.Io.Laws.{call-step, sub-step, fail-step}
use exim_fuzzer.Executor.Server.{Forkserver, i32_lt}
use exim_fuzzer.Executor.Handshake.{fs_new_error, is_version, do_forkserver_handshake}
use exim_fuzzer.Executor.Handshake.Protocol.{version_1}

pub is_version-le : (v : ℕ) → not (is_version v) ≡ false → 0x41464c00 ≤ v
unfolding is_version i32_lt
is_version-le v e = ground arith

module _ (server : Forkserver) where
  open server use {State, read_st, read_st_of_len, write_ctl}

  -- To a server whose first word is not that of version 1, the code writes nothing: it returns an error at
  -- once, with nothing but the first word read.
  pub do_forkserver_handshake-refuses :
      (s s1 : State) (v : ℕ)
      → read_st s ≡ (some v, s1)
      → v ≢ version_1
      → (e : Error) × (do_forkserver_handshake server s ≡ (failed e, s1))
  unfolding do_forkserver_handshake
  do_forkserver_handshake-refuses s s1 v h other =
      elim (Bool-cases (bit_and v fs_new_error == fs_new_error)) [
        | inl t ↦ (instrumentation_complained, call-step _ _ h (rw t (fail-step _ _)))
        | inr f ↦ elim (Bool-cases (is_version v)) [
          | inr g ↦ (old_version, call-step _ _ h (rw (f, g) (fail-step _ _)))
          | inl g ↦
              let inside : not (is_version v) ≡ false = rw g refl in
              let ne : (v - 0x41464c00 == 1) ≡ false = not_supported (is_version-le v inside) in
              (
                unsupported_version,
                call-step _ _ h
                    (rw (f, g) (sub-step _ _ _ (is_version-le v inside) (rw ne (fail-step _ _)))),
              )
        ]
      ]
    where
      not_supported : 0x41464c00 ≤ v → (v - 0x41464c00 == 1) ≡ false
      not_supported le = let ne : v ≢ 0x41464c01 = other in ground arith
