-- ===== src/Io.antt =====
-- Rust code that talks to the outside, may return an error, and may panic: a state monad with these three
-- results. Unlike in Run, the state after an error or a panic is kept. A parameter of the code, such as a
-- method of the crate libafl, is called with `call`: it returns a value or an `Err`, and a new state.
pub mod Laws
pub mod Panics
use exim_fuzzer.Base.{ℕ, ◌-◌, Bool, Option, none, some, leb, if◌then◌else◌}

-- The errors that the code itself makes, by their texts, and those that `?` passes on.
pub data Error : Type 0 where
  instrumentation_complained old_version unsupported_version end_not_caught invalid_pid
        no_map_observer passed_on :
      Error

pub data Result (A : Type 0) : Type 0 where
  done : A → Result A
  failed : Error → Result A
  panicked : Result A

abbrev pub Io : Type 0 → Type 0 → Type 0
Io S A = S → Result A × S

-- A call of code that is not the repository's, where `none` is an `Err`.
abbrev pub Reply : Type 0 → Type 0 → Type 0
Reply S A = S → Option A × S

module _ {S A : Type 0} where
  pub pure : A → Io S A
  pure a s = (done a, s)

  pub fail : Error → Io S A
  fail e s = (failed e, s)

  pub panic : Io S A
  panic s = (panicked, s)

  abbrev pub answer : Option A × S → Result A × S
  answer (none, s) = (failed passed_on, s)
  answer (some a, s) = (done a, s)

  -- A call with `?` behind it.
  unfoldable pub call : Reply S A → Io S A
  call f s = answer (f s)

module _ {S A B : Type 0} where
  abbrev pub continue : Result A × S → (A → Io S B) → Result B × S
  continue (done a, s) f = f a s
  continue (failed e, s) f = (failed e, s)
  continue (panicked, s) f = (panicked, s)

  infixl 5 ◌>>=◌ ◌>>◌
  -- Opening this opens `pure`, `fail` and `panic` too.
  unfoldable pub ◌>>=◌ : Io S A → (A → Io S B) → Io S B
  unfolding pure fail panic
  ◌>>=◌ m f s = continue (m s) f

  abbrev pub ◌>>◌ : Io S A → Io S B → Io S B
  m >> k = m >>= λ _. k

-- A method without a result.
unfoldable pub run : {S : Type 0} → (S → S) → Io S (Unit {0})
run f s = (done tt, f s)

-- `a - b` on `u32`, in a debug build.
unfoldable pub u32_sub : {S : Type 0} → ℕ → ℕ → Io S ℕ
unfolding pure panic
u32_sub a b = if leb b a then pure (a - b) else panic
