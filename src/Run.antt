-- ===== src/Run.antt =====
-- Rust code that draws from a random source and may panic: a state monad over `Option`.
-- `none` is a panic: a failed `debug_assert!`, an index out of range, an underflow of `usize`, a
-- failed `unwrap`, or an `unreachable!`. This is the behaviour of a debug build; where the code
-- is shown never to panic, a release build does the same.
pub mod Ensures
use exim_fuzzer.Base.{ℕ, ◌-◌, ◌/◌, ◌==◌, Bool, Option, none, some, leb, if◌then◌else◌}

abbrev pub Run {ℓ} : Type ℓ → Type ℓ → Type ℓ
Run S A = S → Option (A × S)

module _ {ℓ} {S A : Type ℓ} where
  pub pure : A → Run S A
  pure a s = some (a, s)

  pub panic : Run S A
  panic s = none

  -- A pure operation that may panic.
  pub lift : Option A → Run S A
  lift none s = none
  lift (some a) s = some (a, s)

module _ {ℓ} {S A B : Type ℓ} where
  abbrev pub continue : Option (A × S) → (A → Run S B) → Option (B × S)
  continue none f = none
  continue (some (a, s)) f = f a s

  infixl 5 ◌>>=◌ ◌>>◌
  -- Opening this opens `pure`, `panic` and `lift` too.
  unfoldable pub ◌>>=◌ : Run S A → (A → Run S B) → Run S B
  unfolding pure panic lift
  ◌>>=◌ m f s = continue (m s) f

  abbrev pub ◌>>◌ : Run S A → Run S B → Run S B
  m >> k = m >>= λ _. k

-- `a - b` on `usize`.
unfoldable pub usize_sub : {S : Type 0} → ℕ → ℕ → Run S ℕ
unfolding pure panic
usize_sub a b = if leb b a then pure (a - b) else panic

unfoldable pub debug_assert : {S : Type 0} → Bool → Run S (Unit {0})
unfolding pure panic
debug_assert b = if b then pure tt else panic

-- `a / b` on `usize`.
unfoldable pub usize_div : {S : Type 0} → ℕ → ℕ → Run S ℕ
unfolding pure panic
usize_div a b = if b == 0 then panic else pure (a / b)

-- Two states side by side: a computation on one of them leaves the other alone.
module _ {S T A : Type 0} where
  abbrev pub keep_right : Option (A × S) → T → Option (A × (S × T))
  keep_right none t = none
  keep_right (some (a, s)) t = some (a, (s, t))

  abbrev pub keep_left : S → Option (A × T) → Option (A × (S × T))
  keep_left s none = none
  keep_left s (some (a, t)) = some (a, (s, t))

  unfoldable pub on_left : Run S A → Run (S × T) A
  on_left m (s, t) = keep_right (m s) t

  unfoldable pub on_right : Run T A → Run (S × T) A
  on_right m (s, t) = keep_left s (m t)
