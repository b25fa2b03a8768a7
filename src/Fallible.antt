-- ===== src/Fallible.antt =====
-- Code that may panic and draws no random numbers: `none` is the panic.
use exim_fuzzer.Base.{ℕ, ◌-◌, ◌≤◌, ◌≡◌, Option, none, some, leb, le→leb, if◌then◌else◌}

infixl 5 ◌>>=◌
abbrev pub ◌>>=◌ {ℓ κ} : {A : Type ℓ} {B : Type κ} → Option A → (A → Option B) → Option B
none >>= f = none
some a >>= f = f a

-- `a - b` on `usize`
unfoldable pub checked_sub : ℕ → ℕ → Option ℕ
checked_sub a b = if leb b a then some (a - b) else none

pub checked_sub_le : (a b : ℕ) → b ≤ a → checked_sub a b ≡ some (a - b)
unfolding checked_sub
checked_sub_le a b h = rw (le→leb b a h)
