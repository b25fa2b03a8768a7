-- ===== src/Rand.antt =====
-- The random source: the trait `Rand` of the crate libafl_bolts, which the repository only calls.
-- It is a parameter: a state, operations, and what the crate's documentation promises of them.
pub mod Rules
use mathlib.Core.List.{Memᴰ}
use exim_fuzzer.Base.{ℕ, ◌^◌, ◌≤◌, ◌<◌, ◌≢◌, Bool, Option, some, none, List, []}
use exim_fuzzer.Run.{Run}
use exim_fuzzer.Run.Ensures.{Ensures}

-- `choose` returns an item of the iterator, if that is not empty.
abbrev pub Chosen : {A : Type 0} → List A → Option A → Type 0
Chosen xs none = ⊥
Chosen xs (some x) = Memᴰ x xs

pub record Rand : Type 1 where
  pub State : Type 0
  -- `next()`: a `u64`
  pub next : Run State ℕ
  -- `between(lower, upper)`: both bounds inclusive
  pub between : ℕ → ℕ → Run State ℕ
  -- `zero_upto(upper)`: the bound is inclusive
  pub zero_upto : ℕ → Run State ℕ
  -- `below(n)`, for a `NonZero` n
  pub below : ℕ → Run State ℕ
  -- `choose(items)`
  pub choose : {A : Type 0} → List A → Run State (Option A)
  -- `coinflip(0.5)`, the only probability in use
  pub coinflip : Run State Bool
  pub next_lem : Ensures (λ n. n < 2 ^ 64) next
  pub between_lem : (lo hi : ℕ) → lo ≤ hi → Ensures (λ n. (lo ≤ n) × (n ≤ hi)) (between lo hi)
  pub zero_upto_lem : (hi : ℕ) → Ensures (λ n. n ≤ hi) (zero_upto hi)
  pub below_lem : (n : ℕ) → 0 < n → Ensures (λ k. k < n) (below n)
  pub choose_lem : {A : Type 0} (xs : List A) → xs ≢ [] → Ensures (Chosen xs) (choose xs)
  pub coinflip_lem : Ensures (λ _. Unit) coinflip
