-- ===== src/Suite/Rounds/Overflow.antt =====
-- fuzzer/src/tokens/mutators/mod.rs: the counter of the loop of `fuzz_mutators`.
use exim_fuzzer.Base.{
  ℕ, zero, suc, ◌+◌, ◌^◌, ◌≤◌, ◌<◌, ◌≡◌, refl, inl, inr, Option, none, some, List, Bytes, arith,
  ltb, Bool-cases,
}
use exim_fuzzer.Rand.{Rand}
use exim_fuzzer.Run.{Run, continue, ◌>>=◌}
use exim_fuzzer.Suite.Mutators.{letters}
use exim_fuzzer.Suite.Print.{parse_unwrap}
use exim_fuzzer.Suite.Rounds.{session, i32_increment, fuzz_stream, fuzz_loop, fuzz_mutators}
use exim_fuzzer.Token.{TokenStream}

-- A computation that panics from every state, whatever comes before it.
abbrev Panics : {S A : Type 0} → Run S A → Type 0
Panics {S} m = (s : S) → m s ≡ none

Panics-bind :
    {S A B : Type 0} (m : Run S A) (f : A → Run S B) → ((a : A) → Panics (f a)) → Panics (m >>= f)
unfolding ◌>>=◌
Panics-bind {S} {A} {B} m f h s = go (m s)
  where
    go : (r : Option (A × S)) → continue r f ≡ none
    go none = refl
    go (some (a, s')) = h a s'

module _ (R : Rand) (dict : List Bytes) where
  -- The counter is an `i32`, and overflows at 2 ^ 31.
  fuzz_loop-Panics :
      (stream : TokenStream) (n count : ℕ)
      → count < 2 ^ 31
      → 2 ^ 31 ≤ count + n
      → Panics (fuzz_loop R dict stream n count)
  unfolding fuzz_loop i32_increment ◌>>=◌
  fuzz_loop-Panics stream zero count small far = absurd (omega arith)
  fuzz_loop-Panics stream (suc n) count small far = elim (Bool-cases (ltb (count + 1) (2 ^ 31))) [
    | inl fits ↦ rw fits (
        Panics-bind (fuzz_stream R dict 1000 stream) _
          λ _. fuzz_loop-Panics stream n (count + 1) (ground arith) (omega arith))
    | inr full ↦ rw full (λ s. refl)
  ]

-- The `loop` of `fuzz_mutators` does not run forever: from 2 ^ 31 iterations on the test panics, in any
-- state of the random source and whatever `add_tokens` does, because its counter is an `i32`.
pub fuzz_mutators-overflow :
    (R : Rand) (add_tokens : List Bytes → List Bytes) (n : ℕ)
    → 2 ^ 31 ≤ n
    → (s : R.State) → fuzz_mutators R add_tokens n s ≡ none
unfolding fuzz_mutators
fuzz_mutators-overflow R add_tokens n far =
    Panics-bind (parse_unwrap session) _
      λ stream. fuzz_loop-Panics R (add_tokens letters) stream n 0 (omega arith) (omega arith)
