-- ===== src/Rand/Rules.antt =====
-- The rules for drawing from the random source, in the form that proofs about `do` blocks use.
use mathlib.Core.List.{Memᴰ}
use exim_fuzzer.Base.{ℕ, ◌≤◌, ◌≢◌, refl, Option, none, some, List, []}
use exim_fuzzer.Rand.{Rand, Chosen}
use exim_fuzzer.Run.{Run, lift, ◌>>=◌}
use exim_fuzzer.Run.Ensures.{Ensures, Ensures-bind, Ensures-lift-bind}

module _ (R : Rand) {B : Type 0} {Q : B → Type 0} where
  open R use {State, between, choose}

  pub Ensures-between :
      (lo hi : ℕ) {f : ℕ → Run State B}
      → lo ≤ hi
      → ((n : ℕ) → (lo ≤ n) × (n ≤ hi) → Ensures Q (f n))
      → Ensures Q (between lo hi >>= f)
  Ensures-between lo hi h k = Ensures-bind (R.between_lem lo hi h) k

  -- `rand.choose(items).unwrap()`
  pub Ensures-choose :
      {A : Type 0} (xs : List A) {f : A → Run State B}
      → xs ≢ []
      → ((x : A) → Memᴰ x xs → Ensures Q (f x))
      → Ensures Q (choose xs >>= λ o. lift o >>= f)
  Ensures-choose {A} xs {f} h k = Ensures-bind (R.choose_lem xs h) go
    where
      go : (o : Option A) → Chosen xs o → Ensures Q (lift o >>= f)
      go none c = absurd c
      go (some x) c = Ensures-lift-bind f (refl) (k x c)
