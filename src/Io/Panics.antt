-- ===== src/Io/Panics.antt =====
-- Where a computation can panic.
use exim_fuzzer.Base.{
  ℕ, ◌-◌, ◌≤◌, ◌≡◌, refl, ◌∙◌, Bool, true, false, Option, none, some, le→leb, if◌then◌else◌,
}
use exim_fuzzer.Io.{
  Result, done, failed, panicked, Io, Reply, answer, call, continue, ◌>>=◌, u32_sub,
}
use exim_fuzzer.Io.Laws.{IsSafe, Unpanicked}

-- If the computation panics from the state `s`, the state that it leaves satisfies the postcondition.
pub record Panics {S A : Type 0} (Q : S → Type 0) (m : Io S A) (s : S) : Type 0 where
  pub at : (s' : S) → m s ≡ (panicked, s') → Q s'

module _ {S A B : Type 0} {Q : S → Type 0} where
  pub Panics-bind :
      (m : Io S A) {f : A → Io S B} {s : S}
      → Panics Q m s
      → ((a : A) (s1 : S) → m s ≡ (done a, s1) → Panics Q (f a) s1)
      → Panics Q (m >>= f) s
  unfolding ◌>>=◌
  Panics-bind m {f} {s} h k = record { at = go (m s) refl }
    where
      go : (r : Result A × S) → m s ≡ r → (s' : S) → continue r f ≡ (panicked, s') → Q s'
      go (done a, s1) q s' e = (k a s1 q).at s' e
      go (failed x, s1) q s' e = cc
      go (panicked, s1) q s' e = h.at s' (q ∙ cc)

  pub Panics-call :
      (m : Reply S A) {f : A → Io S B} {s : S}
      → ((a : A) (s1 : S) → m s ≡ (some a, s1) → Panics Q (f a) s1)
      → Panics Q (call m >>= f) s
  unfolding ◌>>=◌ call
  Panics-call m {f} {s} k = record { at = go (m s) refl }
    where
      go : (r : Option A × S) → m s ≡ r → (s' : S) → continue (answer r) f ≡ (panicked, s') → Q s'
      go (some a, s1) q s' e = (k a s1 q).at s' e
      go (none, s1) q s' e = cc

module _ {S B : Type 0} {Q : S → Type 0} where
  pub Panics-if :
      (c : Bool) {m n : Io S B} {s : S}
      → (c ≡ true → Panics Q m s)
      → (c ≡ false → Panics Q n s)
      → Panics Q (if c then m else n) s
  Panics-if true km kn = km refl
  Panics-if false km kn = kn refl

  pub Panics-none : {m : Io S B} {s : S} → IsSafe m → Panics Q m s
  Panics-none {m} {s} h = record { at = go (m s) (h.at s) }
    where
      go : (r : Result B × S) → Unpanicked r → (s' : S) → r ≡ (panicked, s') → Q s'
      go (done a, s1) u s' e = cc
      go (failed x, s1) u s' e = cc
      go (panicked, s1) u s' e = absurd u

  pub Panics-sub :
      (a b : ℕ) (f : ℕ → Io S B) {s : S}
      → b ≤ a
      → Panics Q (f (a - b)) s
      → Panics Q (u32_sub a b >>= f) s
  unfolding ◌>>=◌ u32_sub
  Panics-sub a b f h k = rw (le→leb b a h) (record { at = k.at })
