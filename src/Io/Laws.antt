-- ===== src/Io/Laws.antt =====
-- How a computation that returned did so, and how one returns.
use exim_fuzzer.Base.{
  sym, ◌∙◌, ℕ, ◌-◌, ◌≤◌, ◌≡◌, refl, subst, Bool, true, false, Option, none, some, leb, le→leb,
  if◌then◌else◌, dec_le, arith,
}
use exim_fuzzer.Io.{
  Error, Result, done, failed, panicked, Io, Reply, pure, fail, panic, answer, call, run, continue,
  ◌>>=◌, u32_sub,
}

-- From the state `s`, whatever the computation returns satisfies the postcondition, with the state after.
pub record Yields {S A : Type 0} (Q : A → S → Type 0) (m : Io S A) (s : S) : Type 0 where
  pub at : (a : A) (s' : S) → m s ≡ (done a, s') → Q a s'

module _ {S A B : Type 0} {Q : B → S → Type 0} where
  pub Yields-bind :
      (m : Io S A) {f : A → Io S B} {s : S}
      → ((a : A) (s1 : S) → m s ≡ (done a, s1) → Yields Q (f a) s1)
      → Yields Q (m >>= f) s
  unfolding ◌>>=◌
  Yields-bind m {f} {s} k = record { at = go (m s) refl }
    where
      go : (r : Result A × S) → m s ≡ r → (b : B) (s' : S) → continue r f ≡ (done b, s') → Q b s'
      go (done a, s1) q b s' e = (k a s1 q).at b s' e
      go (failed x, s1) q b s' e = cc
      go (panicked, s1) q b s' e = cc

  pub Yields-call :
      (m : Reply S A) {f : A → Io S B} {s : S}
      → ((a : A) (s1 : S) → m s ≡ (some a, s1) → Yields Q (f a) s1)
      → Yields Q (call m >>= f) s
  unfolding ◌>>=◌ call
  Yields-call m {f} {s} k = record { at = go (m s) refl }
    where
      go :
          (r : Option A × S)
          → m s ≡ r
          → (b : B) (s' : S) → continue (answer r) f ≡ (done b, s')
          → Q b s'
      go (some a, s1) q b s' e = (k a s1 q).at b s' e
      go (none, s1) q b s' e = cc

module _ {S B : Type 0} {Q : B → S → Type 0} where
  pub Yields-if :
      (c : Bool) {m n : Io S B} {s : S}
      → (c ≡ true → Yields Q m s)
      → (c ≡ false → Yields Q n s)
      → Yields Q (if c then m else n) s
  Yields-if true km kn = km refl
  Yields-if false km kn = kn refl

  pub Yields-pure : (b : B) {s : S} → Q b s → Yields Q (pure b) s
  unfolding pure
  Yields-pure b {s} h = record {
    at = λ a s' e.
        let p : b ≡ a = cc in let q : s ≡ s' = cc in subst (λ x. Q x s') p (subst (Q b) q h);
  }

  pub Yields-fail : (x : Error) {s : S} → Yields Q (fail x) s
  unfolding fail
  Yields-fail x = record { at = λ a s' e. cc }

  -- A guard let the computation pass.
  pub Yields-guard :
      (c : Bool) (x : Error) {m : Io S B} {s : S}
      → (c ≡ false → Yields Q m s)
      → Yields Q (if c then fail x else m) s
  Yields-guard c x k = Yields-if c (λ _. Yields-fail x) k

  pub Yields-sub :
      (a b : ℕ) (f : ℕ → Io S B) {s : S}
      → (b ≤ a → Yields Q (f (a - b)) s)
      → Yields Q (u32_sub a b >>= f) s
  unfolding ◌>>=◌ u32_sub panic
  Yields-sub a b f k = elim (dec_le b a) [
    | yes h ↦ rw (le→leb b a h) (record { at = (k h).at })
    | no h ↦ let l : leb b a ≡ false = ground arith in rw l (record { at = λ a s' e. cc })
  ]

module _ {S B : Type 0} {Q : B → S → Type 0} where
  pub Yields-run :
      (f : S → S) (g : Unit {0} → Io S B) {s : S} → Yields Q (g tt) (f s) → Yields Q (run f >>= g) s
  unfolding ◌>>=◌ run
  Yields-run f g h = record { at = h.at }

  -- The result is known.
  pub Yields-done : {m : Io S B} {s s' : S} {b : B} → m s ≡ (done b, s') → Q b s' → Yields Q m s
  Yields-done {m} {s} {s'} {b} e h = record { at = λ a s1 f. at_result a s1 (sym e ∙ f) }
    where
      at_result : (a : B) (s1 : S) → ◌≡◌ {A = Result B × S} (done b, s') (done a, s1) → Q a s1
      at_result a s1 q =
          let p : b ≡ a = cc in let r : s' ≡ s1 = cc in subst (λ x. Q x s1) p (subst (Q b) r h)

module _ {S B : Type 0} where
  pub run-step :
      (f : S → S) (g : Unit {0} → Io S B) {s : S} {r : Result B × S}
      → g tt (f s) ≡ r
      → (run f >>= g) s ≡ r
  unfolding ◌>>=◌ run
  run-step f g h = h

module _ {S A B : Type 0} where
  pub bind-step :
      (m : Io S A) (f : A → Io S B) {s s1 : S} {a : A} {r : Result B × S}
      → m s ≡ (done a, s1)
      → f a s1 ≡ r
      → (m >>= f) s ≡ r
  unfolding ◌>>=◌
  bind-step m f e h = rw e h

  pub panic-step :
      (m : Io S A) (f : A → Io S B) {s s1 : S} → m s ≡ (panicked, s1) → (m >>= f) s ≡ (panicked, s1)
  unfolding ◌>>=◌
  panic-step m f e = rw e refl

  pub call-step :
      (m : Reply S A) (f : A → Io S B) {s s1 : S} {a : A} {r : Result B × S}
      → m s ≡ (some a, s1)
      → f a s1 ≡ r
      → (call m >>= f) s ≡ r
  unfolding ◌>>=◌ call
  call-step m f e h = rw e h

module _ {S A : Type 0} where
  pub fail-step : (e : Error) (s : S) → fail {A = A} e s ≡ (failed e, s)
  unfolding fail
  fail-step e s = refl

  pub pure-step : {a : A} {s : S} → pure a s ≡ (done a, s)
  unfolding pure
  pure-step = refl

  -- A computation that never panics: it returns or gives an error.
  abbrev pub Unpanicked : Result A × S → Type 0
  Unpanicked (panicked, s) = ⊥
  Unpanicked (done a, s) = Unit
  Unpanicked (failed e, s) = Unit

  pub record IsSafe (m : Io S A) : Type 0 where
    pub at : (s : S) → Unpanicked (m s)

  pub IsSafe-pure : (a : A) → IsSafe (pure a)
  unfolding pure
  IsSafe-pure a = record { at = λ s. tt }

  pub IsSafe-fail : (e : Error) → IsSafe (fail e)
  unfolding fail
  IsSafe-fail e = record { at = λ s. tt }

  pub IsSafe-call : (f : Reply S A) → IsSafe (call f)
  unfolding call
  IsSafe-call f = record { at = λ s. go (f s) }
    where
      go : (r : Option A × S) → Unpanicked (answer r)
      go (none, s) = tt
      go (some a, s) = tt

  pub IsSafe-if :
      (c : Bool) {m n : Io S A}
      → (c ≡ true → IsSafe m)
      → (c ≡ false → IsSafe n)
      → IsSafe (if c then m else n)
  IsSafe-if true km kn = km refl
  IsSafe-if false km kn = kn refl

module _ {S A B : Type 0} where
  pub IsSafe-bind :
      {m : Io S A} {f : A → Io S B} → IsSafe m → ((a : A) → IsSafe (f a)) → IsSafe (m >>= f)
  unfolding ◌>>=◌
  IsSafe-bind {m} {f} h k = record { at = λ s. go (m s) (h.at s) }
    where
      go : (r : Result A × S) → Unpanicked r → Unpanicked (continue r f)
      go (done a, s) u = (k a).at s
      go (failed e, s) u = tt
      go (panicked, s) u = u

pub IsSafe-method : {S : Type 0} (f : S → S) → IsSafe (run f)
unfolding run
IsSafe-method f = record { at = λ s. tt }

module _ {S B : Type 0} where
  pub sub-step :
      (a b : ℕ) (f : ℕ → Io S B) {s : S} {r : Result B × S}
      → b ≤ a
      → f (a - b) s ≡ r
      → (u32_sub a b >>= f) s ≡ r
  unfolding ◌>>=◌ u32_sub
  sub-step a b f h g = rw (le→leb b a h) g

  pub IsSafe-run : (f : S → S) (g : Unit {0} → Io S B) → IsSafe (g tt) → IsSafe (run f >>= g)
  unfolding ◌>>=◌ run
  IsSafe-run f g h = record { at = λ s. h.at (f s) }

  pub IsSafe-sub-bind :
      {a b : ℕ} (f : ℕ → Io S B) → b ≤ a → IsSafe (f (a - b)) → IsSafe (u32_sub a b >>= f)
  unfolding ◌>>=◌ u32_sub
  IsSafe-sub-bind {a} {b} f le h = rw (le→leb b a le) (record { at = h.at })
