-- ===== src/Run/Ensures.antt =====
-- Total correctness of a computation: from every state of the random source it returns, so it does
-- not panic, and its result satisfies a postcondition. One rule for each way to build it.
use exim_fuzzer.Base.{
  ℕ, ◌-◌, ◌/◌, ◌<◌, ◌==◌, arith, ◌≤◌, ◌≡◌, refl, Bool, true, false, Option, none, some, le→leb,
  if◌then◌else◌,
}
use exim_fuzzer.Run.{
  Run, pure, continue, lift, ◌>>=◌, ◌>>◌, usize_sub, usize_div, debug_assert, on_left, on_right,
  keep_left, keep_right,
}

abbrev pub Returns {ℓ} : {S A : Type ℓ} → (A → Type 0) → Option (A × S) → Type 0
Returns P none = ⊥
Returns P (some (a, s)) = P a

pub record Ensures {ℓ} {S A : Type ℓ} (P : A → Type 0) (m : Run S A) : Type ℓ where
  pub at : (s : S) → Returns P (m s)

module _ {ℓ} {S A : Type ℓ} {P : A → Type 0} where
  pub Ensures-pure : (a : A) → P a → Ensures {S = S} P (pure a)
  unfolding pure
  Ensures-pure a h = record { at = λ s. h }

  pub Ensures-if :
      (b : Bool) {m n : Run S A}
      → (b ≡ true → Ensures P m)
      → (b ≡ false → Ensures P n)
      → Ensures P (if b then m else n)
  Ensures-if true km kn = km refl
  Ensures-if false km kn = kn refl

  pub Ensures-lift : {o : Option A} (a : A) → o ≡ some a → P a → Ensures {S = S} P (lift o)
  unfolding lift
  Ensures-lift a e h = rw e (record { at = λ s. h })

  pub Ensures-weaken :
      {Q : A → Type 0} {m : Run S A} → Ensures Q m → ((a : A) → Q a → P a) → Ensures P m
  Ensures-weaken {Q} {m} e k = record { at = λ s. go (m s) (e.at s) }
    where
      go : (r : Option (A × S)) → Returns Q r → Returns P r
      go none h = h
      go (some (a, s)) h = k a h

  -- What it says of one state: the value, the state after it, and the postcondition.
  pub Ensures-result :
      {m : Run S A} → Ensures P m → (s : S) → (a : A) × (s' : S) × (m s ≡ some (a, s')) × P a
  Ensures-result {m} e s = go (m s) refl (e.at s)
    where
      go :
          (r : Option (A × S))
          → m s ≡ r
          → Returns P r
          → (a : A) × (s' : S) × (m s ≡ some (a, s')) × P a
      go none q h = absurd h
      go (some (a, s')) q h = (a, s', q, h)

module _ {ℓ} {S A B : Type ℓ} {Q : B → Type 0} where
  pub Ensures-bind :
      {P : A → Type 0} {m : Run S A} {f : A → Run S B}
      → Ensures P m
      → ((a : A) → P a → Ensures Q (f a))
      → Ensures Q (m >>= f)
  unfolding ◌>>=◌
  Ensures-bind {P} {m} {f} e k = record { at = λ s. go (m s) (e.at s) }
    where
      go : (r : Option (A × S)) → Returns P r → Returns Q (continue r f)
      go none h = h
      go (some (a, s)) h = (k a h).at s

  pub Ensures-lift-bind :
      {o : Option A} {a : A} (f : A → Run S B)
      → o ≡ some a
      → Ensures Q (f a)
      → Ensures Q (lift o >>= f)
  unfolding ◌>>=◌
  Ensures-lift-bind f e h = rw e (record { at = h.at })

module _ {S B : Type 0} {Q : B → Type 0} where
  pub Ensures-sub-bind :
      {a b : ℕ} (f : ℕ → Run S B) → b ≤ a → Ensures Q (f (a - b)) → Ensures Q (usize_sub a b >>= f)
  unfolding ◌>>=◌ usize_sub
  Ensures-sub-bind {a} {b} f le h = rw (le→leb b a le) (record { at = h.at })

  pub Ensures-assert-then :
      {b : Bool} {m : Run S B} → b ≡ true → Ensures Q m → Ensures Q (debug_assert b >> m)
  unfolding ◌>>=◌ debug_assert
  Ensures-assert-then e h = rw e (record { at = h.at })

  pub Ensures-div-bind :
      (a : ℕ) {b : ℕ} (f : ℕ → Run S B)
      → 0 < b
      → Ensures Q (f (a / b))
      → Ensures Q (usize_div a b >>= f)
  unfolding ◌>>=◌ usize_div
  Ensures-div-bind a {b} f pos h =
      let e : (b == 0) ≡ false = ground arith in rw e (record { at = h.at })

module _ {S T A : Type 0} {P : A → Type 0} where
  pub Ensures-on_left : {m : Run S A} → Ensures P m → Ensures {S = S × T} P (on_left m)
  unfolding on_left
  Ensures-on_left {m} h = record { at = λ st. kept (m st.0) st.1 (h.at st.0) }
    where
      kept : (r : Option (A × S)) (t : T) → Returns P r → Returns P (keep_right r t)
      kept none t h = h
      kept (some (a, s)) t h = h

  pub Ensures-on_right : {m : Run T A} → Ensures P m → Ensures {S = S × T} P (on_right m)
  unfolding on_right
  Ensures-on_right {m} h = record { at = λ st. kept st.0 (m st.1) (h.at st.1) }
    where
      kept : (s : S) (r : Option (A × T)) → Returns P r → Returns P (keep_left s r)
      kept s none h = h
      kept s (some (a, t)) h = h
