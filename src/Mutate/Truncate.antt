-- ===== src/Mutate/Truncate.antt =====
-- fuzzer/src/tokens/mutators/truncate.rs
use exim_fuzzer.Base.{
  ℕ, zero, suc, ◌+◌, ◌-◌, ◌≤◌, ◌<◌, ◌≡◌, refl, inl, inr, Bool, true, false, ◌&&◌, ◌||◌, some, [],
  ◌∷◌, ltb, ◌==◌, if◌then◌else◌, Bytes, length, take, get_elem?, get_elem?-total, length-take,
  arith,
}
use exim_fuzzer.Mutate.Common.{Outcome}
use exim_fuzzer.Mutate.Rewrite.{Rewritten}
use exim_fuzzer.Rand.{Rand}
use exim_fuzzer.Rand.Rules.{Ensures-between}
use exim_fuzzer.Run.{Run, pure, lift, ◌>>=◌, usize_sub}
use exim_fuzzer.Run.Ensures.{Ensures, Ensures-pure, Ensures-if, Ensures-lift-bind, Ensures-sub-bind}
use exim_fuzzer.Token.{
  TextToken, constant, number, whitespace, text, TokenStream, bytes_of, with_data, is_constant,
  is_number, token_len, first_is_sign, sign_byte, digit_byte,
}
use exim_fuzzer.Token.WellFormed.{All-take, IsNumber, IsWellFormed}
use exim_fuzzer.Vec.{assign}
use exim_fuzzer.Vec.Laws.{assign-set, set-Spliced}

-- A token is cut to a non-empty, proper prefix, and stays well-formed.
pub record Truncated (old new : TextToken) : Type 0 where
  pub kept : ℕ
  pub not_empty : 0 < kept
  pub shorter : kept < token_len old
  pub cut : new ≡ with_data old (take kept (bytes_of old))
  pub not_constant : is_constant old ≡ false
  pub well_formed : IsWellFormed old → IsWellFormed new

truncate-IsNumber :
    (n : ℕ) (b : Bytes)
    → 0 < n
    → (n == 1 && first_is_sign b) ≡ false
    → IsNumber b
    → IsNumber (take n b)
unfolding first_is_sign sign_byte digit_byte
truncate-IsNumber zero b pos safe h = absurd (omega arith)
truncate-IsNumber (suc n) [] pos safe h = absurd h
truncate-IsNumber (suc zero) (b ∷ bs) pos safe h = ground arith
truncate-IsNumber (suc (suc n)) (b ∷ []) pos safe h = h
truncate-IsNumber (suc (suc n)) (b ∷ c ∷ bs) pos safe (inl h) =
    inl (h.0, (h.1.0, All-take _ n bs h.1.1))
truncate-IsNumber (suc (suc n)) (b ∷ c ∷ bs) pos safe (inr h) =
    inr (h.0, omega arith, (h.2.0, All-take _ n bs h.2.1))

truncate-IsWellFormed :
    (t : TextToken) (n : ℕ)
    → 0 < n
    → n < token_len t
    → (n == 1 && is_number t && first_is_sign (bytes_of t)) ≡ false
    → IsWellFormed t
    → IsWellFormed (with_data t (take n (bytes_of t)))
truncate-IsWellFormed (constant b) n pos fits safe w = tt
truncate-IsWellFormed (number b) n pos fits safe w = truncate-IsNumber n b pos (ground arith) w
truncate-IsWellFormed (whitespace b) n pos fits safe w =
    (omega (arith, length-take n b), All-take _ n b w.1)
truncate-IsWellFormed (text b) n pos fits safe w =
    (omega (arith, length-take n b), All-take _ n b w.1)

module _ (R : Rand) where
  open R use {State, between}

  unfoldable pub mutate_truncate : TokenStream → Run State (Bool × TokenStream)
  mutate_truncate stream = if length stream == 0 then pure (false, stream) else do
    last ← usize_sub (length stream) 1
    idx ← between 0 last
    elem ← lift (get_elem? stream idx)
    if is_constant elem || ltb (token_len elem) 2 then pure (false, stream) else do
      hi ← usize_sub (token_len elem) 2
      n ← between 0 hi
      let new_len = 1 + n
      if new_len == 1 && is_number elem && first_is_sign (bytes_of elem)
          then pure (false, stream)
          else do
            stream' ← lift (assign stream idx (with_data elem (take new_len (bytes_of elem))))
            pure (true, stream')

  -- `mutate_truncate` never panics. It cuts one token that is no constant to a non-empty proper
  -- prefix, which is well-formed if the token is, or returns false and leaves the stream alone.
  pub mutate_truncate_lem :
      (stream : TokenStream)
      → Ensures (Outcome stream (Rewritten Truncated stream)) (mutate_truncate stream)
  unfolding mutate_truncate
  mutate_truncate_lem stream =
      Ensures-if (length stream == 0) (λ _. Ensures-pure _ refl)
        λ go.
          let some_token : 0 < length stream = ground arith in
          Ensures-sub-bind _ some_token (
            Ensures-between R 0 (length stream - 1) (omega arith) λ idx hi.
              let (elem, e) = get_elem?-total stream idx (omega arith) in
              Ensures-lift-bind _ e (cut idx elem (omega arith) e))
    where
      cut :
          (idx : ℕ) (elem : TextToken)
          → idx < length stream
          → get_elem? stream idx ≡ some elem
          → Ensures (Outcome stream (Rewritten Truncated stream)) (
              if is_constant elem || ltb (token_len elem) 2
              then pure (false, stream)
              else usize_sub (token_len elem) 2 >>= λ hi. between 0 hi >>= λ n.
                  if 1 + n == 1 && is_number elem && first_is_sign (bytes_of elem)
                  then pure (false, stream)
                  else (lift (assign stream idx (with_data elem (take (1 + n) (bytes_of elem))))
                      >>= λ stream'. pure (true, stream')))
      cut idx elem lt e =
          Ensures-if (is_constant elem || ltb (token_len elem) 2) (λ _. Ensures-pure _ refl)
            λ long.
              let two : 2 ≤ token_len elem = ground arith in
              Ensures-sub-bind _ two (
                Ensures-between R 0 (token_len elem - 2) (omega arith) λ n hn.
                  Ensures-if (1 + n == 1 && is_number elem && first_is_sign (bytes_of elem))
                    (λ _. Ensures-pure _ refl)
                    λ safe.
                      let new = with_data elem (take (1 + n) (bytes_of elem)) in
                      Ensures-lift-bind _ (assign-set stream idx new lt) (
                        Ensures-pure _ (record {
                          old = elem;
                          new = new;
                          splice = set-Spliced stream idx new e;
                          change = record {
                            kept = 1 + n;
                            not_empty = omega arith;
                            shorter = omega arith;
                            cut = refl;
                            not_constant = ground arith;
                            well_formed =
                                truncate-IsWellFormed elem (1 + n) (omega arith) (omega arith) safe;
                          };
                        })))
