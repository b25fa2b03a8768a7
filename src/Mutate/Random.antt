-- ===== src/Mutate/Random.antt =====
-- fuzzer/src/tokens/mutators/random.rs, with the choice of a random token that split.rs makes too
use exim_fuzzer.Base.{
  ℕ, ◌-◌, ◌≤◌, ◌<◌, refl, sym, ap, Bool, true, false, not, [], ◌∷◌, ◌++◌, leb, ◌==◌, if◌then◌else◌,
  length, take, drop, get_elem?-total, arith, le→leb,
}
use exim_fuzzer.Mutate.Common.{Decided}
use exim_fuzzer.Mutate.Rewrite.{Rewritten}
use exim_fuzzer.Rand.{Rand}
use exim_fuzzer.Rand.Rules.{Ensures-between}
use exim_fuzzer.Run.{Run, pure, panic, lift, ◌>>=◌, ◌>>◌, usize_sub, debug_assert}
use exim_fuzzer.Run.Ensures.{
  Ensures, Ensures-pure, Ensures-if, Ensures-bind, Ensures-lift-bind, Ensures-sub-bind,
  Ensures-assert-then, Ensures-weaken,
}
use exim_fuzzer.Token.{TextToken, TokenStream}
use exim_fuzzer.Token.Random.{random_number, random_whitespace, random_text}
use exim_fuzzer.Token.Random.Laws.{
  IsRandomToken, random_number_lem, random_whitespace_lem, random_text_lem,
}
use exim_fuzzer.Vec.{insert, assign}
use exim_fuzzer.Vec.Laws.{
  Spliced, inserted-Spliced, insert-inserted, assign-set, set-Spliced, length-Spliced,
}

module _ (R : Rand) where
  open R use {State, between}

  -- The `match` on `rand.between(0, last)`: `last` is 4 in random.rs and 3 in split.rs.
  unfoldable pub random_token : ℕ → Run State TextToken
  random_token last = do
    k ← between 0 last
    if k == 0
        then random_number R 16
        else if k == 1
        then random_whitespace R 1 16
        else if leb k last
        then random_text R 1 16
        else panic

  unfoldable pub mutate_random_insert : TokenStream → ℕ → Run State (Bool × TokenStream)
  unfolding random_token
  mutate_random_insert stream max_len =
      if leb max_len (length stream) then pure (false, stream) else do
        idx ← between 0 (length stream)
        new_elem ← random_token 4
        stream' ← lift (insert stream idx new_elem)
        debug_assert (leb (length stream') max_len)
        pure (true, stream')

  unfoldable pub mutate_random_replace : TokenStream → Run State (Bool × TokenStream)
  unfolding random_token
  mutate_random_replace stream = if length stream == 0 then pure (false, stream) else do
    last ← usize_sub (length stream) 1
    idx ← between 0 last
    new_elem ← random_token 4
    stream' ← lift (assign stream idx new_elem)
    pure (true, stream')

  -- The `unreachable!` is not reached, and the token is well-formed, of one to sixteen bytes.
  pub random_token_lem : (last : ℕ) → Ensures (IsRandomToken 1 16) (random_token last)
  unfolding random_token
  random_token_lem last = Ensures-between R 0 last (omega arith) λ k hk.
      Ensures-if (k == 0)
        (λ _. Ensures-weaken (random_number_lem R 16 (omega arith)) λ t h. record {
          well_formed = h.well_formed;
          at_least = omega (arith, h.at_least);
          at_most = h.at_most;
          not_constant = h.not_constant;
        })
        λ _.
          Ensures-if (k == 1) (λ _. random_whitespace_lem R 1 16 (omega arith) (omega arith))
            λ _.
              Ensures-if (leb k last) (λ _. random_text_lem R 1 16 (omega arith) (omega arith))
                λ far. absurd (ground arith)

  -- A random token stands at some place of the stream, which is not too long.
  pub record Inserted (stream : TokenStream) (max_len : ℕ) (stream' : TokenStream) : Type 0 where
    pub new : TextToken
    pub random : IsRandomToken 1 16 new
    pub splice : Spliced stream [] (new ∷ []) stream'
    pub bound : length stream' ≤ max_len

  -- `mutate_random_insert` never panics. On a stream shorter than the bound it returns true and
  -- inserts one well-formed token of one to sixteen bytes, within the bound; on any other it
  -- returns false and leaves the stream alone.
  pub mutate_random_insert_lem :
      (stream : TokenStream) (max_len : ℕ)
      → Ensures
          (Decided (not (leb max_len (length stream))) stream (Inserted stream max_len))
          (mutate_random_insert stream max_len)
  unfolding mutate_random_insert
  mutate_random_insert_lem stream max_len =
      Ensures-if (leb max_len (length stream)) (λ no. Ensures-pure _ (ap not (sym no), refl))
        λ go.
          let room : length stream < max_len = ground arith in
          Ensures-between R 0 (length stream) (omega arith) λ idx hi.
            Ensures-bind (random_token_lem 4) λ new h.
              let splice = inserted-Spliced stream idx (new ∷ []) in
              let bound : length (take idx stream ++ (new ∷ drop idx stream)) ≤ max_len =
                omega (arith, length-Spliced splice) in
              Ensures-lift-bind _ (insert-inserted stream idx new hi.1) (
                Ensures-assert-then (le→leb _ _ bound) (
                  Ensures-pure _ (
                    ap not (sym go),
                    record { new = new; random = h; splice = splice; bound = bound },
                  )))

  -- `mutate_random_replace` never panics. On a stream that is not empty it returns true and
  -- replaces one token by a well-formed token of one to sixteen bytes; on the empty one it returns
  -- false and leaves it alone.
  pub mutate_random_replace_lem :
      (stream : TokenStream)
      → Ensures
          (Decided
            (not (length stream == 0))
            stream
            (Rewritten (λ _ new. IsRandomToken 1 16 new) stream))
          (mutate_random_replace stream)
  unfolding mutate_random_replace
  mutate_random_replace_lem stream =
      Ensures-if (length stream == 0) (λ no. Ensures-pure _ (ap not (sym no), refl))
        λ go.
          let some_token : 0 < length stream = ground arith in
          Ensures-sub-bind _ some_token (
            Ensures-between R 0 (length stream - 1) (omega arith) λ idx hi.
              Ensures-bind (random_token_lem 4) λ new h.
                let (old, e) = get_elem?-total stream idx (omega arith) in
                Ensures-lift-bind _ (assign-set stream idx new (omega arith)) (
                  Ensures-pure _ (
                    ap not (sym go),
                    record {
                      old = old;
                      new = new;
                      splice = set-Spliced stream idx new e;
                      change = h;
                    },
                  )))
