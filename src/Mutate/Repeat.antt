-- ===== src/Mutate/Repeat.antt =====
-- fuzzer/src/tokens/mutators/repeat.rs. The const parameter AMNT is an argument.
use exim_fuzzer.Base.{
  ℕ, ◌+◌, ◌-◌, ◌/◌, ◌≤◌, ◌<◌, ◌≡◌, refl, ◌∙◌, Bool, true, false, ◌&&◌, ◌||◌, some, ◌++◌, leb, ◌==◌,
  min, if◌then◌else◌, Bytes, length, take, drop, get_elem?, get_elem?-total, replicate,
  length-replicate, arith, le→leb,
}
use exim_fuzzer.Mutate.Common.{Outcome}
use exim_fuzzer.Mutate.Rewrite.{Rewritten}
use exim_fuzzer.Rand.{Rand}
use exim_fuzzer.Rand.Rules.{Ensures-between}
use exim_fuzzer.Run.{Run, pure, lift, ◌>>=◌, ◌>>◌, usize_sub, usize_div, debug_assert}
use exim_fuzzer.Run.Ensures.{
  Ensures, Ensures-pure, Ensures-if, Ensures-lift-bind, Ensures-sub-bind, Ensures-div-bind,
  Ensures-assert-then,
}
use exim_fuzzer.Token.{
  TextToken, constant, number, whitespace, text, TokenStream, bytes_of, with_data, is_constant,
  is_number, token_len, token_is_empty,
}
use exim_fuzzer.Vec.{range, splice, assign}
use exim_fuzzer.Vec.Laws.{splice-empty, inserted-Spliced, assign-set, set-Spliced, length-Spliced}

-- A token stands `count` more times in front of itself; `amount` sets how often.
pub record Repeated (amount : ℕ) (stream : TokenStream) (max_len : ℕ) (stream' : TokenStream)
    : Type 0 where
  pub token : TextToken
  pub here : ℕ
  pub at : get_elem? stream here ≡ some token
  pub count : ℕ
  pub count_is : count ≡ min (1 + amount / token_len token) (max_len - length stream)
  pub splice : stream' ≡ take here stream ++ (replicate count token ++ drop here stream)
  pub bound : length stream' ≤ max_len

-- A byte of the token, for a number not its first, stands once more and again, until the token has
-- `amount` bytes.
pub record Stretched (amount : ℕ) (old new : TextToken) : Type 0 where
  pub here : ℕ
  pub byte : ℕ
  pub at : get_elem? (bytes_of old) here ≡ some byte
  pub stretched :
      new
      ≡ with_data old (
          take here (bytes_of old)
          ++ (replicate (amount - token_len old) byte ++ drop here (bytes_of old)))
  pub reaches : token_len new ≡ amount
  pub not_constant : is_constant old ≡ false
  pub not_sign : is_number old ≡ true → 0 < here

module _ (R : Rand) where
  open R use {State, between}

  unfoldable pub mutate_repeat_token : ℕ → TokenStream → ℕ → Run State (Bool × TokenStream)
  mutate_repeat_token amount stream max_len =
      if length stream == 0 || leb max_len (length stream) then pure (false, stream) else do
        last ← usize_sub (length stream) 1
        idx ← between 0 last
        elem ← lift (get_elem? stream idx)
        if token_is_empty elem then pure (false, stream) else do
          times ← usize_div amount (token_len elem)
          room ← usize_sub max_len (length stream)
          let n = min (1 + times) room
          (stream', _) ← lift (splice stream (range idx idx) (replicate n elem))
          debug_assert (leb (length stream') max_len)
          pure (true, stream')

  unfoldable pub mutate_repeat_char : ℕ → TokenStream → Run State (Bool × TokenStream)
  mutate_repeat_char amount stream = if length stream == 0 then pure (false, stream) else do
    last ← usize_sub (length stream) 1
    pos ← between 0 last
    elem ← lift (get_elem? stream pos)
    if is_constant elem then pure (false, stream) else do
      let elem_len = token_len elem
      if elem_len == 0 || leb amount elem_len then pure (false, stream) else do
        n ← usize_sub amount elem_len
        hi ← usize_sub elem_len 1
        idx ← between 0 hi
        if idx == 0 && is_number elem then pure (false, stream) else do
          c ← lift (get_elem? (bytes_of elem) idx)
          (bytes, _) ← lift (splice (bytes_of elem) (range idx idx) (replicate n c))
          stream' ← lift (assign stream pos (with_data elem bytes))
          pure (true, stream')

  -- `mutate_repeat_token` never panics, and does not divide by zero. It repeats one token in front of
  -- itself as often as the amount asks for and the bound on the length allows, or returns false and
  -- leaves the stream alone.
  pub mutate_repeat_token_lem :
      (amount : ℕ) (stream : TokenStream) (max_len : ℕ)
      → Ensures
          (Outcome stream (Repeated amount stream max_len))
          (mutate_repeat_token amount stream max_len)
  unfolding mutate_repeat_token
  mutate_repeat_token_lem amount stream max_len =
      Ensures-if (length stream == 0 || leb max_len (length stream)) (λ _. Ensures-pure _ refl)
        λ go.
          let some_token : 0 < length stream = ground arith in
          let room : length stream < max_len = ground arith in
          Ensures-sub-bind _ some_token (
            Ensures-between R 0 (length stream - 1) (omega arith) λ idx hi.
              let (elem, e) = get_elem?-total stream idx (omega arith) in
              Ensures-lift-bind _ e (
                Ensures-if (token_is_empty elem) (λ _. Ensures-pure _ refl)
                  λ full. Ensures-div-bind amount _ (ground arith) (
                    Ensures-sub-bind _ (omega arith) (
                      let n = min (1 + amount / token_len elem) (max_len - length stream) in
                      let bound : length (take idx stream ++ (replicate n elem ++ drop idx stream))
                          ≤ max_len =
                        omega (
                          arith,
                          length-Spliced (inserted-Spliced stream idx (replicate n elem)),
                          length-replicate n elem,
                        ) in
                      Ensures-lift-bind _ (splice-empty stream idx (replicate n elem) (omega arith))
                        (Ensures-assert-then (le→leb _ _ bound) (
                          Ensures-pure _ (record {
                            token = elem;
                            here = idx;
                            at = e;
                            count = n;
                            count_is = refl;
                            splice = refl;
                            bound = bound;
                          })))))))

  token_len-with_data : (t : TextToken) (b : Bytes) → token_len (with_data t b) ≡ length b
  token_len-with_data (constant _) b = refl
  token_len-with_data (number _) b = refl
  token_len-with_data (whitespace _) b = refl
  token_len-with_data (text _) b = refl

  -- `mutate_repeat_char` never panics. It repeats one byte of one token that is no constant, and has
  -- fewer than `amount` bytes but at least one, until it has `amount`, and of a number never the
  -- first byte; or it returns false and leaves the stream alone.
  pub mutate_repeat_char_lem :
      (amount : ℕ) (stream : TokenStream)
      → Ensures
          (Outcome stream (Rewritten (Stretched amount) stream))
          (mutate_repeat_char amount stream)
  unfolding mutate_repeat_char
  mutate_repeat_char_lem amount stream =
      Ensures-if (length stream == 0) (λ _. Ensures-pure _ refl)
        λ go.
          let some_token : 0 < length stream = ground arith in
          Ensures-sub-bind _ some_token (
            Ensures-between R 0 (length stream - 1) (omega arith) λ pos hp.
              let (elem, e) = get_elem?-total stream pos (omega arith) in
              Ensures-lift-bind _ e (
                Ensures-if (is_constant elem) (λ _. Ensures-pure _ refl)
                  λ plain.
                    Ensures-if (token_len elem == 0 || leb amount (token_len elem))
                      (λ _. Ensures-pure _ refl)
                      λ fits.
                        let some_byte : 0 < token_len elem = ground arith in
                        let below : token_len elem < amount = ground arith in
                        Ensures-sub-bind _ (omega arith) (
                          Ensures-sub-bind _ some_byte (
                            Ensures-between R 0 (token_len elem - 1) (omega arith) λ idx hi.
                              Ensures-if (idx == 0 && is_number elem) (λ _. Ensures-pure _ refl)
                                λ safe.
                                  let bytes = bytes_of elem in
                                  let (c, f) = get_elem?-total bytes idx (omega arith) in
                                  let n = amount - token_len elem in
                                  let longer =
                                    take idx bytes ++ (replicate n c ++ drop idx bytes) in
                                  let len : length longer ≡ amount = omega (
                                    arith,
                                    length-Spliced (inserted-Spliced bytes idx (replicate n c)),
                                    length-replicate n c,
                                  ) in
                                  let new = with_data elem longer in
                                  Ensures-lift-bind _ f (
                                    Ensures-lift-bind _
                                      (splice-empty bytes idx (replicate n c) (omega arith))
                                      (Ensures-lift-bind _ (assign-set stream pos new (omega arith))
                                        (Ensures-pure _ (record {
                                          old = elem;
                                          new = new;
                                          splice = set-Spliced stream pos new e;
                                          change = record {
                                            here = idx;
                                            byte = c;
                                            at = f;
                                            stretched = refl;
                                            reaches = token_len-with_data elem longer ∙ len;
                                            not_constant = plain;
                                            not_sign = λ num. ground arith;
                                          };
                                        }))))))))
