-- ===== src/Mutate/Split.antt =====
-- fuzzer/src/tokens/mutators/split.rs
use exim_fuzzer.Base.{
  ℕ, zero, suc, ◌+◌, ◌-◌, ◌≤◌, ◌<◌, ◌≡◌, refl, ap, Bool, true, false, ◌&&◌, ◌||◌, some, [], ◌∷◌,
  ◌++◌, leb, ltb, ◌==◌, if◌then◌else◌, Bytes, length, take, drop, set, get_elem?, get_elem?-total,
  length-set, arith, le→leb,
}
use exim_fuzzer.Mutate.Common.{Outcome}
use exim_fuzzer.Rand.{Rand}
use exim_fuzzer.Rand.Rules.{Ensures-between}
use exim_fuzzer.Run.{Run, pure, lift, ◌>>=◌, ◌>>◌, usize_sub, debug_assert}
use exim_fuzzer.Run.Ensures.{
  Ensures, Ensures-pure, Ensures-if, Ensures-bind, Ensures-lift-bind, Ensures-sub-bind,
  Ensures-assert-then,
}
use exim_fuzzer.Token.{
  TextToken, constant, number, whitespace, text, TokenStream, bytes_of, with_data, clone_nodata,
  is_constant, is_number, token_len,
}
use exim_fuzzer.Token.Random.Laws.{IsRandomToken}
use exim_fuzzer.Vec.{range, splice, assign}
use exim_fuzzer.Vec.Laws.{Spliced, splice-empty, assign-set, length-Spliced}
use exim_fuzzer.Mutate.Random.{random_token, random_token_lem}

-- A token is cut in two, and a random token stands between the parts.
pub record IsSplit (stream : TokenStream) (max_len : ℕ) (stream' : TokenStream) : Type 0 where
  pub old : TextToken
  pub pos : ℕ
  pub between : TextToken
  pub random : IsRandomToken 1 16 between
  pub inside : (0 < pos) × (pos < token_len old)
  pub not_constant : is_constant old ≡ false
  pub not_sign : is_number old ≡ true → 1 < pos
  pub splice :
      Spliced stream
        (old ∷ [])
        (with_data old (take pos (bytes_of old))
          ∷ between
          ∷ with_data old (drop pos (bytes_of old))
          ∷ [])
        stream'
  pub bound : length stream' ≤ max_len

-- The stream with its token at `idx` cut, after `split_off`, and two tokens behind it.
split-Spliced :
    (stream : TokenStream) (idx : ℕ) {old : TextToken} (left new right : TextToken)
    → get_elem? stream idx ≡ some old
    → Spliced stream (old ∷ []) (left ∷ new ∷ right ∷ []) (
        take (idx + 1) (set stream idx left)
        ++ (new ∷ right ∷ drop (idx + 1) (set stream idx left)))
split-Spliced [] idx left new right e = cc
split-Spliced (t ∷ stream) zero left new right e = record {
  before = [];
  after = stream;
  from = ground arith;
  to = refl;
}
split-Spliced (t ∷ stream) (suc idx) left new right e =
    let s = split-Spliced stream idx left new right e in
    let k : suc idx + 1 ≡ suc (idx + 1) = omega arith in
    rw k (record {
      before = t ∷ s.before;
      after = s.after;
      from = ap (◌∷◌ t) s.from;
      to = ap (◌∷◌ t) s.to;
    })

module _ (R : Rand) where
  open R use {State, between}

  -- `max_len.saturating_sub(stream.len())` is the subtraction of ℕ. `split_off` leaves the front of
  -- the token in place and returns the rest.
  unfoldable pub mutate_split : TokenStream → ℕ → Run State (Bool × TokenStream)
  unfolding random_token
  mutate_split stream max_len =
      if length stream == 0 || ltb (max_len - length stream) 2 then pure (false, stream) else do
        last ← usize_sub (length stream) 1
        idx ← between 0 last
        token ← lift (get_elem? stream idx)
        if leb (token_len token) 1 || is_constant token then pure (false, stream) else do
          hi ← usize_sub (token_len token) 2
          n ← between 0 hi
          let pos = 1 + n
          if is_number token && pos == 1 then pure (false, stream) else do
            let split_elem = with_data (clone_nodata token) (drop pos (bytes_of token))
            cut ← lift (assign stream idx (with_data token (take pos (bytes_of token))))
            new_elem ← random_token R 3
            (stream', _) ←
                lift (splice cut (range (idx + 1) (idx + 1)) (new_elem ∷ split_elem ∷ []))
            debug_assert (leb (length stream') max_len)
            pure (true, stream')

  with_data-clone_nodata :
      (t : TextToken) (b : Bytes) → with_data (clone_nodata t) b ≡ with_data t b
  with_data-clone_nodata (constant _) b = refl
  with_data-clone_nodata (number _) b = refl
  with_data-clone_nodata (whitespace _) b = refl
  with_data-clone_nodata (text _) b = refl

  module _ (stream : TokenStream) (max_len : ℕ) (room : length stream + 2 ≤ max_len) (idx : ℕ)
      (token : TextToken) (lt : idx < length stream) (e : get_elem? stream idx ≡ some token) where
    cut_at :
        (pos : ℕ)
        → (0 < pos) × (pos < token_len token)
        → is_constant token ≡ false
        → (is_number token && pos == 1) ≡ false
        → Ensures (Outcome stream (IsSplit stream max_len)) (
            lift (assign stream idx (with_data token (take pos (bytes_of token)))) >>= λ cut.
            random_token R 3 >>= λ new_elem.
            lift (
              splice cut
                (range (idx + 1) (idx + 1))
                (new_elem ∷ with_data (clone_nodata token) (drop pos (bytes_of token)) ∷ []))
            >>= λ r. debug_assert (leb (length r.0) max_len) >> pure (true, r.0))
    cut_at pos inside plain unsigned =
        let left = with_data token (take pos (bytes_of token)) in
        let right = with_data token (drop pos (bytes_of token)) in
        let cut = set stream idx left in
        rw with_data-clone_nodata (
          Ensures-lift-bind _ (assign-set stream idx left lt) (
            Ensures-bind (random_token_lem R 3) λ new h.
              let sp = split-Spliced stream idx left new right e in
              let bound : length (take (idx + 1) cut ++ (new ∷ right ∷ drop (idx + 1) cut))
                  ≤ max_len =
                omega (arith, length-Spliced sp) in
              Ensures-lift-bind _
                (splice-empty cut (idx + 1) (new ∷ right ∷ [])
                  (omega (arith, length-set stream idx left)))
                (Ensures-assert-then (le→leb _ _ bound) (
                  Ensures-pure _ (record {
                    old = token;
                    pos = pos;
                    between = new;
                    random = h;
                    inside = inside;
                    not_constant = plain;
                    not_sign = λ num. ground arith;
                    splice = sp;
                    bound = bound;
                  })))))

  -- `mutate_split` never panics. It cuts one token that is no constant in two non-empty parts, a
  -- number never behind its first byte, and puts a random token between them, within the bound on
  -- the length, or returns false and leaves the stream alone.
  pub mutate_split_lem :
      (stream : TokenStream) (max_len : ℕ)
      → Ensures (Outcome stream (IsSplit stream max_len)) (mutate_split stream max_len)
  unfolding mutate_split
  mutate_split_lem stream max_len =
      Ensures-if (length stream == 0 || ltb (max_len - length stream) 2) (λ _. Ensures-pure _ refl)
        λ go.
          let some_token : 0 < length stream = ground arith in
          let room : length stream + 2 ≤ max_len = ground arith in
          Ensures-sub-bind _ some_token (
            Ensures-between R 0 (length stream - 1) (omega arith) λ idx hi.
              let (token, e) = get_elem?-total stream idx (omega arith) in
              Ensures-lift-bind _ e (
                Ensures-if (leb (token_len token) 1 || is_constant token) (λ _. Ensures-pure _ refl)
                  λ long.
                    let two : 2 ≤ token_len token = ground arith in
                    let plain : is_constant token ≡ false = ground arith in
                    Ensures-sub-bind _ two (
                      Ensures-between R 0 (token_len token - 2) (omega arith) λ n hn.
                        Ensures-if (is_number token && 1 + n == 1) (λ _. Ensures-pure _ refl)
                          λ unsigned.
                            cut_at stream max_len room idx token (omega arith) e (1 + n)
                              (omega arith) plain unsigned)))
