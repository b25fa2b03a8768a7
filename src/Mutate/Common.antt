-- ===== src/Mutate/Common.antt =====
-- fuzzer/src/tokens/mutators/common.rs, and the form in which the results of mutators are stated.
use exim_fuzzer.Base.{
  ℕ, ◌+◌, ◌-◌, ◌≤◌, ◌<◌, ◌≡◌, refl, sym, ap, ◌∙◌, Bool, true, false, Option, some, [], ◌++◌, min,
  arith, leb, ltb, length, Bytes, take, replicate, lt→ltb, le→leb, append-nil, length-append,
  length-take, length-replicate,
}
use exim_fuzzer.Buffer.{copy_into}
use exim_fuzzer.Buffer.Laws.{copy_into-append}
use exim_fuzzer.Rand.{Rand}
use exim_fuzzer.Rand.Rules.{Ensures-between}
use exim_fuzzer.Run.{Run, pure, ◌>>=◌, ◌>>◌, usize_sub, debug_assert}
use exim_fuzzer.Run.Ensures.{Ensures, Ensures-pure, Ensures-sub-bind, Ensures-assert-then}
use exim_fuzzer.Token.{TokenStream}
use exim_fuzzer.Vec.{Range, range}

module _ (R : Rand) where
  open R use {State, between}

  unfoldable pub random_range : ℕ → ℕ → Run State Range
  random_range limit max_size = do
    debug_assert (ltb 0 limit)
    debug_assert (ltb 0 max_size)
    last ← usize_sub limit 1
    start ← between 0 last
    left ← usize_sub limit start
    let rem_len = min left max_size
    more ← usize_sub rem_len 1
    n ← between 0 more
    let len = 1 + n
    debug_assert (leb len max_size)
    pure (range start (start + len))

  -- The range is not empty, within the limit, and no longer than `max_size`.
  abbrev pub Within : ℕ → ℕ → Range → Type 0
  Within limit max_size r = (r.start < r.end) × (r.end ≤ limit) × (r.end - r.start ≤ max_size)

  -- For a limit and a largest size above 0, `random_range` never panics, and its range is not
  -- empty, within the limit, and no longer than the largest size.
  pub random_range_lem :
      (limit max_size : ℕ)
      → 0 < limit
      → 0 < max_size
      → Ensures (Within limit max_size) (random_range limit max_size)
  unfolding random_range
  random_range_lem limit max_size h k = Ensures-assert-then (lt→ltb 0 limit h) (
      Ensures-assert-then (lt→ltb 0 max_size k) (
        Ensures-sub-bind _ (omega arith) (
          Ensures-between R 0 (limit - 1) (omega arith) λ start hs.
            Ensures-sub-bind _ (omega arith) (
              Ensures-sub-bind _ (omega arith) (
                Ensures-between R 0 (min (limit - start) max_size - 1) (omega arith) λ n hn.
                  Ensures-assert-then (le→leb (1 + n) max_size (omega arith))
                    (Ensures-pure _ (omega arith)))))))

-- `to.resize(n, T::default())`
abbrev pub resize : Bytes → ℕ → Bytes
resize to n = take n to ++ replicate (n - length to) 0

unfoldable pub copy_vec : Bytes → Bytes → Option Bytes
copy_vec to from = copy_into (resize to (length from)) (range 0 (length from)) from

-- `copy_vec` makes the vector a copy of the slice.
pub copy_vec_lem : (to from : Bytes) → copy_vec to from ≡ some from
unfolding copy_vec
copy_vec_lem to from =
    let old = resize to (length from) in
    let len : length old ≡ length from = omega (
      arith,
      length-append (take (length from) to) (replicate (length from - length to) 0),
      length-take (length from) to,
      length-replicate {A = ℕ} (length from - length to) 0,
    ) in
    ap (λ b. copy_into b (range 0 (length from)) from) (sym (append-nil old))
    ∙ copy_into-append [] old from [] 0 (length from) len refl (omega arith)
    ∙ ap some (append-nil from)

-- The result of a mutator: `false` with the stream as it was, or `true` and a new stream of which
-- `Q` holds.
abbrev pub Outcome : TokenStream → (TokenStream → Type 0) → Bool × TokenStream → Type 0
Outcome stream Q (false, stream') = stream' ≡ stream
Outcome stream Q (true, stream') = Q stream'

-- The result of a mutator that returns true exactly if `acts`.
abbrev pub Decided : Bool → TokenStream → (TokenStream → Type 0) → Bool × TokenStream → Type 0
Decided acts stream Q (b, stream') = (b ≡ acts) × Outcome stream Q (b, stream')
