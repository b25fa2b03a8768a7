-- ===== src/Mutate/Crossover.antt =====
-- fuzzer/src/tokens/mutators/crossover.rs
use exim_fuzzer.Base.{
  ℕ, ◌+◌, ◌-◌, ◌≤◌, ◌<◌, refl, sym, ap, Bool, true, false, not, ◌||◌, List, [], ◌++◌, leb, ◌==◌,
  if◌then◌else◌, length, take, drop, arith, le→leb,
}
use exim_fuzzer.Mutate.Common.{random_range, random_range_lem, Decided}
use exim_fuzzer.Rand.{Rand}
use exim_fuzzer.Rand.Rules.{Ensures-between}
use exim_fuzzer.Run.{Run, pure, lift, ◌>>=◌, ◌>>◌, usize_sub, debug_assert}
use exim_fuzzer.Run.Ensures.{
  Ensures, Ensures-pure, Ensures-if, Ensures-bind, Ensures-lift-bind, Ensures-sub-bind,
  Ensures-assert-then,
}
use exim_fuzzer.Token.{TextToken, TokenStream}
use exim_fuzzer.Vec.{range, slice, splice}
use exim_fuzzer.Vec.Laws.{
  Spliced, Segment, part, spliced, length-part, slice-part, part-Segment, splice-spliced,
  spliced-Spliced, splice-empty, inserted-Spliced, length-Spliced,
}

-- A part of the other stream stands in place of the part `old` of the stream.
pub record Crossed (stream other old : TokenStream) (max_len : ℕ) (stream' : TokenStream)
    : Type 0 where
  pub new : List TextToken
  pub from : Segment other new
  pub to : Spliced stream old new stream'
  pub bound : length stream' ≤ max_len

-- The part that is replaced is not empty.
pub record Replaced (stream other : TokenStream) (max_len : ℕ) (stream' : TokenStream)
    : Type 0 where
  pub old : List TextToken
  pub not_empty : 0 < length old
  pub crossed : Crossed stream other old max_len stream'

module _ (R : Rand) where
  open R use {State, between}

  unfoldable pub mutate_crossover_replace :
      TokenStream → TokenStream → ℕ → Run State (Bool × TokenStream)
  mutate_crossover_replace stream other max_len =
      if length stream == 0 || length other == 0 || leb max_len (length stream)
      then pure (false, stream)
      else do
        dst_range ← random_range R (length stream) (length stream)
        room ← usize_sub max_len (length stream)
        most ← usize_sub (room + dst_range.end) dst_range.start
        src_range ← random_range R (length other) most
        new ← lift (slice other src_range)
        (stream', _) ← lift (splice stream dst_range new)
        debug_assert (leb (length stream') max_len)
        pure (true, stream')

  unfoldable pub mutate_crossover_insert :
      TokenStream → TokenStream → ℕ → Run State (Bool × TokenStream)
  mutate_crossover_insert stream other max_len =
      if length stream == 0 || length other == 0 || leb max_len (length stream)
      then pure (false, stream)
      else do
        dst_index ← between 0 (length stream)
        room ← usize_sub max_len (length stream)
        src_range ← random_range R (length other) room
        new ← lift (slice other src_range)
        (stream', _) ← lift (splice stream (range dst_index dst_index) new)
        debug_assert (leb (length stream') max_len)
        pure (true, stream')

  module _ (stream other : TokenStream) (max_len : ℕ) where
    -- `mutate_crossover_replace` never panics. Where neither stream is empty and the first is
    -- shorter than the bound, it returns true and puts a non-empty part of the other stream in
    -- place of a non-empty part of the first, within the bound; else it returns false and leaves
    -- the stream alone.
    pub mutate_crossover_replace_lem :
        Ensures
          (Decided
            (not (length stream == 0 || length other == 0 || leb max_len (length stream)))
            stream
            (Replaced stream other max_len))
          (mutate_crossover_replace stream other max_len)
    unfolding mutate_crossover_replace
    mutate_crossover_replace_lem =
        Ensures-if (length stream == 0 || length other == 0 || leb max_len (length stream))
          (λ no. Ensures-pure _ (ap not (sym no), refl))
          λ go.
            let some_token : 0 < length stream = ground arith in
            let some_other : 0 < length other = ground arith in
            let room : length stream < max_len = ground arith in
            Ensures-bind (random_range_lem R (length stream) (length stream) some_token some_token)
              λ dst hd. Ensures-sub-bind _ (omega arith) (
                Ensures-sub-bind _ (omega arith) (
                  Ensures-bind
                    (random_range_lem R (length other)
                      (max_len - length stream + dst.end - dst.start) some_other (omega arith))
                    λ src hs.
                      let new = part other src in
                      let to = spliced-Spliced stream dst (omega arith) hd.1 new in
                      let bound : length (spliced stream dst (omega arith) hd.1 new) ≤ max_len =
                        omega (
                          arith,
                          length-Spliced to,
                          length-part other src hs.1,
                          length-part stream dst hd.1,
                        ) in
                      Ensures-lift-bind _ (slice-part other src (omega arith) hs.1) (
                        Ensures-lift-bind _ (splice-spliced stream dst (omega arith) hd.1 new) (
                          Ensures-assert-then (le→leb _ _ bound) (
                            Ensures-pure _ (
                              ap not (sym go),
                              record {
                                old = part stream dst;
                                not_empty = omega (arith, length-part stream dst hd.1);
                                crossed = record {
                                  new = new;
                                  from = part-Segment other src (omega arith) hs.1 hs.0;
                                  to = to;
                                  bound = bound;
                                };
                              },
                            ))))))

    -- `mutate_crossover_insert` never panics. Where neither stream is empty and the first is
    -- shorter than the bound, it returns true and inserts a non-empty part of the other stream
    -- into the first, within the bound; else it returns false and leaves the stream alone.
    pub mutate_crossover_insert_lem :
        Ensures
          (Decided
            (not (length stream == 0 || length other == 0 || leb max_len (length stream)))
            stream
            (Crossed stream other [] max_len))
          (mutate_crossover_insert stream other max_len)
    unfolding mutate_crossover_insert
    mutate_crossover_insert_lem =
        Ensures-if (length stream == 0 || length other == 0 || leb max_len (length stream))
          (λ no. Ensures-pure _ (ap not (sym no), refl))
          λ go.
            let some_other : 0 < length other = ground arith in
            let room : length stream < max_len = ground arith in
            Ensures-between R 0 (length stream) (omega arith) λ dst hd.
              Ensures-sub-bind _ (omega arith) (
                Ensures-bind
                  (random_range_lem R (length other) (max_len - length stream) some_other
                    (omega arith))
                  λ src hs.
                    let new = part other src in
                    let to = inserted-Spliced stream dst new in
                    let bound : length (take dst stream ++ (new ++ drop dst stream)) ≤ max_len =
                      omega (arith, length-Spliced to, length-part other src hs.1) in
                    Ensures-lift-bind _ (slice-part other src (omega arith) hs.1) (
                      Ensures-lift-bind _ (splice-empty stream dst new hd.1) (
                        Ensures-assert-then (le→leb _ _ bound) (
                          Ensures-pure _ (
                            ap not (sym go),
                            record {
                              new = new;
                              from = part-Segment other src (omega arith) hs.1 hs.0;
                              to = to;
                              bound = bound;
                            },
                          )))))
