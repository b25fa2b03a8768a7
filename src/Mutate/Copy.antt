-- ===== src/Mutate/Copy.antt =====
-- fuzzer/src/tokens/mutators/copy.rs
use exim_fuzzer.Base.{
  ap, not, ℕ, ◌-◌, ◌≤◌, ◌<◌, refl, sym, Bool, true, false, ◌||◌, List, [], leb, ◌==◌, if◌then◌else◌,
  length, take, drop, arith, le→leb, ◌++◌,
}
use exim_fuzzer.Mutate.Common.{random_range, random_range_lem, Decided}
use exim_fuzzer.Rand.{Rand}
use exim_fuzzer.Rand.Rules.{Ensures-between}
use exim_fuzzer.Run.{Run, pure, lift, ◌>>=◌, ◌>>◌, usize_sub, debug_assert}
use exim_fuzzer.Run.Ensures.{
  Ensures, Ensures-pure, Ensures-if, Ensures-bind, Ensures-lift-bind, Ensures-sub-bind,
  Ensures-assert-then,
}
use exim_fuzzer.Token.{TextToken, TokenStream}
use exim_fuzzer.Vec.{range, slice, splice}
use exim_fuzzer.Vec.Laws.{
  Spliced, Segment, part, slice-part, part-Segment, splice-empty, inserted-Spliced, length-Spliced,
  length-part,
}

-- A part of the stream stands once more somewhere in it, and the stream is not too long.
pub record Copied (stream : TokenStream) (max_len : ℕ) (stream' : TokenStream) : Type 0 where
  pub copy : List TextToken
  pub from : Segment stream copy
  pub to : Spliced stream [] copy stream'
  pub bound : length stream' ≤ max_len

module _ (R : Rand) where
  open R use {State, between}

  unfoldable pub mutate_copy : TokenStream → ℕ → Run State (Bool × TokenStream)
  mutate_copy stream max_len =
      if length stream == 0 || leb max_len (length stream) then pure (false, stream) else do
        room ← usize_sub max_len (length stream)
        r ← random_range R (length stream) room
        new_elems ← lift (slice stream r)
        idx ← between 0 (length stream)
        (stream', _) ← lift (splice stream (range idx idx) new_elems)
        debug_assert (leb (length stream') max_len)
        pure (true, stream')

  -- `mutate_copy` never panics. On a stream that is not empty and shorter than the bound it
  -- returns true and inserts a copy of a non-empty part of the stream, within the bound; on any
  -- other it returns false and leaves the stream alone.
  pub mutate_copy_lem :
      (stream : TokenStream) (max_len : ℕ)
      → Ensures
          (Decided
            (not (length stream == 0 || leb max_len (length stream)))
            stream
            (Copied stream max_len))
          (mutate_copy stream max_len)
  unfolding mutate_copy
  mutate_copy_lem stream max_len =
      Ensures-if (length stream == 0 || leb max_len (length stream))
        (λ no. Ensures-pure _ (ap not (sym no), refl))
        λ go.
          let some_token : 0 < length stream = ground arith in
          let room : length stream < max_len = ground arith in
          Ensures-sub-bind _ (omega arith) (
            Ensures-bind
              (random_range_lem R (length stream) (max_len - length stream) some_token
                (omega arith))
              λ r h. Ensures-lift-bind _ (slice-part stream r (omega arith) h.1) (
                Ensures-between R 0 (length stream) (omega arith) λ idx hi.
                  Ensures-lift-bind _ (splice-empty stream idx (part stream r) hi.1) (
                    let to = inserted-Spliced stream idx (part stream r) in
                    let bound : length (take idx stream ++ (part stream r ++ drop idx stream))
                        ≤ max_len =
                      omega (arith, length-Spliced to, length-part stream r h.1) in
                    Ensures-assert-then (le→leb _ _ bound) (
                      Ensures-pure _ (
                        ap not (sym go),
                        record {
                          copy = part stream r;
                          from = part-Segment stream r (omega arith) h.1 h.0;
                          to = to;
                          bound = bound;
                        },
                      )))))
