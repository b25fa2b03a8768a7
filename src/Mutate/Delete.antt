-- ===== src/Mutate/Delete.antt =====
-- fuzzer/src/tokens/mutators/delete.rs
use exim_fuzzer.Base.{
  ◌<◌, refl, sym, ap, Bool, true, false, not, List, [], ◌==◌, if◌then◌else◌, length, arith,
}
use exim_fuzzer.Mutate.Common.{random_range, random_range_lem, Decided}
use exim_fuzzer.Rand.{Rand}
use exim_fuzzer.Run.{Run, pure, lift, ◌>>=◌}
use exim_fuzzer.Run.Ensures.{Ensures, Ensures-pure, Ensures-if, Ensures-bind, Ensures-lift-bind}
use exim_fuzzer.Token.{TextToken, TokenStream}
use exim_fuzzer.Vec.{splice}
use exim_fuzzer.Vec.Laws.{Spliced, part, length-part, splice-spliced, spliced-Spliced}

-- A part of the stream is gone.
pub record Deleted (stream stream' : TokenStream) : Type 0 where
  pub gone : List TextToken
  pub not_empty : 0 < length gone
  pub splice : Spliced stream gone [] stream'

module _ (R : Rand) where
  open R use {State, between}

  unfoldable pub mutate_delete : TokenStream → Run State (Bool × TokenStream)
  mutate_delete stream = if length stream == 0 then pure (false, stream) else do
    r ← random_range R (length stream) (length stream)
    (stream', _) ← lift (splice stream r [])
    pure (true, stream')

  -- `mutate_delete` never panics. On a stream that is not empty it returns true and removes a
  -- contiguous, non-empty part; on the empty one it returns false and leaves it alone.
  pub mutate_delete_lem :
      (stream : TokenStream)
      → Ensures (Decided (not (length stream == 0)) stream (Deleted stream)) (mutate_delete stream)
  unfolding mutate_delete
  mutate_delete_lem stream =
      Ensures-if (length stream == 0) (λ no. Ensures-pure _ (ap not (sym no), refl))
        λ go.
          let some_token : 0 < length stream = ground arith in
          Ensures-bind (random_range_lem R (length stream) (length stream) some_token some_token)
            λ r h. Ensures-lift-bind _ (splice-spliced stream r (omega arith) h.1 []) (
              Ensures-pure _ (
                ap not (sym go),
                record {
                  gone = part stream r;
                  not_empty = omega (arith, length-part stream r h.1);
                  splice = spliced-Spliced stream r (omega arith) h.1 [];
                },
              ))
