-- ===== src/Mutate/Swap.antt =====
-- fuzzer/src/tokens/mutators/swap.rs: `mutate_swap_tokens` and `mutate_swap_constants`.
use mathlib.Core.List.{Memᴰ}
use exim_fuzzer.Base.{
  ℕ, ◌-◌, ◌<◌, ◌≡◌, ◌≢◌, refl, Bool, true, false, ◌||◌, Option, none, some, List, ◌==◌,
  if◌then◌else◌, Bytes, length, get_elem?, get_elem?-total, arith, subst, get_elem?-Mem,
  some-injective,
}
use exim_fuzzer.Mutate.Common.{copy_vec, copy_vec_lem, Outcome}
use exim_fuzzer.Mutate.Rewrite.{Rewritten, first_match_from, first_match_from_lem}
use exim_fuzzer.Rand.{Rand}
use exim_fuzzer.Rand.Rules.{Ensures-between}
use exim_fuzzer.Run.{Run, pure, lift, ◌>>=◌, usize_sub}
use exim_fuzzer.Run.Ensures.{Ensures, Ensures-pure, Ensures-if, Ensures-lift-bind, Ensures-sub-bind}
use exim_fuzzer.Token.{TextToken, constant, number, whitespace, text, TokenStream}
use exim_fuzzer.Vec.{swap}
use exim_fuzzer.Vec.Exchange.{Exchanged, swap-set, set-Exchanged}

-- Two tokens of the stream change places.
pub record Swapped (stream stream' : TokenStream) : Type 0 where
  pub from : ℕ
  pub to : ℕ
  pub exchanged : Exchanged stream from to stream'

-- A constant becomes another one, from the dictionary.
pub record ConstantReplaced (dict : List Bytes) (old new : TextToken) : Type 0 where
  pub bytes : Bytes
  pub item : Bytes
  pub constant_before : old ≡ constant bytes
  pub constant_after : new ≡ constant item
  pub listed : Memᴰ item dict

module _ (R : Rand) where
  open R use {State, between}

  unfoldable pub mutate_swap_tokens : TokenStream → Run State (Bool × TokenStream)
  mutate_swap_tokens stream = if length stream == 0 then pure (false, stream) else do
    last ← usize_sub (length stream) 1
    from ← between 0 last
    to ← between 0 last
    if from == to
        then pure (false, stream)
        else do stream' ← lift (swap stream from to); pure (true, stream')

  -- What the loop of `mutate_swap_constants` does to a constant.
  unfoldable pub swap_constant : List Bytes → TextToken → Option (Run State TextToken)
  swap_constant dict (constant bytes) = some (do
    last ← usize_sub (length dict) 1
    idx ← between 0 last
    item ← lift (get_elem? dict idx)
    new_bytes ← lift (copy_vec bytes item)
    pure (constant new_bytes))
  swap_constant dict _ = none

  unfoldable pub mutate_swap_constants : TokenStream → List Bytes → Run State (Bool × TokenStream)
  unfolding swap_constant
  mutate_swap_constants stream dict =
      if length stream == 0 || length dict == 0 then pure (false, stream) else do
        last ← usize_sub (length stream) 1
        start ← between 0 last
        first_match_from (swap_constant dict) stream start

  -- `mutate_swap_tokens` never panics, and makes two tokens at different places change places, or
  -- returns false and leaves the stream alone.
  pub mutate_swap_tokens_lem :
      (stream : TokenStream) → Ensures (Outcome stream (Swapped stream)) (mutate_swap_tokens stream)
  unfolding mutate_swap_tokens
  mutate_swap_tokens_lem stream =
      Ensures-if (length stream == 0) (λ _. Ensures-pure _ refl)
        λ go.
          let some_token : 0 < length stream = ground arith in
          Ensures-sub-bind _ some_token (
            Ensures-between R 0 (length stream - 1) (omega arith) λ from hf.
              Ensures-between R 0 (length stream - 1) (omega arith) λ to ht.
                Ensures-if (from == to) (λ _. Ensures-pure _ refl)
                  λ differ.
                    let (x, e) = get_elem?-total stream from (omega arith) in
                    let (y, f) = get_elem?-total stream to (omega arith) in
                    let d : from ≢ to = λ same. ground arith in
                    Ensures-lift-bind _ (swap-set stream from to e f) (
                      Ensures-pure _ (record {
                        from = from;
                        to = to;
                        exchanged = set-Exchanged stream from to d e f;
                      })))

  module _ (dict : List Bytes) (some_item : 0 < length dict) where
    swap_constant_run :
        (bytes : Bytes)
        → Ensures (ConstantReplaced dict (constant bytes)) (
            usize_sub (length dict) 1 >>= λ last. between 0 last >>= λ idx.
            lift (get_elem? dict idx) >>= λ item.
            lift (copy_vec bytes item) >>= λ new_bytes. pure (constant new_bytes))
    swap_constant_run bytes = Ensures-sub-bind _ some_item (
        Ensures-between R 0 (length dict - 1) (omega arith) λ idx hi.
          let (item, e) = get_elem?-total dict idx (omega arith) in
          Ensures-lift-bind _ e (
            Ensures-lift-bind _ (copy_vec_lem bytes item) (
              Ensures-pure _ (record {
                bytes = bytes;
                item = item;
                constant_before = refl;
                constant_after = refl;
                listed = get_elem?-Mem dict idx e;
              }))))

    swap_constant_lem :
        (t : TextToken) (act : Run State TextToken)
        → swap_constant dict t ≡ some act
        → Ensures (ConstantReplaced dict t) act
    unfolding swap_constant
    swap_constant_lem (constant bytes) act e =
        subst (Ensures (ConstantReplaced dict (constant bytes))) (some-injective e)
          (swap_constant_run bytes)
    swap_constant_lem (number b) act e = cc
    swap_constant_lem (whitespace b) act e = cc
    swap_constant_lem (text b) act e = cc

  -- `mutate_swap_constants` never panics, and replaces one constant by an item of the dictionary, or
  -- returns false and leaves the stream alone.
  pub mutate_swap_constants_lem :
      (stream : TokenStream) (dict : List Bytes)
      → Ensures
          (Outcome stream (Rewritten (ConstantReplaced dict) stream))
          (mutate_swap_constants stream dict)
  unfolding mutate_swap_constants
  mutate_swap_constants_lem stream dict =
      Ensures-if (length stream == 0 || length dict == 0) (λ _. Ensures-pure _ refl)
        λ go.
          let some_token : 0 < length stream = ground arith in
          let some_item : 0 < length dict = ground arith in
          Ensures-sub-bind _ some_token (
            Ensures-between R 0 (length stream - 1) (omega arith) λ start hs.
              first_match_from_lem (swap_constant dict) (swap_constant_lem dict some_item) stream
                start (omega arith))
