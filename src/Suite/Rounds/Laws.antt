-- ===== src/Suite/Rounds/Laws.antt =====
-- What the tests that apply mutators in random order promise.
use mathlib.Core.List.{Memᴰ}
use exim_fuzzer.Base.{
  ℕ, zero, suc, ◌+◌, ◌^◌, ◌<◌, ◌≡◌, refl, Bool, List, [], ◌∷◌, Bytes, arith, length,
  get_elem?-total, ltb, lt→ltb,
}
use exim_fuzzer.Mutate.Keeps.{InOrder}
use exim_fuzzer.Mutate.Keeps.Each.{
  Keeping, mutate_copy-InOrder, mutate_crossover_insert-InOrder, mutate_crossover_replace-InOrder,
  mutate_delete-InOrder, mutate_flip-InOrder, mutate_interesting-InOrder,
  mutate_random_insert-InOrder, mutate_random_replace-InOrder, mutate_repeat_char-InOrder,
  mutate_repeat_token-InOrder, mutate_special_insert-InOrder, mutate_special_replace-InOrder,
  mutate_split-InOrder, mutate_swap_tokens-InOrder, mutate_swap_words-InOrder,
  mutate_truncate-InOrder, mutate_dict_insert-InOrder, mutate_dict_replace-InOrder,
  mutate_swap_constants-InOrder,
}
use exim_fuzzer.Rand.{Rand}
use exim_fuzzer.Run.Ensures.{
  Ensures, Ensures-pure, Ensures-if, Ensures-bind, Ensures-lift-bind, Ensures-weaken,
}
use exim_fuzzer.Suite.Mutators.{letters}
use exim_fuzzer.Suite.Print.{Ascii, add_tokens-Ascii, parse_unwrap-then}
use exim_fuzzer.Suite.Rounds.{
  max_len, session, verify_tokens, check_mutated, i32_increment, mutations, mutate_any, fuzz_stream,
  fuzz_loop, fuzz_mutators,
}
use exim_fuzzer.Token.{TokenStream, text_of}
use exim_fuzzer.Token.Constants.{AllTokensOf}
use exim_fuzzer.Token.WellFormed.{All, All-get_elem?, verify-IsWellFormed, ◌▸◌}

-- What a test prints: the whole text of a stream in order.
abbrev pub IsText : Bytes → Type 0
IsText line = (stream : TokenStream) × InOrder Ascii 128 stream × (line ≡ text_of stream)

module _ {S : Type 0} where
  verify_tokens_lem :
      (stream : TokenStream)
      → AllTokensOf Ascii stream
      → Ensures {S = S} (λ _. Unit {0}) (verify_tokens stream)
  unfolding verify_tokens
  verify_tokens_lem [] h = Ensures-pure _ tt
  verify_tokens_lem (t ∷ stream) h = rw (verify-IsWellFormed t h.0.0) (verify_tokens_lem stream h.1)

  check_mutated_lem :
      (mutated : Bool) (stream : TokenStream)
      → InOrder Ascii 128 stream
      → Ensures {S = S} (λ _. Unit {0}) (check_mutated mutated stream)
  unfolding check_mutated
  check_mutated_lem mutated stream ok =
      Ensures-if mutated
        (λ _.
          Ensures-if (ltb max_len (length stream)) (λ far. absurd (ground (arith, ok.1)))
            λ _. verify_tokens_lem stream ok.0)
        λ _. Ensures-pure _ tt

  i32_increment_lem :
      (count : ℕ) → count + 1 < 2 ^ 31 → Ensures {S = S} (λ c. c ≡ count + 1) (i32_increment count)
  unfolding i32_increment
  i32_increment_lem count fits = rw (lt→ltb (count + 1) (2 ^ 31) fits) (Ensures-pure _ refl)

module _ (R : Rand) (dict : List Bytes) (known : All Ascii dict) where
  open R use {State}

  mutations_keep :
      (stream : TokenStream)
      → InOrder Ascii 128 stream
      → All (Keeping Ascii 128) (mutations R dict stream)
  unfolding mutations
  mutations_keep s ok =
      mutate_copy-InOrder Ascii R 128 s ok 128 (omega arith)
      ▸ mutate_crossover_insert-InOrder Ascii R 128 s ok 128 (omega arith) s ok.0
      ▸ mutate_crossover_replace-InOrder Ascii R 128 s ok 128 (omega arith) s ok.0
      ▸ mutate_delete-InOrder Ascii R 128 s ok
      ▸ mutate_dict_insert-InOrder Ascii R 128 s ok 128 (omega arith) dict known
      ▸ mutate_dict_replace-InOrder Ascii R 128 s ok dict known
      ▸ mutate_flip-InOrder Ascii R 128 s ok
      ▸ mutate_interesting-InOrder Ascii R 128 s ok
      ▸ mutate_random_insert-InOrder Ascii R 128 s ok 128 (omega arith)
      ▸ mutate_random_replace-InOrder Ascii R 128 s ok
      ▸ mutate_repeat_char-InOrder Ascii R 128 s ok 8
      ▸ mutate_repeat_token-InOrder Ascii R 128 s ok 128 (omega arith) 8
      ▸ mutate_special_insert-InOrder Ascii R 128 s ok
      ▸ mutate_special_replace-InOrder Ascii R 128 s ok
      ▸ mutate_split-InOrder Ascii R 128 s ok 128 (omega arith)
      ▸ mutate_swap_constants-InOrder Ascii R 128 s ok dict known
      ▸ mutate_swap_tokens-InOrder Ascii R 128 s ok
      ▸ mutate_swap_words-InOrder Ascii R 128 s ok (omega arith)
      ▸ mutate_truncate-InOrder Ascii R 128 s ok
      ▸ tt

  length-mutations : (stream : TokenStream) → length (mutations R dict stream) ≡ 19
  unfolding mutations
  length-mutations stream = refl

  mutate_any_keeps :
      (stream : TokenStream)
      → InOrder Ascii 128 stream
      → Keeping Ascii 128 (mutate_any R dict stream)
  unfolding mutate_any
  mutate_any_keeps stream ok = Ensures-bind (R.zero_upto_lem 18) λ choice h.
      let all = mutations R dict stream in
      let (arm, e) = get_elem?-total all choice (omega (arith, length-mutations stream)) in
      Ensures-lift-bind _ e
        (All-get_elem? (Keeping Ascii 128) all choice (mutations_keep stream ok) e)

  fuzz_stream_lem :
      (n : ℕ) (stream : TokenStream)
      → InOrder Ascii 128 stream
      → Ensures (InOrder Ascii 128) (fuzz_stream R dict n stream)
  unfolding fuzz_stream
  fuzz_stream_lem zero stream ok = Ensures-pure _ ok
  fuzz_stream_lem (suc n) stream ok =
      Ensures-bind (mutate_any_keeps stream ok)
        λ m h. Ensures-bind (check_mutated_lem m.0 m.1 h) λ _ _. fuzz_stream_lem n m.1 h

  fuzz_loop_lem :
      (stream : TokenStream)
      → InOrder Ascii 128 stream
      → (n count : ℕ) → count + n < 2 ^ 31
      → Ensures (λ c. c ≡ count + n) (fuzz_loop R dict stream n count)
  unfolding fuzz_loop
  fuzz_loop_lem stream ok zero count few = Ensures-pure _ (omega arith)
  fuzz_loop_lem stream ok (suc n) count few =
      Ensures-bind (i32_increment_lem count (omega arith)) λ c e.
        Ensures-bind (fuzz_stream_lem 1000 stream ok)
          λ _ _. Ensures-weaken (fuzz_loop_lem stream ok n c (omega arith)) λ k h. omega arith

module _ (R : Rand) (add_tokens : List Bytes → List Bytes)
    (adds : (items : List Bytes) (item : Bytes)
      → Memᴰ item (add_tokens items)
      → Memᴰ item items) where
  -- Where `add_tokens` adds nothing but the entries that it is given, `fuzz_mutators` never panics in its
  -- first 2 ^ 31 - 1 iterations, in any state of the random source: none of its 1000 mutations for each
  -- iteration panics or makes a stream of more than 128 tokens or with a token that `verify` refuses.
  pub fuzz_mutators_lem :
      (n : ℕ) → n < 2 ^ 31 → Ensures (λ count. count ≡ n) (fuzz_mutators R add_tokens n)
  unfolding fuzz_mutators
  fuzz_mutators_lem n few = parse_unwrap-then 128 session (ground arith) (omega arith) λ stream ok.
      Ensures-weaken
        (fuzz_loop_lem R (add_tokens letters)
          (add_tokens-Ascii add_tokens adds letters (ground arith)) stream ok n 0 (omega arith))
        λ count h. omega arith
