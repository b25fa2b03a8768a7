-- ===== src/Suite/Mutators.antt =====
-- The tests of the single mutators of token streams, in the files of fuzzer/src/tokens/mutators.
-- `add_tokens` stands for what `Tokens::add_tokens` of libafl makes of a list of entries.
pub mod Laws
use exim_fuzzer.Base.{
  ℕ, zero, suc, ◌+◌, ◌≤◌, ◌≡◌, List, [], ◌∷◌, ◌++◌, Bool, true, false, Bytes, codes, arith, length,
  replicate, if◌then◌else◌, length-replicate,
}
use exim_fuzzer.Mutate.Copy.{mutate_copy}
use exim_fuzzer.Mutate.Delete.{mutate_delete}
use exim_fuzzer.Mutate.Truncate.{mutate_truncate}
use exim_fuzzer.Mutate.Split.{mutate_split}
use exim_fuzzer.Mutate.Crossover.{mutate_crossover_replace, mutate_crossover_insert}
use exim_fuzzer.Mutate.Random.{mutate_random_insert, mutate_random_replace}
use exim_fuzzer.Mutate.Repeat.{mutate_repeat_token, mutate_repeat_char}
use exim_fuzzer.Mutate.Swap.{mutate_swap_tokens, mutate_swap_constants}
use exim_fuzzer.Mutate.Words.{mutate_swap_words}
use exim_fuzzer.Mutate.Flip.{mutate_flip}
use exim_fuzzer.Mutate.Special.{mutate_special_insert, mutate_special_replace}
use exim_fuzzer.Mutate.Interesting.{mutate_interesting}
use exim_fuzzer.Mutate.Dict.{mutate_dict_insert, mutate_dict_replace}
use exim_fuzzer.Rand.{Rand}
use exim_fuzzer.Run.{Run, pure, lift, ◌>>=◌}
use exim_fuzzer.Suite.Print.{parse_unwrap, print_stream, print_mutations}
use exim_fuzzer.Token.{TokenStream, constant}
use exim_fuzzer.Vec.{insert}

abbrev pub port : Bytes
port = codes "PORT 127,0,0,1,80,80\r\n"

abbrev pub words : Bytes
words = codes "200 fuck my shit up"

abbrev pub letters : List Bytes
letters = codes "X" ∷ codes "Y" ∷ codes "Z" ∷ []

-- `[0; 1024]`
abbrev pub line_buffer : Bytes
line_buffer = replicate 1024 0

module _ (R : Rand) where
  open R use {State}

  -- A test of one mutator on one stream.
  unfoldable pub test_on :
      Bytes → (TokenStream → Run State (Bool × TokenStream)) → Run State (List Bytes)
  test_on literal mutate = do
    stream ← parse_unwrap literal
    print_mutations mutate stream 10 line_buffer

  unfoldable pub test_copy : Run State (List Bytes)
  unfolding test_on
  test_copy = test_on port (λ stream. mutate_copy R stream 16)

  unfoldable pub test_delete : Run State (List Bytes)
  unfolding test_on
  test_delete = test_on port (mutate_delete R)

  unfoldable pub test_flip : Run State (List Bytes)
  unfolding test_on
  test_flip = test_on port (mutate_flip R)

  unfoldable pub test_interesting : Run State (List Bytes)
  unfolding test_on
  test_interesting = test_on port (mutate_interesting R)

  unfoldable pub test_random_insert : Run State (List Bytes)
  unfolding test_on
  test_random_insert = test_on port (λ stream. mutate_random_insert R stream 16)

  unfoldable pub test_random_replace : Run State (List Bytes)
  unfolding test_on
  test_random_replace = test_on port (mutate_random_replace R)

  unfoldable pub test_repeat_token : Run State (List Bytes)
  unfolding test_on
  test_repeat_token = test_on port (λ stream. mutate_repeat_token R 16 stream 32)

  unfoldable pub test_repeat_char : Run State (List Bytes)
  unfolding test_on
  test_repeat_char = test_on port (mutate_repeat_char R 16)

  unfoldable pub test_special_insert : Run State (List Bytes)
  unfolding test_on
  test_special_insert = test_on port (mutate_special_insert R)

  unfoldable pub test_special_replace : Run State (List Bytes)
  unfolding test_on
  test_special_replace = test_on port (mutate_special_replace R)

  unfoldable pub test_swap_tokens : Run State (List Bytes)
  unfolding test_on
  test_swap_tokens = test_on port (mutate_swap_tokens R)

  unfoldable pub test_swap_words : Run State (List Bytes)
  unfolding test_on
  test_swap_words = test_on (codes "1 2 3 4 5 6 7 8 9") (mutate_swap_words R)

  -- Its name in truncate.rs is `test_delete`.
  unfoldable pub test_truncate : Run State (List Bytes)
  unfolding test_on
  test_truncate = test_on (codes "here are a couple of words for you") (mutate_truncate R)

  -- The second stream is parsed too, and not mutated.
  unfoldable pub test_replace : Run State (List Bytes)
  test_replace = do
    stream1 ← parse_unwrap words
    stream2 ← parse_unwrap port
    print_mutations (λ stream. mutate_crossover_replace R stream stream2 16) stream1 10 line_buffer

  unfoldable pub test_insert : Run State (List Bytes)
  test_insert = do
    stream1 ← parse_unwrap words
    stream2 ← parse_unwrap port
    print_mutations (λ stream. mutate_crossover_insert R stream stream2 16) stream1 10 line_buffer

  -- Only a stream that was mutated is printed and counted: the lines, the buffer and the count.
  unfoldable pub print_split : Bool → TokenStream → Bytes → ℕ → Run State (List Bytes × Bytes × ℕ)
  unfolding print_stream
  print_split mutated stream buffer count =
      if mutated
      then (print_stream stream buffer >>= λ printed. pure (printed.0 ∷ [], printed.1, count + 1))
      else pure ([], buffer, count)

  unfoldable pub split_mutations : TokenStream → ℕ → Bytes → ℕ → Run State (List Bytes × ℕ)
  unfolding print_split
  split_mutations stream zero buffer count = pure ([], count)
  split_mutations stream (suc n) buffer count = do
    mutated ← mutate_split R stream 16
    printed ← print_split mutated.0 mutated.1 buffer count
    rest ← split_mutations stream n printed.1 printed.2
    pure (printed.0 ++ rest.0, rest.1)

  unfoldable pub test_split : Run State (List Bytes × ℕ)
  unfolding split_mutations
  test_split = do stream ← parse_unwrap words; split_mutations stream 10 line_buffer 0

  module _ (add_tokens : List Bytes → List Bytes) where
    unfoldable pub test_dict_insert : Run State (List Bytes)
    unfolding test_on
    test_dict_insert = test_on port (λ stream. mutate_dict_insert R stream (add_tokens letters) 16)

    unfoldable pub test_dict_replace : Run State (List Bytes)
    unfolding test_on
    test_dict_replace = test_on port (λ stream. mutate_dict_replace R stream (add_tokens letters))

    unfoldable pub test_swap_constants : Run State (List Bytes)
    test_swap_constants = do
      stream ← parse_unwrap (codes " 127,0,0,1,80,80\r\n")
      stream' ← lift (insert stream 0 (constant (codes "PORT")))
      print_mutations (λ s. mutate_swap_constants R s (add_tokens letters)) stream' 10 line_buffer

    -- All tests that print ten lines.
    abbrev pub mutator_tests : List (Run State (List Bytes))
    mutator_tests =
        test_copy ∷ test_replace ∷ test_insert ∷ test_delete ∷ test_dict_insert ∷ test_dict_replace
        ∷ test_flip ∷ test_interesting ∷ test_random_insert ∷ test_random_replace
        ∷ test_repeat_token ∷ test_repeat_char ∷ test_special_insert ∷ test_special_replace
        ∷ test_swap_tokens ∷ test_swap_constants ∷ test_swap_words ∷ test_truncate ∷ []
