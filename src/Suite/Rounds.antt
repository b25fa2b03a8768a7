-- ===== src/Suite/Rounds.antt =====
-- fuzzer/src/tokens/mutators/mod.rs: the tests that apply mutators in random order. `add_tokens` stands
-- for what `Tokens::add_tokens` of libafl makes of a list of entries.
pub mod Laws
pub mod Overflow
use exim_fuzzer.Base.{
  ℕ, zero, suc, ◌+◌, ◌^◌, Bool, List, [], ◌∷◌, Bytes, codes, length, ltb, get_elem?, replicate,
  if◌then◌else◌,
}
use exim_fuzzer.Mutate.Copy.{mutate_copy}
use exim_fuzzer.Mutate.Delete.{mutate_delete}
use exim_fuzzer.Mutate.Truncate.{mutate_truncate}
use exim_fuzzer.Mutate.Split.{mutate_split}
use exim_fuzzer.Mutate.Crossover.{mutate_crossover_replace, mutate_crossover_insert}
use exim_fuzzer.Mutate.Random.{mutate_random_insert, mutate_random_replace}
use exim_fuzzer.Mutate.Repeat.{mutate_repeat_token, mutate_repeat_char}
use exim_fuzzer.Mutate.Swap.{mutate_swap_tokens, mutate_swap_constants}
use exim_fuzzer.Mutate.Words.{mutate_swap_words}
use exim_fuzzer.Mutate.Flip.{mutate_flip}
use exim_fuzzer.Mutate.Special.{mutate_special_insert, mutate_special_replace}
use exim_fuzzer.Mutate.Interesting.{mutate_interesting}
use exim_fuzzer.Mutate.Dict.{mutate_dict_insert, mutate_dict_replace}
use exim_fuzzer.Rand.{Rand}
use exim_fuzzer.Run.{Run, pure, panic, lift, ◌>>=◌, ◌>>◌}
use exim_fuzzer.Suite.Mutators.{letters}
use exim_fuzzer.Suite.Print.{parse_unwrap, from_utf8_unwrap}
use exim_fuzzer.Token.{TokenStream, token_len, verify}
use exim_fuzzer.Token.Serialize.{serialize_content}

-- `MAX_LEN`
abbrev pub max_len : ℕ
max_len = 128

abbrev pub session : Bytes
session = codes "200 fuck my shit up\r\nPORT 127,0,0,1,80,80\r\n12 + 12 = 24"

-- `total_len`, added up over the tokens
unfoldable pub sum_len : TokenStream → ℕ → ℕ
sum_len [] total_len = total_len
sum_len (token ∷ stream) total_len = sum_len stream (total_len + token_len token)

module _ {S : Type 0} where
  -- `if !token.verify() { panic!(...) }`, for each token
  unfoldable pub verify_tokens : TokenStream → Run S (Unit {0})
  verify_tokens [] = pure tt
  verify_tokens (token ∷ stream) =
      let rest = verify_tokens stream in if verify token then rest else panic

  -- The two checks after a mutation.
  unfoldable pub check_mutated : Bool → TokenStream → Run S (Unit {0})
  unfolding verify_tokens
  check_mutated mutated stream =
      if mutated
      then (if ltb max_len (length stream) then panic else verify_tokens stream)
      else pure tt

  -- `count += 1`, on an `i32` that is not negative.
  unfoldable pub i32_increment : ℕ → Run S ℕ
  i32_increment count = if ltb (count + 1) (2 ^ 31) then pure (count + 1) else panic

  -- A buffer of the length of the text, all of which is printed.
  unfoldable pub print_whole : TokenStream → Run S Bytes
  unfolding sum_len
  print_whole stream = do
    written ← lift (serialize_content stream (replicate (sum_len stream 0) 0))
    from_utf8_unwrap written.1

module _ (R : Rand) (dict : List Bytes) where
  open R use {State, zero_upto}

  -- The arms of the `match`; a clone of the stream is the other one in the crossovers.
  unfoldable pub mutations : TokenStream → List (Run State (Bool × TokenStream))
  mutations stream =
      mutate_copy R stream max_len
      ∷ mutate_crossover_insert R stream stream max_len
      ∷ mutate_crossover_replace R stream stream max_len
      ∷ mutate_delete R stream
      ∷ mutate_dict_insert R stream dict max_len
      ∷ mutate_dict_replace R stream dict
      ∷ mutate_flip R stream
      ∷ mutate_interesting R stream
      ∷ mutate_random_insert R stream max_len
      ∷ mutate_random_replace R stream
      ∷ mutate_repeat_char R 8 stream
      ∷ mutate_repeat_token R 8 stream max_len
      ∷ mutate_special_insert R stream
      ∷ mutate_special_replace R stream
      ∷ mutate_split R stream max_len
      ∷ mutate_swap_constants R stream dict
      ∷ mutate_swap_tokens R stream
      ∷ mutate_swap_words R stream
      ∷ mutate_truncate R stream
      ∷ []

  -- A number without an arm is `unreachable!`.
  unfoldable pub mutate_any : TokenStream → Run State (Bool × TokenStream)
  unfolding mutations
  mutate_any stream = do
    choice ← zero_upto 18
    arm ← lift (get_elem? (mutations stream) choice)
    arm

  -- The inner loop of `fuzz_mutators`, for `n` more mutations.
  unfoldable pub fuzz_stream : ℕ → TokenStream → Run State TokenStream
  unfolding mutate_any
  fuzz_stream zero stream = pure stream
  fuzz_stream (suc n) stream = do
    mutated ← mutate_any stream
    _ ← check_mutated mutated.0 mutated.1
    fuzz_stream n mutated.1

  -- The first `n` iterations of its `loop`, from a count on.
  unfoldable pub fuzz_loop : TokenStream → ℕ → ℕ → Run State ℕ
  unfolding fuzz_stream
  fuzz_loop stream zero count = pure count
  fuzz_loop stream (suc n) count = do
    count' ← i32_increment count
    _ ← fuzz_stream 1000 stream
    fuzz_loop stream n count'

  -- The loops of the other two tests, which do not look at the flag.
  unfoldable pub mutate_times : ℕ → TokenStream → Run State TokenStream
  unfolding mutate_any
  mutate_times zero stream = pure stream
  mutate_times (suc n) stream = do mutated ← mutate_any stream; mutate_times n mutated.1

module _ (R : Rand) (add_tokens : List Bytes → List Bytes) where
  open R use {State}

  -- `fuzz_mutators`, up to the end of iteration `n` of its `loop`: the count.
  unfoldable pub fuzz_mutators : ℕ → Run State ℕ
  unfolding fuzz_loop
  fuzz_mutators n = do stream ← parse_unwrap session; fuzz_loop R (add_tokens letters) stream n 0

  unfoldable pub test_generation : Run State Bytes
  unfolding mutate_times
  test_generation = do
    stream ← parse_unwrap []
    stream' ← mutate_times R (add_tokens (codes "<TOKEN>" ∷ [])) 10 stream
    print_whole stream'

  -- The text is printed with `{:?}`: `debug_format` stands for that format of a `str`, which quotes and
  -- escapes.
  unfoldable pub test_mutation : (Bytes → Bytes) → Run State Bytes
  unfolding mutate_times
  test_mutation debug_format = do
    stream ← parse_unwrap (codes "PORT 127,0,0,1,80,80\r\n")
    stream' ← mutate_times R (add_tokens (codes "<TOKEN>" ∷ [])) 2 stream
    text ← print_whole stream'
    pure (debug_format text)
