-- ===== src/Mutators/Token.antt =====
-- fuzzer/src/mutators/token.rs: `TokenStreamMutator`, which applies a stack of mutators of one token
-- stream. It owns a random source besides that of the state. The corpus of the crate libafl is a
-- parameter: the macro that draws an id, the current id, and the packets of an id, where `none` is
-- an `Err` of `get` or `load_input`; so is the dictionary in the state's metadata, if there is one.
pub mod InOrder
use exim_fuzzer.Base.{
  ℕ, zero, suc, Bool, true, false, ◌||◌, Option, none, some, List, [], ◌∷◌, ◌==◌, if◌then◌else◌,
  Bytes, length, get_elem?,
}
use exim_fuzzer.Mutate.Copy.{mutate_copy}
use exim_fuzzer.Mutate.Delete.{mutate_delete}
use exim_fuzzer.Mutate.Truncate.{mutate_truncate}
use exim_fuzzer.Mutate.Split.{mutate_split}
use exim_fuzzer.Mutate.Crossover.{mutate_crossover_replace, mutate_crossover_insert}
use exim_fuzzer.Mutate.Random.{mutate_random_insert, mutate_random_replace}
use exim_fuzzer.Mutate.Repeat.{mutate_repeat_token, mutate_repeat_char}
use exim_fuzzer.Mutate.Swap.{mutate_swap_tokens, mutate_swap_constants}
use exim_fuzzer.Mutate.Words.{mutate_swap_words}
use exim_fuzzer.Mutate.Flip.{mutate_flip}
use exim_fuzzer.Mutate.Special.{mutate_special_insert, mutate_special_replace}
use exim_fuzzer.Mutate.Interesting.{mutate_interesting}
use exim_fuzzer.Mutate.Dict.{mutate_dict_insert, mutate_dict_replace}
use exim_fuzzer.Mutators.Outcome.{MutationResult, mutated, skipped}
use exim_fuzzer.Rand.{Rand}
use exim_fuzzer.Run.{Run, pure, lift, on_left, on_right, ◌>>=◌, usize_sub}
use exim_fuzzer.Token.{TokenStream}

-- `Result<MutationResult, Error>`, without the error's text
pub data PacketResult : Type 0 where
  ok : MutationResult → PacketResult
  err : PacketResult

-- One round of the loop: the mutator's Boolean and the new stream, a `continue`, or an error that
-- `?` returns.
pub data Round : Type 0 where
  changed : Bool → TokenStream → Round
  continued failed : Round

-- `STACKS`
abbrev pub stacks : List ℕ
stacks = 2 ∷ 4 ∷ 8 ∷ 32 ∷ []

-- `corpus().current().as_ref() == Some(&idx)`
unfoldable pub is_current : Option ℕ → ℕ → Bool
is_current none idx = false
is_current (some id) idx = id == idx

module _ (R : Rand) (max_tokens : ℕ) (dict : Option (List Bytes)) (random_corpus_id : Run R.State ℕ)
    (current : Option ℕ) (load : ℕ → Option (List TokenStream)) where
  open R use {State, between}

  unfoldable pub apply : Run State (Bool × TokenStream) → Run State Round
  apply mutate = do (b, packet) ← mutate; pure (changed b packet)

  -- The arms 1 and 2 up to the call of the mutator.
  unfoldable pub with_other : (TokenStream → Run State (Bool × TokenStream)) → Run State Round
  unfolding apply is_current
  with_other mutate = do
    idx ← random_corpus_id
    if is_current current idx then pure continued else elim (load idx) [
      | none ↦ pure failed
      | some packets ↦ if length packets == 0 then pure continued else do
        last ← usize_sub (length packets) 1
        i ← between 0 last
        other_packet ← lift (get_elem? packets i)
        apply (mutate other_packet)
    ]

  -- The arms 16 to 18.
  unfoldable pub with_dict :
      TokenStream → (List Bytes → Run State (Bool × TokenStream)) → Run State Round
  unfolding apply
  with_dict packet mutate = elim dict [
    | none ↦ pure (changed false packet)
    | some d ↦ apply (mutate d)
  ]

  -- The arms of the `match`, in their order from 0 to 18.
  unfoldable pub arms : TokenStream → List (Run State Round)
  unfolding apply with_other with_dict
  arms packet =
      apply (mutate_copy R packet max_tokens)
      ∷ with_other (λ other. mutate_crossover_insert R packet other max_tokens)
      ∷ with_other (λ other. mutate_crossover_replace R packet other max_tokens)
      ∷ apply (mutate_delete R packet)
      ∷ apply (mutate_flip R packet)
      ∷ apply (mutate_interesting R packet)
      ∷ apply (mutate_random_insert R packet max_tokens)
      ∷ apply (mutate_random_replace R packet)
      ∷ apply (mutate_repeat_char R 16 packet)
      ∷ apply (mutate_repeat_token R 4 packet max_tokens)
      ∷ apply (mutate_special_insert R packet)
      ∷ apply (mutate_special_replace R packet)
      ∷ apply (mutate_split R packet max_tokens)
      ∷ apply (mutate_swap_tokens R packet)
      ∷ apply (mutate_swap_words R packet)
      ∷ apply (mutate_truncate R packet)
      ∷ with_dict packet (λ d. mutate_dict_insert R packet d max_tokens)
      ∷ with_dict packet (λ d. mutate_dict_replace R packet d)
      ∷ with_dict packet (λ d. mutate_swap_constants R packet d)
      ∷ []

  -- The end of a round, and `next` for the rounds that follow.
  unfoldable pub after :
      Bool
      → TokenStream
      → (Bool → TokenStream → Run State (PacketResult × TokenStream))
      → Round
      → Run State (PacketResult × TokenStream)
  after any packet next (changed b packet') = next (any || b) packet'
  after any packet next continued = next any packet
  after any packet next failed = pure (err, packet)

  -- The loop; a number without an arm is the `unreachable!`.
  unfoldable pub mutate_loop : ℕ → Bool → TokenStream → Run State (PacketResult × TokenStream)
  unfolding arms after
  mutate_loop zero any packet = pure (ok (if any then mutated else skipped), packet)
  mutate_loop (suc n) any packet = do
    choice ← between 0 18
    arm ← lift (get_elem? (arms packet) choice)
    round ← arm
    after any packet (mutate_loop n) round

  -- The state's random source is on the left, the mutator's on the right.
  unfoldable pub mutate_packet :
      (state_rand : Rand)
      → TokenStream
      → Run (state_rand.State × State) (PacketResult × TokenStream)
  unfolding mutate_loop
  mutate_packet state_rand packet = do
    o ← on_left (state_rand.choose stacks)
    stack ← lift o
    on_right (mutate_loop stack false packet)
