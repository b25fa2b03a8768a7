-- ===== src/Campaign.antt =====
-- fuzzer/src/main.rs: the mutators that the fuzzer is put together from, and the inputs that they can
-- reach. What chooses a mutator or an input and what keeps an input is the crate libafl; so the steps
-- here are of any mutator, in any state of the random sources, and any input that is reached may be
-- added to the corpus. The corpus itself is a parameter: its ids and what is stored under them.
pub mod Keeps
pub mod Reach
pub mod Start
pub mod Load
pub mod Seeds
pub mod Cores
pub mod Monitor
pub mod Print
use exim_fuzzer.Base.{ℕ, ◌≡◌, Option, some, List, [], ◌∷◌, ◌++◌, Bytes, get_elem?}
use exim_fuzzer.Input.{PacketBasedInput}
use exim_fuzzer.Mutators.Content.{packet_content}
use exim_fuzzer.Mutators.Copy.{packet_copy, packet_repeat}
use exim_fuzzer.Mutators.Create.{packet_create, packet_generate}
use exim_fuzzer.Mutators.Crossover.{packet_crossover}
use exim_fuzzer.Mutators.Move.{packet_delete, packet_swap}
use exim_fuzzer.Mutators.Outcome.{MutationResult}
use exim_fuzzer.Mutators.Token.{PacketResult, ok, mutate_packet}
use exim_fuzzer.Rand.{Rand}
use exim_fuzzer.Run.{Run, pure, on_left, on_right, ◌>>=◌}
use exim_fuzzer.Token.{TokenStream}
use exim_fuzzer.Token.Generate.{create_random_packet, generate_packets}

abbrev pub Input : Type 0
Input = PacketBasedInput TokenStream

-- The variable `max_packets` of `main`, and the first argument of each `TokenStreamMutator::new`.
abbrev pub max_packets : ℕ
max_packets = 16

abbrev pub max_tokens : ℕ
max_tokens = 16

-- The random source of the fuzzer's state and that which a mutator may own, and the dictionary.
module _ (state_rand own : Rand) (dict : Option (List Bytes))
    (random_corpus_id : List Input → Run own.State ℕ) (load : List Input → ℕ → Option Input) where
  -- The states of the two random sources that a mutator works with.
  abbrev pub States : Type 0
  States = state_rand.State × own.State

  abbrev pub Mutator : Type 0
  Mutator = Input → Run States (PacketResult × Input)

  -- A mutator that draws from the state's source alone, and never returns an error.
  unfoldable pub on_state : (Input → Run state_rand.State (MutationResult × Input)) → Mutator
  on_state mutate packets = do (r, packets') ← on_left (mutate packets); pure (ok r, packets')

  -- `mutators` of `main`. The three `TokenStreamMutator`s differ in the seed of their source.
  unfoldable pub mutators : List Input → Option ℕ → List Mutator
  unfolding on_state
  mutators corpus current =
      let content = packet_content state_rand (
        mutate_packet own max_tokens dict (random_corpus_id corpus) current (load corpus)
          state_rand) in
      on_state (packet_copy state_rand max_packets)
      ∷ on_state (packet_delete state_rand 1)
      ∷ on_state (packet_repeat state_rand max_packets)
      ∷ on_state (packet_swap state_rand)
      ∷ content
      ∷ content
      ∷ content
      ∷ on_state (packet_create state_rand (create_random_packet state_rand) max_packets)
      ∷ (λ packets. on_right (
          packet_crossover own (random_corpus_id corpus) current (load corpus) max_packets packets))
      ∷ on_state (packet_generate state_rand (generate_packets state_rand) max_packets)
      ∷ []

  -- The inputs that a sequence of mutators makes of the input `from`, while the input with the id
  -- `current` is fuzzed.
  pub data Mutates (corpus : List Input) (current : Option ℕ) (from : Input) : Input → Type 0 where
    unchanged : Mutates corpus current from from
    mutates :
        {before after : Input}
        → Mutates corpus current from before
        → (i : ℕ) (mutator : Mutator) → get_elem? (mutators corpus current) i ≡ some mutator
        → (states states' : States) (result : PacketResult)
        → mutator before states ≡ some ((result, after), states')
        → Mutates corpus current from after

  -- The corpora that fuzzing can reach: an input of the corpus is mutated and added to it.
  pub data Fuzzes (initial : List Input) : List Input → Type 0 where
    loaded : Fuzzes initial initial
    added :
        {corpus : List Input}
        → Fuzzes initial corpus
        → (id : ℕ) (from input : Input) → load corpus id ≡ some from
        → Mutates corpus (some id) from input
        → Fuzzes initial (input ∷ corpus)
