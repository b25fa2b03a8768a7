-- ===== src/Mutate/Keeps/Each.antt =====
-- What each mutator of a token stream keeps, one by one.
use exim_fuzzer.Base.{ℕ, ◌^◌, ◌≤◌, ◌<◌, Bool, List, Bytes, arith}
use exim_fuzzer.Mutate.Common.{Outcome, Decided}
use exim_fuzzer.Mutate.Keeps.{
  InOrder, Ensures-InOrder, All-Spliced, All-Segment, InOrder-Spliced, InOrder-Rewritten,
  InOrder-Crossed, InOrder-IsSplit, InOrder-Repeated, InOrder-Exchanged, InOrder-DictInserted,
  InOrder-WordsSwapped, InOrder-Random, Random-IsTokenOf,
}
use exim_fuzzer.Mutate.Keeps.Tokens.{
  Same-IsTokenOf, Listed-IsTokenOf, Stretched-IsTokenOf, Extended-IsTokenOf, Altered-IsTokenOf,
  MadeInteresting-IsTokenOf,
}
use exim_fuzzer.Mutate.Copy.{mutate_copy, mutate_copy_lem}
use exim_fuzzer.Mutate.Delete.{mutate_delete, mutate_delete_lem}
use exim_fuzzer.Mutate.Truncate.{mutate_truncate, mutate_truncate_lem}
use exim_fuzzer.Mutate.Split.{mutate_split, mutate_split_lem}
use exim_fuzzer.Mutate.Crossover.{
  mutate_crossover_replace, mutate_crossover_insert, mutate_crossover_replace_lem,
  mutate_crossover_insert_lem,
}
use exim_fuzzer.Mutate.Random.{
  mutate_random_insert, mutate_random_replace, mutate_random_insert_lem, mutate_random_replace_lem,
}
use exim_fuzzer.Mutate.Repeat.{
  mutate_repeat_token, mutate_repeat_char, mutate_repeat_token_lem, mutate_repeat_char_lem,
}
use exim_fuzzer.Mutate.Swap.{
  mutate_swap_tokens, mutate_swap_constants, mutate_swap_tokens_lem, mutate_swap_constants_lem,
}
use exim_fuzzer.Mutate.Words.{mutate_swap_words, mutate_swap_words_lem}
use exim_fuzzer.Mutate.Flip.{mutate_flip, mutate_flip_lem}
use exim_fuzzer.Mutate.Special.{
  mutate_special_insert, mutate_special_replace, mutate_special_insert_lem,
  mutate_special_replace_lem,
}
use exim_fuzzer.Mutate.Interesting.{mutate_interesting, mutate_interesting_lem}
use exim_fuzzer.Mutate.Dict.{
  mutate_dict_insert, mutate_dict_replace, mutate_dict_insert_lem, mutate_dict_replace_lem,
}
use exim_fuzzer.Rand.{Rand}
use exim_fuzzer.Run.{Run}
use exim_fuzzer.Run.Ensures.{Ensures, Ensures-weaken}
use exim_fuzzer.Token.{TokenStream}
use exim_fuzzer.Token.Constants.{IsTokenOf, AllTokensOf}
use exim_fuzzer.Token.WellFormed.{All}

-- From every state the mutator returns a stream in order, whatever its flag says.
abbrev pub Keeping : {S : Type 0} → (Bytes → Type 0) → ℕ → Run S (Bool × TokenStream) → Type 0
Keeping C limit m = Ensures (λ r. InOrder C limit r.1) m

module _ (C : Bytes → Type 0) (R : Rand) (limit : ℕ) (stream : TokenStream)
    (ok : InOrder C limit stream) where
  open R use {State}

  keep :
      {Q : TokenStream → Type 0} {m : Run State (Bool × TokenStream)}
      → ((s : TokenStream) → Q s → InOrder C limit s)
      → Ensures (Outcome stream Q) m
      → Keeping C limit m
  keep f h = Ensures-InOrder C limit stream f ok h

  outcome :
      {Q : TokenStream → Type 0} {acts : Bool} {m : Run State (Bool × TokenStream)}
      → Ensures (Decided acts stream Q) m
      → Ensures (Outcome stream Q) m
  outcome h = Ensures-weaken h λ r d. d.1

  pub mutate_delete-InOrder : Keeping C limit (mutate_delete R stream)
  mutate_delete-InOrder =
      keep (λ s q. InOrder-Spliced C limit ok q.splice tt (omega arith))
        (outcome (mutate_delete_lem R stream))

  pub mutate_flip-InOrder : Keeping C limit (mutate_flip R stream)
  mutate_flip-InOrder =
      keep
        (InOrder-Rewritten C limit
          (λ old new q. Same-IsTokenOf C old new _ q.not_constant q.now q.well_formed) ok)
        (mutate_flip_lem R stream)

  pub mutate_interesting-InOrder : Keeping C limit (mutate_interesting R stream)
  mutate_interesting-InOrder =
      keep (InOrder-Rewritten C limit (MadeInteresting-IsTokenOf C) ok)
        (mutate_interesting_lem R stream)

  pub mutate_random_replace-InOrder : Keeping C limit (mutate_random_replace R stream)
  mutate_random_replace-InOrder =
      keep (InOrder-Rewritten C limit (λ old new q _. Random-IsTokenOf C q) ok)
        (outcome (mutate_random_replace_lem R stream))

  pub mutate_repeat_char-InOrder :
      (amount : ℕ) → Keeping C limit (mutate_repeat_char R amount stream)
  mutate_repeat_char-InOrder amount =
      keep (InOrder-Rewritten C limit (λ old new q. Stretched-IsTokenOf C old new q) ok)
        (mutate_repeat_char_lem R amount stream)

  pub mutate_special_insert-InOrder : Keeping C limit (mutate_special_insert R stream)
  mutate_special_insert-InOrder =
      keep (InOrder-Rewritten C limit (Extended-IsTokenOf C) ok)
        (mutate_special_insert_lem R stream)

  pub mutate_special_replace-InOrder : Keeping C limit (mutate_special_replace R stream)
  mutate_special_replace-InOrder =
      keep (InOrder-Rewritten C limit (Altered-IsTokenOf C) ok)
        (mutate_special_replace_lem R stream)

  pub mutate_swap_tokens-InOrder : Keeping C limit (mutate_swap_tokens R stream)
  mutate_swap_tokens-InOrder =
      keep (λ s q. InOrder-Exchanged C limit limit (omega arith) ok q.from q.to q.exchanged)
        (mutate_swap_tokens_lem R stream)

  pub mutate_swap_words-InOrder : limit < 2 ^ 64 → Keeping C limit (mutate_swap_words R stream)
  mutate_swap_words-InOrder small =
      keep (λ s q. InOrder-WordsSwapped C limit limit (omega arith) ok q)
        (mutate_swap_words_lem R stream (omega (arith, ok.1)))

  pub mutate_truncate-InOrder : Keeping C limit (mutate_truncate R stream)
  mutate_truncate-InOrder =
      keep
        (InOrder-Rewritten C limit
          (λ old new q. Same-IsTokenOf C old new _ q.not_constant q.cut q.well_formed) ok)
        (mutate_truncate_lem R stream)

  -- With a dictionary whose entries have the property.
  module _ (dict : List Bytes) (good : All C dict) where
    pub mutate_dict_replace-InOrder : Keeping C limit (mutate_dict_replace R stream dict)
    mutate_dict_replace-InOrder =
        keep
          (InOrder-Rewritten C limit (λ old new q. Listed-IsTokenOf C old new good q.listed q.now)
            ok)
          (mutate_dict_replace_lem R stream dict)

    pub mutate_swap_constants-InOrder : Keeping C limit (mutate_swap_constants R stream dict)
    mutate_swap_constants-InOrder =
        keep
          (InOrder-Rewritten C limit
            (λ old new q. Listed-IsTokenOf C old new good q.listed q.constant_after) ok)
          (mutate_swap_constants_lem R stream dict)

  -- The mutators that stop adding at a bound, which the limit covers.
  module _ (max_tokens : ℕ) (within : max_tokens ≤ limit) where
    pub mutate_copy-InOrder : Keeping C limit (mutate_copy R stream max_tokens)
    mutate_copy-InOrder =
        keep
          (λ s q. (
            All-Spliced (IsTokenOf C) q.to ok.0 (All-Segment (IsTokenOf C) q.from ok.0),
            omega (arith, q.bound, within),
          ))
          (outcome (mutate_copy_lem R stream max_tokens))

    pub mutate_random_insert-InOrder : Keeping C limit (mutate_random_insert R stream max_tokens)
    mutate_random_insert-InOrder =
        keep (λ s q. InOrder-Random C max_tokens limit within ok q.random q.splice q.bound)
          (outcome (mutate_random_insert_lem R stream max_tokens))

    pub mutate_repeat_token-InOrder :
        (amount : ℕ) → Keeping C limit (mutate_repeat_token R amount stream max_tokens)
    mutate_repeat_token-InOrder amount =
        keep (λ s q. InOrder-Repeated C max_tokens limit within ok q)
          (mutate_repeat_token_lem R amount stream max_tokens)

    pub mutate_split-InOrder : Keeping C limit (mutate_split R stream max_tokens)
    mutate_split-InOrder =
        keep (λ s q. InOrder-IsSplit C max_tokens limit within ok q)
          (mutate_split_lem R stream max_tokens)

    pub mutate_dict_insert-InOrder :
        (dict : List Bytes)
        → All C dict
        → Keeping C limit (mutate_dict_insert R stream dict max_tokens)
    mutate_dict_insert-InOrder dict good =
        keep (λ s q. InOrder-DictInserted C max_tokens limit within ok good q)
          (outcome (mutate_dict_insert_lem R stream dict max_tokens))

    module _ (other : TokenStream) (others : AllTokensOf C other) where
      pub mutate_crossover_insert-InOrder :
          Keeping C limit (mutate_crossover_insert R stream other max_tokens)
      mutate_crossover_insert-InOrder =
          keep (λ s q. InOrder-Crossed C max_tokens limit within ok others q)
            (outcome (mutate_crossover_insert_lem R stream other max_tokens))

      pub mutate_crossover_replace-InOrder :
          Keeping C limit (mutate_crossover_replace R stream other max_tokens)
      mutate_crossover_replace-InOrder =
          keep (λ s q. InOrder-Crossed C max_tokens limit within ok others q.crossed)
            (outcome (mutate_crossover_replace_lem R stream other max_tokens))
