-- ===== src/Campaign/Reach.antt =====
-- The corpora and inputs that fuzzing can reach, and the mutators on them.
use exim_fuzzer.Base.{ℕ, ◌≤◌, ◌<◌, ◌^◌, ◌≡◌, subst, Option, some, List, Bytes, length, arith}
use exim_fuzzer.Campaign.{Input, Mutates, unchanged, mutates, Fuzzes, loaded, added, mutators}
use exim_fuzzer.Campaign.Keeps.{IsSound}
use exim_fuzzer.Campaign.Keeps.Mutators.{mutators-Sound}
use exim_fuzzer.Rand.{Rand}
use exim_fuzzer.Run.{Run}
use exim_fuzzer.Run.Ensures.{Ensures, Returns}
use exim_fuzzer.Token.Random.Laws.{All-Mem}
use exim_fuzzer.Token.WellFormed.{All, AllBytes, All-get_elem?}
use exim_fuzzer.Token.Parse.Next.{is_ascii}
use mathlib.Core.List.{Memᴰ}

-- The corpus: an id can be drawn unless it is empty, and what is stored under an id is an input of it.
module _ (C : Bytes → Type 0) (state_rand own : Rand) (dict : Option (List Bytes))
    (random_corpus_id : List Input → Run own.State ℕ) (load : List Input → ℕ → Option Input)
    (draws : (corpus : List Input)
      → 0 < length corpus
      → Ensures (λ _. Unit {0}) (random_corpus_id corpus))
    (loads : (corpus : List Input) (id : ℕ) (input : Input)
      → load corpus id ≡ some input
      → Memᴰ input corpus)
    (least limit most : ℕ) (few : least ≤ 1) (within : 28 ≤ limit) (small : limit < 2 ^ 64)
    (enough : 19 ≤ most) (known : (d : List Bytes) → dict ≡ some d → All C d)
    (ascii_in : (b : Bytes) → AllBytes is_ascii b → C b) where
  module _ (corpus : List Input) (current : Option ℕ)
      (stored : All (IsSound C least limit most) corpus) (not_empty : 0 < length corpus) where
    pub keeps :
        (packets : Input)
        → IsSound C least limit most packets
        → All
            (λ mutate. Ensures (λ r. IsSound C least limit most r.1) (mutate packets))
            (mutators state_rand own dict random_corpus_id load corpus current)
    keeps packets sound =
        mutators-Sound C state_rand own dict random_corpus_id load least limit most few within small
          enough known ascii_in packets sound corpus current (draws corpus not_empty) stored
          (loads corpus)

    pub Mutates-IsSound :
        {from input : Input}
        → IsSound C least limit most from
        → Mutates state_rand own dict random_corpus_id load corpus current from input
        → IsSound C least limit most input
    Mutates-IsSound sound unchanged = sound
    Mutates-IsSound sound (mutates {before} m i mutator at states states' result e) =
        let all = keeps before (Mutates-IsSound sound m) in
        subst (Returns (λ r. IsSound C least limit most r.1)) e
          ((All-get_elem? _ _ i all at).at states)

  pub loads_some :
      (corpus : List Input) (id : ℕ) (input : Input)
      → load corpus id ≡ some input
      → 0 < length corpus
  loads_some corpus id input e = positive (loads corpus id input e)
    where
      positive : {corpus : List Input} → Memᴰ input corpus → 0 < length corpus
      positive (Memᴰ.head _) = omega arith
      positive (Memᴰ.tail _) = omega arith

  -- Let `C` be any property of bytes that all ASCII bytes and the entries of the dictionary have. Where
  -- the initial inputs have from `least` to `most` packets, each a stream of at most `limit` well-formed
  -- tokens whose constants have `C`, so has every input of every corpus that fuzzing can reach, for a
  -- `least` of 0 or 1, any `limit` from 28 up and below 2 ^ 64, and any `most` from 19 up.
  pub Fuzzes-IsSound :
      (initial corpus : List Input)
      → All (IsSound C least limit most) initial
      → Fuzzes state_rand own dict random_corpus_id load initial corpus
      → All (IsSound C least limit most) corpus
  Fuzzes-IsSound initial _ sound loaded = sound
  Fuzzes-IsSound initial _ sound (added {corpus} f id from input e m) =
      let stored = Fuzzes-IsSound initial corpus sound f in
      (
        Mutates-IsSound corpus (some id) stored (loads_some corpus id from e)
            (All-Mem (IsSound C least limit most) from corpus stored (loads corpus id from e)) m,
        stored,
      )

  -- What a sequence of mutators makes of an input of a corpus that fuzzing can reach.
  pub Mutated-IsSound :
      (initial corpus : List Input)
      → All (IsSound C least limit most) initial
      → Fuzzes state_rand own dict random_corpus_id load initial corpus
      → (id : ℕ) (from input : Input) → load corpus id ≡ some from
      → Mutates state_rand own dict random_corpus_id load corpus (some id) from input
      → IsSound C least limit most input
  Mutated-IsSound initial corpus sound f id from input e m =
      let stored = Fuzzes-IsSound initial corpus sound f in
      Mutates-IsSound corpus (some id) stored (loads_some corpus id from e)
        (All-Mem (IsSound C least limit most) from corpus stored (loads corpus id from e)) m

  -- Let `C` be any property of bytes that all ASCII bytes and the entries of the dictionary have. Where
  -- the initial inputs have from `least` to `most` packets, each a stream of at most `limit` well-formed
  -- tokens whose constants have `C`, for a `least` of 0 or 1, any `limit` from 28 up and below 2 ^ 64, and
  -- any `most` from 19 up, no mutator ever panics: in every corpus that fuzzing can reach, on every input
  -- that a sequence of mutators can make of an input of the corpus, and in every state of the random
  -- sources, each of the ten mutators returns, and what it returns has these bounds and constants again.
  pub mutators-Fuzzes :
      (initial corpus : List Input)
      → All (IsSound C least limit most) initial
      → Fuzzes state_rand own dict random_corpus_id load initial corpus
      → (id : ℕ) (from input : Input) → load corpus id ≡ some from
      → Mutates state_rand own dict random_corpus_id load corpus (some id) from input
      → All
          (λ mutate. Ensures (λ r. IsSound C least limit most r.1) (mutate input))
          (mutators state_rand own dict random_corpus_id load corpus (some id))
  mutators-Fuzzes initial corpus sound f id from input e m =
      keeps corpus (some id) (Fuzzes-IsSound initial corpus sound f) (loads_some corpus id from e)
        input (Mutated-IsSound initial corpus sound f id from input e m)
