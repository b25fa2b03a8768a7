-- ===== src/Tests/Streams.antt =====
-- The mutators of token streams, at the command `PORT 12,-3`.
use exim_fuzzer.Base.{
  ℕ, ◌≡◌, refl, not, ◌||◌, ◌==◌, some, List, [], ◌∷◌, Bytes, codes, arith, leb, length, true,
}
use exim_fuzzer.Run.{◌>>=◌, debug_assert, usize_sub}
use exim_fuzzer.Run.Ensures.{Ensures}
use exim_fuzzer.Vec.{splice}
use exim_fuzzer.Tests.Counter.{counter}
use exim_fuzzer.Token.{constant, number, whitespace, text, TokenStream}
use exim_fuzzer.Mutate.Common.{Outcome, Decided, random_range}
use exim_fuzzer.Mutate.Copy.{Copied, mutate_copy, mutate_copy_lem}
use exim_fuzzer.Mutate.Delete.{Deleted, mutate_delete, mutate_delete_lem}
use exim_fuzzer.Mutate.Split.{IsSplit, mutate_split, mutate_split_lem}
use exim_fuzzer.Mutate.Crossover.{Replaced, mutate_crossover_replace, mutate_crossover_replace_lem}
use exim_fuzzer.Mutate.Words.{WordsSwapped, mutate_swap_words, mutate_swap_words_lem}
use exim_fuzzer.Mutate.Flip.Byte.{find_valid_byte, IsNextAllowed, find_valid_byte_lem}

abbrev port : TokenStream
port =
    constant (codes "PORT")
    ∷ whitespace (codes " ")
    ∷ number (codes "12")
    ∷ text (codes ",")
    ∷ number (codes "-3")
    ∷ []

abbrev other : TokenStream
other = text (codes "EHLO") ∷ []

abbrev dict : List Bytes
dict = codes "QUIT" ∷ codes "DATA" ∷ []

mutate_copy_lem_example :
    Ensures
      (Decided (not (length port == 0 || leb 8 (length port))) port (Copied port 8))
      (mutate_copy counter port 8)
mutate_copy_lem_example = mutate_copy_lem counter port 8

mutate_split_lem_example : Ensures (Outcome port (IsSplit port 8)) (mutate_split counter port 8)
mutate_split_lem_example = mutate_split_lem counter port 8

mutate_crossover_replace_lem_example :
    Ensures
      (Decided
        (not (length port == 0 || length other == 0 || leb 8 (length port)))
        port
        (Replaced port other 8))
      (mutate_crossover_replace counter port other 8)
mutate_crossover_replace_lem_example = mutate_crossover_replace_lem counter port other 8

mutate_swap_words_lem_example :
    Ensures (Outcome port (WordsSwapped port)) (mutate_swap_words counter port)
mutate_swap_words_lem_example = mutate_swap_words_lem counter port (omega arith)

mutate_delete_lem_example :
    Ensures (Decided (not (length port == 0)) port (Deleted port)) (mutate_delete counter port)
mutate_delete_lem_example = mutate_delete_lem counter port

find_valid_byte_lem_example : (d : ℕ) × (find_valid_byte 48 ≡ some d) × IsNextAllowed 48 d
find_valid_byte_lem_example = find_valid_byte_lem 48 (omega arith)

-- Runs of single mutators.
deletes :
    mutate_delete counter port 0
    ≡ some ((true, number (codes "12") ∷ text (codes ",") ∷ number (codes "-3") ∷ []), 2)
unfolding mutate_delete random_range ◌>>=◌ debug_assert usize_sub splice
deletes = refl
