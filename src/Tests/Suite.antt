-- ===== src/Tests/Suite.antt =====
-- The repository's own tests with a random source that counts, and a dictionary that keeps its entries;
-- and a client that starts without inputs.
use mathlib.Core.List.{Memᴰ}
use exim_fuzzer.Base.{
  ℕ, ◌<◌, ◌≡◌, ◌^◌, ◌+◌, refl, true, false, none, some, List, [], ◌∷◌, Bytes, codes, length, arith,
  ◌++◌, ◌≤◌,
}
use exim_fuzzer.Campaign.{Input}
use exim_fuzzer.Campaign.Load.{load_inputs, load_inputs_lem}
use exim_fuzzer.Campaign.Seeds.{seeds, seed, seeds_lem}
use exim_fuzzer.Io.{Reply}
use exim_fuzzer.Io.Laws.{Yields, IsSafe}
use exim_fuzzer.Run.Ensures.{Ensures}
use exim_fuzzer.Suite.Mutators.{mutator_tests, test_split}
use exim_fuzzer.Suite.Mutators.Laws.{mutator_tests_lem, test_split_lem}
use exim_fuzzer.Suite.Print.{Prints, IsLine}
use exim_fuzzer.Suite.Rounds.{fuzz_mutators}
use exim_fuzzer.Suite.Rounds.Overflow.{fuzz_mutators-overflow}
use exim_fuzzer.Suite.Rounds.Laws.{fuzz_mutators_lem}
use exim_fuzzer.Suite.Input.{test_txt}
use exim_fuzzer.Buffer.{copy_into}
use exim_fuzzer.Fallible.{checked_sub}
use exim_fuzzer.Input.{convert_to_txt, parse_txt, parse_loop, parse_rest, bytes_eq}
use exim_fuzzer.Token.{whitespace_byte, sign_byte, digit_byte, contains}
use exim_fuzzer.Token.Deserialize.{deserialize_content, parse_ok}
use exim_fuzzer.Token.Parse.{
  from_str, next_token, try_parse_whitespace, prefix_len, try_parse_number, try_parse_text,
  text_ends,
}
use exim_fuzzer.Token.Serialize.{serialize_content}
use exim_fuzzer.Utf8.{is_utf8}
use exim_fuzzer.Vec.{slice}
use exim_fuzzer.Tests.Counter.{counter}
use exim_fuzzer.Token.WellFormed.{All}

abbrev as_given : List Bytes → List Bytes
as_given items = items

nothing_else : (items : List Bytes) (item : Bytes) → Memᴰ item (as_given items) → Memᴰ item items
nothing_else items item m = m

mutator_tests_lem_example : All (Ensures (Prints 64 10)) (mutator_tests counter as_given)
mutator_tests_lem_example = mutator_tests_lem counter as_given nothing_else

test_split_lem_example :
    Ensures
      (λ r. All (IsLine 1024 64) r.0 × (r.1 ≡ length r.0) × (length r.0 ≤ 10))
      (test_split counter)
test_split_lem_example = test_split_lem counter

fuzz_mutators_lem_example : Ensures (λ count. count ≡ 3) (fuzz_mutators counter as_given 3)
fuzz_mutators_lem_example = fuzz_mutators_lem counter as_given nothing_else 3 (omega arith)

fuzz_mutators-overflow_example : fuzz_mutators counter as_given (2 ^ 31) 0 ≡ none
fuzz_mutators-overflow_example = fuzz_mutators-overflow counter as_given (2 ^ 31) (omega arith) 0

-- Quotes, for a text in which nothing is escaped.
abbrev quoted : Bytes → Bytes
quoted text = codes "'" ++ (text ++ codes "'")

seeds_lem_example :
    seeds 1700000000123456789 3
    ≡ some (record {
      state = seed 1700000000123456789 3;
      first_content = seed 1700000000123456789 3;
      second_content = seed 1700000000123456789 3 + 1;
      third_content = seed 1700000000123456789 3 + 2;
      crossover = seed 1700000000123456789 3;
    })
seeds_lem_example = seeds_lem 1700000000123456789 3 (omega arith)

-- A client whose state is its corpus, and two empty directories.
abbrev load_none : List ℕ → Reply (List Input) (Unit {0})
load_none paths corpus = (some tt, corpus)

abbrev push : Input → Reply (List Input) ℕ
push input corpus = (some (length corpus), input ∷ corpus)

abbrev the_corpus : List Input → List Input
the_corpus corpus = corpus

push_lem :
    (input : Input) (client client' : List Input) (id : ℕ)
    → push input client ≡ (some id, client')
    → the_corpus client' ≡ input ∷ the_corpus client
push_lem input client client' id e = cc

load_inputs_lem_example :
    Yields
      (λ _ client'. 0 < length client')
      (load_inputs the_corpus load_none push true (some 0) 1)
      []
    × IsSafe (load_inputs the_corpus load_none push false (some 0) 1)
load_inputs_lem_example = load_inputs_lem the_corpus load_none push push_lem (some 0) 1 [] false

-- The text is printed as it was read.
test_txt_prints : test_txt ≡ some (codes "----------------abc")
unfolding test_txt parse_txt parse_loop parse_rest bytes_eq slice deserialize_content parse_ok
    from_str next_token try_parse_whitespace prefix_len whitespace_byte try_parse_number sign_byte
    digit_byte try_parse_text text_ends contains is_utf8 convert_to_txt serialize_content
    checked_sub copy_into
test_txt_prints = refl
