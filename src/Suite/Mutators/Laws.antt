-- ===== src/Suite/Mutators/Laws.antt =====
-- What the tests of the single mutators print.
use mathlib.Core.List.{Memᴰ}
use exim_fuzzer.Base.{
  ℕ, zero, suc, ◌+◌, ◌≤◌, ◌≡◌, ◌∙◌, subst, Bool, List, [], ◌∷◌, Bytes, codes, arith, length,
  length-append, length-replicate,
}
use exim_fuzzer.Mutate.Keeps.{InOrder, All-Spliced}
use exim_fuzzer.Mutate.Keeps.Each.{
  Keeping, mutate_copy-InOrder, mutate_crossover_insert-InOrder, mutate_crossover_replace-InOrder,
  mutate_delete-InOrder, mutate_flip-InOrder, mutate_interesting-InOrder,
  mutate_random_insert-InOrder, mutate_random_replace-InOrder, mutate_repeat_char-InOrder,
  mutate_repeat_token-InOrder, mutate_special_insert-InOrder, mutate_special_replace-InOrder,
  mutate_split-InOrder, mutate_swap_tokens-InOrder, mutate_swap_words-InOrder,
  mutate_truncate-InOrder, mutate_dict_insert-InOrder, mutate_dict_replace-InOrder,
  mutate_swap_constants-InOrder,
}
use exim_fuzzer.Rand.{Rand}
use exim_fuzzer.Run.{Run}
use exim_fuzzer.Run.Ensures.{
  Ensures, Ensures-pure, Ensures-if, Ensures-bind, Ensures-lift-bind, Ensures-weaken,
}
use exim_fuzzer.Suite.Mutators.{
  port, words, letters, line_buffer, test_on, test_copy, test_delete, test_flip, test_interesting,
  test_random_insert, test_random_replace, test_repeat_token, test_repeat_char, test_special_insert,
  test_special_replace, test_swap_tokens, test_swap_words, test_truncate, test_replace, test_insert,
  print_split, split_mutations, test_split, test_dict_insert, test_dict_replace,
  test_swap_constants, mutator_tests,
}
use exim_fuzzer.Suite.Print.{
  Ascii, add_tokens-Ascii, IsLine, Prints, parse_unwrap-then, print_stream_lem, print_mutations_lem,
}
use exim_fuzzer.Token.{TokenStream, constant}
use exim_fuzzer.Token.Constants.{IsTokenOf}
use exim_fuzzer.Token.Parse.Next.{is_ascii}
use exim_fuzzer.Token.WellFormed.{All, AllBytes, All-append, ◌▸◌}
use exim_fuzzer.Vec.Laws.{insert-inserted, inserted-Spliced, length-Spliced}

length-line_buffer : length line_buffer ≡ 1024
length-line_buffer = length-replicate {A = ℕ} 1024 0

module _ (R : Rand) where
  open R use {State}

  test_on_lem :
      (literal : Bytes) (mutate : TokenStream → Run State (Bool × TokenStream))
      → AllBytes is_ascii literal
      → length literal + 1 ≤ 64
      → ((s : TokenStream) → InOrder Ascii 64 s → Keeping Ascii 64 (mutate s))
      → Ensures (Prints 64 10) (test_on R literal mutate)
  unfolding test_on
  test_on_lem literal mutate a few keeps =
      parse_unwrap-then 64 literal a few
        λ stream ok. print_mutations_lem 64 mutate stream ok keeps 10 line_buffer length-line_buffer

  on_port :
      {mutate : TokenStream → Run State (Bool × TokenStream)}
      → ((s : TokenStream) → InOrder Ascii 64 s → Keeping Ascii 64 (mutate s))
      → Ensures (Prints 64 10) (test_on R port mutate)
  on_port keeps = test_on_lem port _ (ground arith) (omega arith) keeps

  -- One iteration prints a line exactly if it mutates.
  print_split_lem :
      (mutated : Bool) (stream : TokenStream) (buffer : Bytes) (count : ℕ)
      → InOrder Ascii 64 stream
      → length buffer ≡ 1024
      → Ensures
          (λ r.
            All (IsLine 1024 64) r.0
            × (length r.1 ≡ 1024)
            × (r.2 ≡ count + length r.0)
            × (length r.0 ≤ 1))
          (print_split R mutated stream buffer count)
  unfolding print_split
  print_split_lem mutated stream buffer count ok len =
      Ensures-if mutated
        (λ _. Ensures-bind (print_stream_lem 64 stream buffer ok) λ p q.
          Ensures-pure _
            ((subst (λ k. IsLine k 64 p.0) len q.0, tt), q.1 ∙ len, omega arith, omega arith))
        λ _. Ensures-pure _ (tt, len, omega arith, omega arith)

  split_mutations_lem :
      (stream : TokenStream) (n : ℕ) (buffer : Bytes) (count : ℕ)
      → InOrder Ascii 64 stream
      → length buffer ≡ 1024
      → Ensures
          (λ r. All (IsLine 1024 64) r.0 × (r.1 ≡ count + length r.0) × (length r.0 ≤ n))
          (split_mutations R stream n buffer count)
  unfolding split_mutations
  split_mutations_lem stream zero buffer count ok len =
      Ensures-pure _ (tt, omega arith, omega arith)
  split_mutations_lem stream (suc n) buffer count ok len =
      Ensures-bind (mutate_split-InOrder Ascii R 64 stream ok 16 (omega arith)) λ m h.
        Ensures-bind (print_split_lem m.0 m.1 buffer count h len) λ p q.
          Ensures-bind (split_mutations_lem stream n p.1 p.2 ok q.1) λ r l. Ensures-pure _ (
            All-append _ p.0 r.0 q.0 l.0,
            omega (arith, l.1, q.2, length-append p.0 r.0),
            omega (arith, l.2, q.3, length-append p.0 r.0),
          )

  -- The test of `mutate_split` never panics, in any state of the random source. It prints at most ten
  -- lines, each of which is the text of a stream of at most 64 well-formed tokens, cut off at 1024 bytes,
  -- and the count that it prints is the number of these lines.
  pub test_split_lem :
      Ensures
        (λ r. All (IsLine 1024 64) r.0 × (r.1 ≡ length r.0) × (length r.0 ≤ 10))
        (test_split R)
  unfolding test_split
  test_split_lem = parse_unwrap-then 64 words (ground arith) (omega arith) λ stream ok.
      Ensures-weaken (split_mutations_lem stream 10 line_buffer 0 ok length-line_buffer)
        λ r h. (h.0, omega (arith, h.1), h.2)

  test_replace_lem : Ensures (Prints 64 10) (test_replace R)
  unfolding test_replace
  test_replace_lem = parse_unwrap-then 64 words (ground arith) (omega arith) λ stream1 ok1.
      parse_unwrap-then 64 port (ground arith) (omega arith) λ stream2 ok2.
        print_mutations_lem 64 _ stream1 ok1
          (λ s ok. mutate_crossover_replace-InOrder Ascii R 64 s ok 16 (omega arith) stream2 ok2.0)
          10 line_buffer length-line_buffer

  test_insert_lem : Ensures (Prints 64 10) (test_insert R)
  unfolding test_insert
  test_insert_lem = parse_unwrap-then 64 words (ground arith) (omega arith) λ stream1 ok1.
      parse_unwrap-then 64 port (ground arith) (omega arith) λ stream2 ok2.
        print_mutations_lem 64 _ stream1 ok1
          (λ s ok. mutate_crossover_insert-InOrder Ascii R 64 s ok 16 (omega arith) stream2 ok2.0)
          10 line_buffer length-line_buffer

  -- `add_tokens` adds nothing but the entries that it is given.
  module _ (add_tokens : List Bytes → List Bytes)
      (adds : (items : List Bytes) (item : Bytes)
        → Memᴰ item (add_tokens items)
        → Memᴰ item items) where
    known_letters : All Ascii (add_tokens letters)
    known_letters = add_tokens-Ascii add_tokens adds letters (ground arith)

    test_swap_constants_lem : Ensures (Prints 64 10) (test_swap_constants R add_tokens)
    unfolding test_swap_constants
    test_swap_constants_lem =
        parse_unwrap-then 63 (codes " 127,0,0,1,80,80\r\n") (ground arith) (omega arith)
          λ stream ok.
            let command = constant (codes "PORT") in
            let splice = inserted-Spliced stream 0 (command ∷ []) in
            Ensures-lift-bind _ (insert-inserted stream 0 command (omega arith)) (
              print_mutations_lem 64 _ _
                (
                  All-Spliced (IsTokenOf Ascii) splice ok.0 ((tt, ground arith), tt),
                  omega (arith, length-Spliced splice, ok.1),
                )
                (λ s ok. mutate_swap_constants-InOrder Ascii R 64 s ok _ known_letters) 10
                line_buffer length-line_buffer)

    -- Where `add_tokens` adds nothing but the entries that it is given, none of `mutator_tests` ever
    -- panics, in any state of the random source: these are the tests of the mutators of token streams but
    -- that of `mutate_split`. Each prints ten lines, and each line is the text of a stream of at most 64
    -- well-formed tokens, cut off at 1024 bytes.
    pub mutator_tests_lem : All (Ensures (Prints 64 10)) (mutator_tests R add_tokens)
    unfolding test_copy test_delete test_dict_insert test_dict_replace test_flip test_interesting
        test_random_insert test_random_replace test_repeat_token test_repeat_char
        test_special_insert test_special_replace test_swap_tokens test_swap_words test_truncate
    mutator_tests_lem =
        on_port (λ s ok. mutate_copy-InOrder Ascii R 64 s ok 16 (omega arith))
        ▸ test_replace_lem
        ▸ test_insert_lem
        ▸ on_port (mutate_delete-InOrder Ascii R 64)
        ▸ on_port
            (λ s ok. mutate_dict_insert-InOrder Ascii R 64 s ok 16 (omega arith) _ known_letters)
        ▸ on_port (λ s ok. mutate_dict_replace-InOrder Ascii R 64 s ok _ known_letters)
        ▸ on_port (mutate_flip-InOrder Ascii R 64)
        ▸ on_port (mutate_interesting-InOrder Ascii R 64)
        ▸ on_port (λ s ok. mutate_random_insert-InOrder Ascii R 64 s ok 16 (omega arith))
        ▸ on_port (mutate_random_replace-InOrder Ascii R 64)
        ▸ on_port (λ s ok. mutate_repeat_token-InOrder Ascii R 64 s ok 32 (omega arith) 16)
        ▸ on_port (λ s ok. mutate_repeat_char-InOrder Ascii R 64 s ok 16)
        ▸ on_port (mutate_special_insert-InOrder Ascii R 64)
        ▸ on_port (mutate_special_replace-InOrder Ascii R 64)
        ▸ on_port (mutate_swap_tokens-InOrder Ascii R 64)
        ▸ test_swap_constants_lem
        ▸ test_on_lem (codes "1 2 3 4 5 6 7 8 9") _ (ground arith) (omega arith)
            (λ s ok. mutate_swap_words-InOrder Ascii R 64 s ok (omega arith))
        ▸ test_on_lem (codes "here are a couple of words for you") _ (ground arith) (omega arith)
            (mutate_truncate-InOrder Ascii R 64)
        ▸ tt
