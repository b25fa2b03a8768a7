-- ===== src/Tests/Fuzzing.antt =====
-- A corpus of one input, and a step of fuzzing from it.
use exim_fuzzer.Base.{
  ℕ, ◌≡◌, ◌<◌, ◌≤◌, refl, Option, some, List, [], ◌∷◌, Bytes, codes, arith, get_elem?,
  get_elem?-Mem, length, subst, some-injective, replicate, take,
}
use exim_fuzzer.Campaign.{Input, unchanged, mutates, Fuzzes, loaded, added, mutators, on_state}
use exim_fuzzer.Campaign.Keeps.{IsSound}
use exim_fuzzer.Campaign.Reach.{Fuzzes-IsSound, mutators-Fuzzes}
use exim_fuzzer.Mutators.Copy.{packet_copy}
use exim_fuzzer.Mutators.Outcome.{mutated}
use exim_fuzzer.Mutators.Token.{ok}
use exim_fuzzer.Run.{Run, pure, ◌>>=◌, usize_sub, on_left}
use exim_fuzzer.Run.Ensures.{Ensures, Ensures-pure}
use exim_fuzzer.Tests.Counter.{counter}
use exim_fuzzer.Token.{
  whitespace_byte, sign_byte, digit_byte, TokenStream, text, text_of, verify_text_byte, contains,
}
use exim_fuzzer.Token.Generate.Laws.{generate_packets_lem}
use exim_fuzzer.Token.Generate.{generate_packets}
use exim_fuzzer.Mutate.Keeps.{InOrder}
use exim_fuzzer.Token.WellFormed.{All, AllBytes}
use exim_fuzzer.Token.Constants.{Anything}
use exim_fuzzer.Token.Parse.Next.{is_ascii}
use exim_fuzzer.Token.Serialize.{serialize_content}
use exim_fuzzer.Vec.{insert, slice}
use exim_fuzzer.Campaign.Start.{IsText, Mutates-reads_back, mutators-IsText}
use exim_fuzzer.Input.{parse_txt, parse_loop, parse_rest, bytes_eq}
use exim_fuzzer.Token.Deserialize.{deserialize_content, parse_ok}
use exim_fuzzer.Token.Parse.{
  from_str, next_token, try_parse_whitespace, prefix_len, try_parse_number, try_parse_text,
  text_ends,
}
use exim_fuzzer.Utf8.{is_utf8}
use mathlib.Core.List.{Memᴰ}

abbrev ehlo : TokenStream
ehlo = text (codes "EHLO") ∷ []

abbrev initial : List Input
initial = (ehlo ∷ []) ∷ []

abbrev dict : Option (List Bytes)
dict = some (codes "QUIT" ∷ [])

abbrev first_id : List Input → Run ℕ ℕ
first_id _ = pure 0

initial-IsSound : All (IsSound Anything 1 28 19) initial
unfolding verify_text_byte contains
initial-IsSound = ground arith

draws : (corpus : List Input) → 0 < length corpus → Ensures (λ _. Unit {0}) (first_id corpus)
draws corpus _ = Ensures-pure 0 tt

loads :
    (corpus : List Input) (id : ℕ) (input : Input)
    → get_elem? corpus id ≡ some input
    → Memᴰ input corpus
loads corpus id input e = get_elem?-Mem corpus id e

-- The packet is copied, and the input with two packets is added.
abbrev grown : List Input
grown = (ehlo ∷ ehlo ∷ []) ∷ initial

known : (d : List Bytes) → dict ≡ some d → All Anything d
known d e = subst (All Anything) (some-injective e) (tt, tt)

ascii_dict : (d : List Bytes) → dict ≡ some d → All (AllBytes is_ascii) d
ascii_dict d e = subst (All (AllBytes is_ascii)) (some-injective e) (ground arith)

grown-Fuzzes : Fuzzes counter counter dict first_id get_elem? initial grown
unfolding mutators packet_copy on_state ◌>>=◌ usize_sub on_left insert
grown-Fuzzes = added loaded 0 (ehlo ∷ []) (ehlo ∷ ehlo ∷ []) refl (
    mutates unchanged 0 (on_state counter counter dict first_id get_elem? (packet_copy counter 16))
      refl (0, 0) (2, 0) (ok mutated) refl)

Fuzzes-IsSound_example : All (IsSound Anything 1 28 19) grown
Fuzzes-IsSound_example =
    Fuzzes-IsSound Anything counter counter dict first_id get_elem? draws loads 1 28 19
      (omega arith) (omega arith) (omega arith) (omega arith) known (λ _ _. tt) initial grown
      initial-IsSound grown-Fuzzes

mutators-Fuzzes_example :
    All
      (λ mutate. Ensures (λ r. IsSound Anything 1 28 19 r.1) (mutate (ehlo ∷ ehlo ∷ [])))
      (mutators counter counter dict first_id get_elem? grown (some 0))
mutators-Fuzzes_example =
    mutators-Fuzzes Anything counter counter dict first_id get_elem? draws loads 1 28 19
      (omega arith) (omega arith) (omega arith) (omega arith) known (λ _ _. tt) initial grown
      initial-IsSound grown-Fuzzes 0 (ehlo ∷ ehlo ∷ []) (ehlo ∷ ehlo ∷ []) refl unchanged

-- The same input, read from a text.
initial-IsText : All (IsText 27) initial
unfolding parse_txt parse_loop parse_rest bytes_eq slice deserialize_content parse_ok from_str
    next_token try_parse_whitespace prefix_len whitespace_byte try_parse_number sign_byte digit_byte
    try_parse_text text_ends contains is_utf8
initial-IsText = ((codes "EHLO", omega arith, refl), tt)

mutators-IsText_example :
    All
      (λ mutate. Ensures (λ r. IsSound Anything 0 28 28 r.1) (mutate (ehlo ∷ ehlo ∷ [])))
      (mutators counter counter dict first_id get_elem? grown (some 0))
mutators-IsText_example =
    mutators-IsText counter counter dict first_id get_elem? draws loads 27 (omega arith)
      (omega arith) initial grown initial-IsText grown-Fuzzes 0 (ehlo ∷ ehlo ∷ [])
      (ehlo ∷ ehlo ∷ []) refl unchanged

Mutates-reads_back_example :
    (n : ℕ) × (buffer' : Bytes) × (ts : TokenStream) × (serialize_content ehlo (replicate 8 0)
      ≡ some (n, buffer'))
    × (deserialize_content (take n buffer') ≡ some ts)
    × (text_of ts ≡ text_of ehlo)
Mutates-reads_back_example =
    Mutates-reads_back counter counter dict first_id get_elem? draws loads ascii_dict 27
      (omega arith) (omega arith) initial grown initial-IsText grown-Fuzzes 0 (ehlo ∷ ehlo ∷ [])
      (ehlo ∷ ehlo ∷ []) refl unchanged ehlo (Memᴰ.head refl) (replicate 8 0) (omega arith)

generate_packets_lem_example :
    Ensures
      (λ ps. All (InOrder Anything 28) ps × (1 ≤ length ps) × (length ps ≤ 4))
      (generate_packets counter)
generate_packets_lem_example = generate_packets_lem Anything counter (λ _ _. tt)
