-- ===== src/Campaign/Start.antt =====
-- Fuzzing that starts from text files, which `parse_txt` reads.
use exim_fuzzer.Base.{
  ℕ, ◌+◌, ◌≤◌, ◌<◌, ◌^◌, ◌≡◌, sym, ◌∙◌, subst, Option, some, some-injective, List, Bytes, length,
  arith, take, [], ◌∷◌,
}
use exim_fuzzer.Campaign.{Input, Mutates, Fuzzes, mutators}
use exim_fuzzer.Campaign.Keeps.{IsSound, All-weaken}
use exim_fuzzer.Campaign.Reach.{mutators-Fuzzes, Mutated-IsSound}
use exim_fuzzer.Input.{parse_txt}
use exim_fuzzer.Input.Total.{IsRead, AreRead, parse_txt-AreRead}
use exim_fuzzer.Mutate.Keeps.{InOrder}
use exim_fuzzer.Rand.{Rand}
use exim_fuzzer.Run.{Run}
use exim_fuzzer.Run.Ensures.{Ensures}
use exim_fuzzer.Token.{TokenStream, text_of}
use exim_fuzzer.Token.Deserialize.{deserialize_content, deserialize_content-some, stream_packet}
use exim_fuzzer.Token.WellFormed.{All, AllBytes}
use exim_fuzzer.Token.Constants.{Anything, ascii-AllTokensOf, text_of-ascii}
use exim_fuzzer.Token.Parse.Next.{is_ascii}
use exim_fuzzer.Token.RoundTrip.{serialize-reads_back}
use exim_fuzzer.Token.Serialize.{serialize_content}
use exim_fuzzer.Token.Random.Laws.{All-Mem}
use exim_fuzzer.Token.Length.{length-deserialize_content}
use exim_fuzzer.Vec.Laws.{length-part, part}
use mathlib.Core.List.{Memᴰ}

-- What `parse_txt` reads from some text of at most `size` bytes.
abbrev pub IsText : ℕ → Input → Type 0
IsText size input =
    (buf : Bytes) × (length buf ≤ size) × (parse_txt stream_packet buf ≡ some (some input))

All-every : (items : List Bytes) → All Anything items
All-every [] = tt
All-every (item ∷ items) = (tt, All-every items)

-- For a property of constants that all ASCII bytes have.
module _ (C : Bytes → Type 0) (ascii_in : (b : Bytes) → AllBytes is_ascii b → C b) where
  IsRead-InOrder :
      (buf : Bytes) (size : ℕ)
      → length buf ≤ size
      → (ts : TokenStream) → IsRead stream_packet buf ts
      → InOrder C (size + 1) ts
  IsRead-InOrder buf size le ts r =
      let (same, w, a) = deserialize_content-some (part buf r.at) r.reads in
      (
        ascii-AllTokensOf C ascii_in ts w (subst (AllBytes is_ascii) (sym same) a),
        omega (
          arith,
          length-deserialize_content (part buf r.at) r.reads,
          length-part buf r.at r.inside,
          r.inside,
          le,
        ),
      )

  IsText-IsSound :
      (size : ℕ) (input : Input) → IsText size input → IsSound C 0 (size + 1) (size + 1) input
  IsText-IsSound size input (buf, le, e) =
      let (r, e', read) = parse_txt-AreRead stream_packet buf in
      let same : r ≡ some input = some-injective (sym e' ∙ e) in
      let (all, few) : AreRead stream_packet buf (length buf + 1) (some input) =
        subst (AreRead stream_packet buf (length buf + 1)) same read in
      (All-weaken (IsRead-InOrder buf size le) input all, omega arith, omega (arith, few, le))

module _ (state_rand own : Rand) (dict : Option (List Bytes))
    (random_corpus_id : List Input → Run own.State ℕ) (load : List Input → ℕ → Option Input)
    (draws : (corpus : List Input)
      → 0 < length corpus
      → Ensures (λ _. Unit {0}) (random_corpus_id corpus))
    (loads : (corpus : List Input) (id : ℕ) (input : Input)
      → load corpus id ≡ some input
      → Memᴰ input corpus) where
  -- Where all initial inputs are read by `parse_txt` from texts of at most `size` bytes, for a `size` from
  -- 27 up and below 2 ^ 64 - 1, no mutator ever panics, whatever fuzzing does: in every corpus that it
  -- can reach, on every input that a sequence of mutators can make of an input of the corpus, and in
  -- every state of the random sources, each of the ten mutators returns, and what it returns is again
  -- packets of well-formed tokens, at most `size + 1` of each.
  pub mutators-IsText :
      (size : ℕ)
      → 27 ≤ size
      → size + 1 < 2 ^ 64
      → (initial corpus : List Input) → All (IsText size) initial
      → Fuzzes state_rand own dict random_corpus_id load initial corpus
      → (id : ℕ) (from input : Input) → load corpus id ≡ some from
      → Mutates state_rand own dict random_corpus_id load corpus (some id) from input
      → All
          (λ mutate. Ensures (λ r. IsSound Anything 0 (size + 1) (size + 1) r.1) (mutate input))
          (mutators state_rand own dict random_corpus_id load corpus (some id))
  mutators-IsText size large small initial corpus texts =
      mutators-Fuzzes Anything state_rand own dict random_corpus_id load draws loads 0 (size + 1)
        (size + 1) (omega arith) (omega arith) small (omega arith) (λ d _. All-every d) (λ _ _. tt)
        initial corpus (All-weaken (IsText-IsSound Anything (λ _ _. tt) size) initial texts)

  module _ (ascii_dict : (d : List Bytes) → dict ≡ some d → All (AllBytes is_ascii) d) where
    -- Where the entries of the dictionary are ASCII text, and all initial inputs are read by `parse_txt`
    -- from texts of at most `size` bytes, for a `size` from 27 up and below 2 ^ 64 - 1, every packet that
    -- fuzzing can make round-trips through its text: take any packet of any input that a sequence of
    -- mutators can make of an input of a corpus that fuzzing can reach. `serialize_content` writes it to
    -- any buffer that has room for its text without a panic, and `deserialize_content` reads the bytes
    -- written as a stream with the same text.
    pub Mutates-reads_back :
        (size : ℕ)
        → 27 ≤ size
        → size + 1 < 2 ^ 64
        → (initial corpus : List Input) → All (IsText size) initial
        → Fuzzes state_rand own dict random_corpus_id load initial corpus
        → (id : ℕ) (from input : Input) → load corpus id ≡ some from
        → Mutates state_rand own dict random_corpus_id load corpus (some id) from input
        → (packet : TokenStream) → Memᴰ packet input
        → (buffer : Bytes) → length (text_of packet) ≤ length buffer
        → (n : ℕ) × (buffer' : Bytes) × (ts : TokenStream) × (serialize_content packet buffer
            ≡ some (n, buffer'))
          × (deserialize_content (take n buffer') ≡ some ts)
          × (text_of ts ≡ text_of packet)
    Mutates-reads_back size large small initial corpus texts f id from input e m packet p buffer
          room =
        let Ascii = AllBytes is_ascii in
        let sound =
          Mutated-IsSound Ascii state_rand own dict random_corpus_id load draws loads 0 (size + 1)
            (size + 1) (omega arith) (omega arith) small (omega arith) ascii_dict (λ _ a. a) initial
            corpus (All-weaken (IsText-IsSound Ascii (λ _ a. a) size) initial texts) f id from input
            e m in
        let good = All-Mem (InOrder Ascii (size + 1)) packet input sound.0 p in
        serialize-reads_back packet buffer (text_of-ascii packet good.0) room
