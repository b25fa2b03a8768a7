-- ===== src/Token/Generate/Laws.antt =====
-- What the generators of packets promise.
use exim_fuzzer.Base.{
  sym, subst, ℕ, zero, suc, ◌+◌, ◌≤◌, ◌≡◌, refl, Bool, true, false, ◌&&◌, ◌==◌, none, some, List,
  [], ◌∷◌, ◌++◌, Bytes, leb, length, get_elem?-total, length-append, arith, Option-cases, inl, inr,
}
use exim_fuzzer.Rand.{Rand}
use exim_fuzzer.Rand.Rules.{Ensures-between}
use exim_fuzzer.Run.{Run}
use exim_fuzzer.Run.Ensures.{
  Ensures, Ensures-pure, Ensures-if, Ensures-bind, Ensures-lift, Ensures-lift-bind, Ensures-weaken,
}
use exim_fuzzer.Token.{TextToken, TokenStream, whitespace_byte, sign_byte, digit_byte, contains}
use exim_fuzzer.Mutate.Keeps.{InOrder, Random-IsTokenOf}
use exim_fuzzer.Token.Deserialize.{parse_ok, parse_ok-Parsed}
use exim_fuzzer.Token.Generate.{
  commands, push_parsed, packet_token, push_tokens, create_random_packet, generate_packets,
}
use exim_fuzzer.Token.Parse.{
  from_str, next_token, try_parse_whitespace, prefix_len, try_parse_number, try_parse_text,
  text_ends,
}
use exim_fuzzer.Token.Parse.Total.{from_str-Parsed}
use exim_fuzzer.Token.Random.Laws.{
  IsRandomToken, random_whitespace_lem, random_number_lem, random_text_lem,
}
use exim_fuzzer.Token.WellFormed.{All, All-append, All-get_elem?, AllBytes}
use exim_fuzzer.Token.Constants.{IsTokenOf, AllTokensOf, ascii-AllTokensOf}
use exim_fuzzer.Token.Parse.Next.{is_ascii}

-- Every line is accepted by `parse`, with at most 28 tokens.
abbrev all_accepted : List Bytes → Bool
all_accepted [] = true
all_accepted (line ∷ lines) =
    elim (parse_ok (from_str line)) [ none ↦ false | some ts ↦ leb (length ts) 28 ]
    && all_accepted lines

-- One to four lines, all accepted.
abbrev IsCommand : List Bytes → Type 0
IsCommand lines =
    (leb 1 (length lines) ≡ true) × (leb (length lines) 4 ≡ true) × (all_accepted lines ≡ true)

commands-IsCommand : All IsCommand commands
unfolding commands from_str next_token try_parse_whitespace prefix_len whitespace_byte
    try_parse_number sign_byte digit_byte try_parse_text text_ends contains parse_ok
commands-IsCommand = ground arith

length-commands : length commands ≡ 18
unfolding commands
length-commands = refl

-- The `unwrap` of each `parse` succeeds.
push_parsed_lem :
    (C : Bytes → Type 0)
    → ((b : Bytes) → AllBytes is_ascii b → C b)
    → (lines : List Bytes) → all_accepted lines ≡ true
    → (ps : List TokenStream) × (push_parsed lines ≡ some ps)
      × All (InOrder C 28) ps
      × (length ps ≡ length lines)
unfolding push_parsed
push_parsed_lem C ascii_in [] h = ([], refl, tt, refl)
push_parsed_lem C ascii_in (line ∷ lines) h = elim (Option-cases (parse_ok (from_str line))) [
  | inl e ↦ cc (rw e at h)
  | inr (ts, e) ↦
      let h' : (leb (length ts) 28 && all_accepted lines) ≡ true = rw e at h in
      let (ps, pushed, good, len) = push_parsed_lem C ascii_in lines (ground arith) in
      let (same, w, a) = parse_ok-Parsed line (from_str line) (from_str-Parsed line) e in
      (
        ts ∷ ps,
        rw (e, pushed),
        (
          (
            ascii-AllTokensOf C ascii_in ts w (subst (AllBytes is_ascii) (sym same) a),
            ground arith,
          ),
          good,
        ),
        omega (arith, len),
      )
]

module _ (C : Bytes → Type 0) (R : Rand) where
  open R use {State, between}

  packet_token_lem : Ensures (IsTokenOf C) (packet_token R)
  unfolding packet_token
  packet_token_lem = Ensures-between R 0 2 (omega arith) λ k h.
      Ensures-if (k == 0) (λ _. token_of (random_text_lem R 1 8 (omega arith) (omega arith)))
        λ not_0.
          Ensures-if (k == 1)
            (λ _. token_of (random_whitespace_lem R 1 4 (omega arith) (omega arith)))
            λ not_1.
              Ensures-if (k == 2) (λ _. token_of (random_number_lem R 8 (omega arith)))
                λ not_2. absurd (ground arith)
    where
      token_of :
          {lo hi : ℕ} {m : Run State TextToken}
          → Ensures (IsRandomToken lo hi) m
          → Ensures (IsTokenOf C) m
      token_of m = Ensures-weaken m λ t r. Random-IsTokenOf C r

  push_tokens_lem :
      (n : ℕ) (tokens : TokenStream)
      → AllTokensOf C tokens
      → Ensures (λ ts. AllTokensOf C ts × (length ts ≡ length tokens + n)) (push_tokens R n tokens)
  unfolding push_tokens
  push_tokens_lem zero tokens w = Ensures-pure _ (w, omega arith)
  push_tokens_lem (suc n) tokens w = Ensures-bind packet_token_lem λ t h.
      Ensures-weaken
        (push_tokens_lem n (tokens ++ t ∷ []) (All-append (IsTokenOf C) tokens (t ∷ []) w (h, tt)))
        λ ts r. (r.0, omega (arith, r.1, length-append tokens (t ∷ [])))

  -- `create_random_packet` never panics, and returns a stream of one to sixteen well-formed tokens,
  -- whose constants have any property.
  pub create_random_packet_lem :
      Ensures (λ ts. InOrder C 16 ts × (1 ≤ length ts)) (create_random_packet R)
  unfolding create_random_packet
  create_random_packet_lem = Ensures-between R 0 15 (omega arith) λ more h.
      Ensures-weaken (push_tokens_lem (1 + more) [] tt)
        λ ts r. ((r.0, omega (arith, r.1)), omega (arith, r.1))

  -- `generate_packets` never panics: no `unwrap` of a parsed literal fails. It returns one to four
  -- packets, each a stream of at most 28 well-formed tokens, whose constants have any property `C` that all
  -- ASCII bytes have.
  pub generate_packets_lem :
      ((b : Bytes) → AllBytes is_ascii b → C b)
      → Ensures
          (λ ps. All (InOrder C 28) ps × (1 ≤ length ps) × (length ps ≤ 4))
          (generate_packets R)
  unfolding generate_packets
  generate_packets_lem ascii_in = Ensures-between R 0 17 (omega arith) λ k h.
      let (lines, e) = get_elem?-total commands k (omega (arith, length-commands)) in
      let (one, four, all) = All-get_elem? IsCommand commands k commands-IsCommand e in
      let (ps, pushed, good, len) = push_parsed_lem C ascii_in lines all in
      Ensures-lift-bind _ e
        (Ensures-lift ps pushed (good, ground (arith, len), ground (arith, len)))
