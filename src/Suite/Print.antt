-- ===== src/Suite/Print.antt =====
-- The loop that the tests in fuzzer/src/tokens/mutators have in common: mutate a clone of a stream,
-- serialise it to a buffer and print what is written as text. What is printed is the result;
-- `println!` itself is not modelled.
use mathlib.Core.List.{Memᴰ}
use exim_fuzzer.Token.Random.Laws.{All-Mem}
use exim_fuzzer.Base.{
  ℕ, zero, suc, ◌≤◌, ◌+◌, ◌-◌, ◌≡◌, refl, sym, ap, ◌∙◌, subst, Bool, true, some, List, [], ◌∷◌,
  Bytes, length, take, min, take-all, leb, le→leb, arith, if◌then◌else◌,
}
use exim_fuzzer.Buffer.{overwrite}
use exim_fuzzer.Buffer.Laws.{length-overwrite}
use exim_fuzzer.Mutate.Keeps.{InOrder}
use exim_fuzzer.Mutate.Keeps.Each.{Keeping}
use exim_fuzzer.Run.{Run, pure, panic, lift, ◌>>=◌}
use exim_fuzzer.Run.Ensures.{Ensures, Ensures-pure, Ensures-bind, Ensures-lift-bind}
use exim_fuzzer.Token.{TokenStream, text_of}
use exim_fuzzer.Token.Constants.{ascii-AllTokensOf, text_of-ascii}
use exim_fuzzer.Token.Deserialize.{parse_ok}
use exim_fuzzer.Token.Length.{length-parse_ok}
use exim_fuzzer.Token.Parse.{from_str}
use exim_fuzzer.Token.Parse.Next.{is_ascii}
use exim_fuzzer.Token.Parse.Total.{from_str_ascii}
use exim_fuzzer.Token.RoundTrip.{take-overwrite}
use exim_fuzzer.Token.Serialize.{serialize_content, serialize_content_lem}
use exim_fuzzer.Token.WellFormed.{All, AllBytes, All-take}
use exim_fuzzer.Utf8.{is_utf8, is_utf8-ascii}
use exim_fuzzer.Vec.{slice, range}

module _ {S : Type 0} where
  -- `literal.parse::<TokenStream>().unwrap()`
  unfoldable pub parse_unwrap : Bytes → Run S TokenStream
  parse_unwrap literal = lift (parse_ok (from_str literal))

  -- `std::str::from_utf8(bytes).unwrap()`
  unfoldable pub from_utf8_unwrap : Bytes → Run S Bytes
  from_utf8_unwrap bytes = if is_utf8 bytes then pure bytes else panic

  -- The line that is printed, and the buffer after it.
  unfoldable pub print_stream : TokenStream → Bytes → Run S (Bytes × Bytes)
  unfolding from_utf8_unwrap
  print_stream stream buffer = do
    written ← lift (serialize_content stream buffer)
    line ← lift (slice written.1 (range 0 written.0))
    s ← from_utf8_unwrap line
    pure (s, written.1)

  -- The `for` loop, over `n` clones of the stream.
  unfoldable pub print_mutations :
      (TokenStream → Run S (Bool × TokenStream)) → TokenStream → ℕ → Bytes → Run S (List Bytes)
  unfolding print_stream
  print_mutations mutate stream zero buffer = pure []
  print_mutations mutate stream (suc n) buffer = do
    mutated ← mutate stream
    printed ← print_stream mutated.1 buffer
    lines ← print_mutations mutate stream n printed.1
    pure (printed.0 ∷ lines)

-- Streams of the tests have ASCII text.
abbrev pub Ascii : Bytes → Type 0
Ascii = AllBytes is_ascii

-- What `Tokens::add_tokens` of libafl makes of a list of entries: it adds nothing but these.
module _ (add_tokens : List Bytes → List Bytes)
    (adds : (items : List Bytes) (item : Bytes)
      → Memᴰ item (add_tokens items)
      → Memᴰ item items) where
  pub add_tokens-Ascii : (items : List Bytes) → All Ascii items → All Ascii (add_tokens items)
  add_tokens-Ascii items h = all (add_tokens items) (λ item m. m)
    where
      all :
          (rest : List Bytes)
          → ((item : Bytes) → Memᴰ item rest → Memᴰ item (add_tokens items))
          → All Ascii rest
      all [] f = tt
      all (item ∷ rest) f = (
        All-Mem Ascii item items h (adds items item (f item (Memᴰ.head refl))),
        all rest (λ i m. f i (Memᴰ.tail m)),
      )

-- A line is what fits into the buffer of the text of a stream in order.
abbrev pub IsLine : ℕ → ℕ → Bytes → Type 0
IsLine size limit line =
    (stream : TokenStream) × InOrder Ascii limit stream × (line ≡ take size (text_of stream))

-- A test prints `count` lines.
abbrev pub Prints : ℕ → ℕ → List Bytes → Type 0
Prints limit count lines = (length lines ≡ count) × All (IsLine 1024 limit) lines

take-min : (b : Bytes) (n : ℕ) → take (min n (length b)) b ≡ take n b
take-min [] n = let e : min n 0 ≡ 0 = omega arith in rw e (sym (take-all [] n (omega arith)))
take-min (x ∷ b) zero = let e : min 0 (suc (length b)) ≡ 0 = omega arith in rw e refl
take-min (x ∷ b) (suc n) =
    let e : min (suc n) (suc (length b)) ≡ suc (min n (length b)) = omega arith in
    rw e (ap (◌∷◌ x) (take-min b n))

pub from_utf8_unwrap_lem :
    {S : Type 0} (b : Bytes)
    → AllBytes is_ascii b
    → Ensures {S = S} (λ line. line ≡ b) (from_utf8_unwrap b)
unfolding from_utf8_unwrap
from_utf8_unwrap_lem b a = rw (is_utf8-ascii b a) (Ensures-pure b refl)

module _ {S : Type 0} (limit : ℕ) where
  -- A literal of ASCII text is parsed, to at most one token more than it has bytes.
  pub parse_unwrap-then :
      {A : Type 0} {Q : A → Type 0} {f : TokenStream → Run S A} (literal : Bytes)
      → AllBytes is_ascii literal
      → length literal + 1 ≤ limit
      → ((stream : TokenStream) → InOrder Ascii limit stream → Ensures Q (f stream))
      → Ensures Q (parse_unwrap literal >>= f)
  unfolding parse_unwrap parse_ok
  parse_unwrap-then literal a few k =
      let (ts, e, same, w) = from_str_ascii literal a in
      let parsed : parse_ok (from_str literal) ≡ some ts = rw e refl in
      Ensures-lift-bind _ parsed (
        k ts (
          ascii-AllTokensOf Ascii (λ _ b. b) ts w (subst (AllBytes is_ascii) (sym same) a),
          omega (arith, length-parse_ok literal parsed, few),
        ))

  -- What is printed is text, whatever the buffer cuts off.
  pub print_stream_lem :
      (stream : TokenStream) (buffer : Bytes)
      → InOrder Ascii limit stream
      → Ensures {S = S}
          (λ r. IsLine (length buffer) limit r.0 × (length r.1 ≡ length buffer))
          (print_stream stream buffer)
  unfolding print_stream slice
  print_stream_lem stream buffer ok =
      let s = text_of stream in
      let n = min (length buffer) (length s) in
      let cut : take (n - 0) (overwrite buffer s) ≡ take (length buffer) s =
        ap (λ k. take k (overwrite buffer s)) (omega arith)
        ∙ take-overwrite buffer s
        ∙ take-min s (length buffer) in
      let from : leb 0 n ≡ true = le→leb _ _ (omega arith) in
      let inside : leb n (length (overwrite buffer s)) ≡ true =
        le→leb _ _ (omega (arith, length-overwrite buffer s)) in
      let a : AllBytes is_ascii (take (length buffer) s) =
        All-take _ (length buffer) s (text_of-ascii stream ok.0) in
      Ensures-lift-bind _ (serialize_content_lem stream buffer) (
        Ensures-lift-bind _ (rw (from, inside) (ap some cut)) (
          Ensures-bind (from_utf8_unwrap_lem (take (length buffer) s) a)
            λ line e. Ensures-pure _ ((stream, ok, e), length-overwrite buffer s)))

  pub print_mutations_lem :
      (mutate : TokenStream → Run S (Bool × TokenStream)) (stream : TokenStream)
      → InOrder Ascii limit stream
      → ((s : TokenStream) → InOrder Ascii limit s → Keeping Ascii limit (mutate s))
      → (n : ℕ) (buffer : Bytes) → length buffer ≡ 1024
      → Ensures (Prints limit n) (print_mutations mutate stream n buffer)
  unfolding print_mutations
  print_mutations_lem mutate stream ok keeps zero buffer len = Ensures-pure _ (refl, tt)
  print_mutations_lem mutate stream ok keeps (suc n) buffer len =
      Ensures-bind (keeps stream ok) λ r h. Ensures-bind (print_stream_lem r.1 buffer h) λ p q.
        Ensures-bind (print_mutations_lem mutate stream ok keeps n p.1 (q.1 ∙ len))
          λ lines l. Ensures-pure _ (ap suc l.0, (subst (λ k. IsLine k limit p.0) len q.0, l.1))
