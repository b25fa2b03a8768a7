-- ===== src/Token/Parse/Total.antt =====
-- `from_str` ends on every input, loses no byte, and refuses exactly what is not ASCII.
use exim_fuzzer.Base.{
  ℕ, zero, suc, ◌+◌, ◌<◌, ◌≡◌, refl, sym, ap, ◌∙◌, true, false, Option, none, some, [], ◌∷◌, ◌++◌,
  leb, ltb, append-nil, append_assoc, Bytes, length, drop, arith, subst, ltb_irrefl, get_elem?,
  Option-cases, inl, inr, length-append, drop-length-append, get_elem?-length-append, lt→ltb,
}
use exim_fuzzer.Token.{TextToken, TokenStream, bytes_of, token_len, text_of}
use exim_fuzzer.Token.WellFormed.{AllBytes, All-append, All-append_right, AllWellFormed}
use exim_fuzzer.Token.Parse.{ParseResult, ok, err, next_token, from_str_loop, from_str}
use exim_fuzzer.Token.Parse.Next.{is_ascii, Reads, next_token-Next}

-- `b` is the first byte of `s` above 127.
pub record FirstHigh (s : Bytes) (b : ℕ) : Type 0 where
  pub before : Bytes
  pub after : Bytes
  pub splits : s ≡ before ++ (b ∷ after)
  pub ascii : AllBytes is_ascii before
  pub high : leb 128 b ≡ true

-- What `from_str` may return: a stream of well-formed tokens whose text is the input, which is
-- ASCII then, or the first byte of the input that is not.
abbrev pub Parsed : Bytes → Option ParseResult → Type 0
Parsed s none = ⊥
Parsed s (some (ok ts)) = (text_of ts ≡ s) × AllWellFormed ts × AllBytes is_ascii s
Parsed s (some (err b)) = FirstHigh s b

pub text_of-append : (ts us : TokenStream) → text_of (ts ++ us) ≡ text_of ts ++ text_of us
text_of-append [] us = refl
text_of-append (t ∷ ts) us =
    ap (λ r. bytes_of t ++ r) (text_of-append ts us) ∙ sym (append_assoc (bytes_of t) _ _)

text_of-snoc :
    (ts : TokenStream) (t : TextToken) → text_of (ts ++ t ∷ []) ≡ text_of ts ++ bytes_of t
text_of-snoc ts t = text_of-append ts (t ∷ []) ∙ ap (λ r. text_of ts ++ r) (append-nil (bytes_of t))

module _ (s : Bytes) where
  -- The loop at a cursor behind which `rem` is left.
  from_str_loop-Parsed :
      (fuel : ℕ) (cursor : ℕ) (stream : TokenStream) (rem : Bytes)
      → s ≡ text_of stream ++ rem
      → cursor ≡ length (text_of stream)
      → length rem < fuel
      → AllWellFormed stream
      → AllBytes is_ascii (text_of stream)
      → Parsed s (from_str_loop fuel s cursor stream)
  unfolding from_str_loop
  from_str_loop-Parsed zero cursor stream rem es ec h w a = absurd (omega arith)
  from_str_loop-Parsed (suc fuel) cursor stream [] es ec h w a =
      let e : s ≡ text_of stream = es ∙ append-nil (text_of stream) in
      let done : ltb cursor (length s) ≡ false =
        rw (ec, e) (ltb_irrefl (length (text_of stream))) in
      rw done (sym e, w, rw e a)
  from_str_loop-Parsed (suc fuel) cursor stream (b ∷ rem) es ec h w a =
      let more : ltb cursor (length s) ≡ true =
        lt→ltb _ _ (omega (arith, ap length es, length-append (text_of stream) (b ∷ rem))) in
      let here : drop cursor s ≡ b ∷ rem =
        rw (es, ec) (drop-length-append (text_of stream) (b ∷ rem)) in
      let at : get_elem? s cursor ≡ some b =
        rw (es, ec) (get_elem?-length-append (text_of stream) b rem) in
      rw (more, here)
        (elim (Option-cases (next_token (b ∷ rem))) [
          | inl e ↦
              rw (e, at)
                (record {
                  before = text_of stream;
                  after = rem;
                  splits = es;
                  ascii = a;
                  high = rw e at (next_token-Next (b ∷ rem));
                })
          | inr (t, e) ↦
              let r : Reads (b ∷ rem) t = rw e at (next_token-Next (b ∷ rem)) in
              rw e (
                from_str_loop-Parsed fuel (cursor + token_len t) (stream ++ t ∷ []) r.rest
                  (es
                    ∙ ap (λ x. text_of stream ++ x) r.splits
                    ∙ sym (append_assoc (text_of stream) (bytes_of t) r.rest)
                    ∙ ap (λ x. x ++ r.rest) (sym (text_of-snoc stream t)))
                  (omega (
                    arith,
                    ec,
                    ap length (text_of-snoc stream t),
                    length-append (text_of stream) (bytes_of t),
                  ))
                  (omega
                    (arith, ap length r.splits, length-append (bytes_of t) r.rest, r.not_empty))
                  (All-append _ stream (t ∷ []) w (r.well_formed, tt))
                  (rw text_of-snoc (All-append _ (text_of stream) (bytes_of t) a r.ascii)))
        ])

-- `from_str` ends with the fuel of one round for each byte, without a panic. If it returns a
-- stream, the input is ASCII, the stream's text is the input, and every token is well-formed; if it
-- returns an error, this is the first byte of the input above 127.
pub from_str-Parsed : (s : Bytes) → Parsed s (from_str s)
unfolding from_str
from_str-Parsed s = from_str_loop-Parsed s (length s + 1) 0 [] s refl refl (omega arith) tt tt

ascii_no_high : (s : Bytes) (b : ℕ) → AllBytes is_ascii s → ¬ FirstHigh s b
ascii_no_high s b a f =
    let h = All-append_right _ f.before (b ∷ f.after) (subst (AllBytes is_ascii) f.splits a) in
    ground (arith, h.0, f.high)

-- Every ASCII text is accepted.
pub from_str_ascii :
    (s : Bytes)
    → AllBytes is_ascii s
    → (ts : TokenStream) × (from_str s ≡ some (ok ts)) × (text_of ts ≡ s) × AllWellFormed ts
from_str_ascii s a = go (from_str s) refl (from_str-Parsed s)
  where
    go :
        (r : Option ParseResult)
        → from_str s ≡ r
        → Parsed s r
        → (ts : TokenStream) × (from_str s ≡ some (ok ts)) × (text_of ts ≡ s) × AllWellFormed ts
    go none e h = absurd h
    go (some (err b)) e h = absurd (ascii_no_high s b a h)
    go (some (ok ts)) e h = (ts, e, h.0, h.1)
