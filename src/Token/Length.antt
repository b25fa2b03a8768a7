-- ===== src/Token/Length.antt =====
-- The number of tokens that `from_str` reads from a text, for fuzzer/src/tokens/tokenstream.rs.
use exim_fuzzer.Base.{
  zero, suc, drop, ◌+◌, ◌≤◌, ◌≡◌, ℕ, refl, ap, Option, none, some, some-injective, [], ◌∷◌, ◌++◌,
  Bytes, ltb, length, length-append, get_elem?, arith, Bool-cases, Option-cases, inl, inr,
}
use exim_fuzzer.Token.{TokenStream}
use exim_fuzzer.Token.Deserialize.{deserialize_content, parse_ok}
use exim_fuzzer.Token.Parse.{ParseResult, ok, err, next_token, from_str_loop, from_str}
use exim_fuzzer.Utf8.{is_utf8}

-- One token at most in each round of the loop.
length-from_str_loop :
    (fuel : ℕ) (s : Bytes) (cursor : ℕ) (stream : TokenStream) {ts : TokenStream}
    → from_str_loop fuel s cursor stream ≡ some (ok ts)
    → length ts ≤ length stream + fuel
unfolding from_str_loop
length-from_str_loop zero s cursor stream e = cc
length-from_str_loop (suc fuel) s cursor stream {ts} e = elim (Bool-cases (ltb cursor (length s))) [
  | inr end ↦
      let f : some (ok stream) ≡ some (ok ts) = rw end at e in
      let same : stream ≡ ts = cc in omega (arith, ap length same)
  | inl more ↦ elim (Option-cases (next_token (drop cursor s))) [
    | inr (t, found) ↦
        let rest = length-from_str_loop fuel s _ (stream ++ t ∷ []) (rw (more, found) at e) in
        omega (arith, rest, length-append stream (t ∷ []))
    | inl nothing ↦ elim (Option-cases (get_elem? s cursor)) [
      | inl out ↦ let f : none ≡ some (ok ts) = rw (more, nothing, out) at e in cc
      | inr (b, at) ↦ let f : some (err b) ≡ some (ok ts) = rw (more, nothing, at) at e in cc
    ]
  ]
]

pub length-parse_ok :
    (s : Bytes) {ts : TokenStream} → parse_ok (from_str s) ≡ some ts → length ts ≤ length s + 1
unfolding parse_ok from_str
length-parse_ok s {ts} e = go (from_str s) refl e
  where
    go : (r : Option ParseResult) → from_str s ≡ r → parse_ok r ≡ some ts → length ts ≤ length s + 1
    go none q f = cc
    go (some (err b)) q f = cc
    go (some (ok us)) q f =
        omega (arith, length-from_str_loop (length s + 1) s 0 [] q, ap length (some-injective f))

pub length-deserialize_content :
    (s : Bytes) {ts : TokenStream} → deserialize_content s ≡ some ts → length ts ≤ length s + 1
unfolding deserialize_content
length-deserialize_content s {ts} e = elim (Bool-cases (is_utf8 s)) [
  | inl t ↦ length-parse_ok s (rw t at e)
  | inr f ↦ let g : none ≡ some ts = rw f at e in cc
]
