-- ===== src/Token/Parse.antt =====
-- fuzzer/src/tokens/tokenstream.rs: the three `try_parse_*` functions, the parser `from_str` and the
-- text form of a token stream. A slice `&data[n..]` is `drop n data`; every such n is at most the
-- length of the slice.
pub mod Next
pub mod Total
use exim_fuzzer.Base.{
  ℕ, zero, suc, ◌+◌, Bool, ◌&&◌, ◌||◌, Option, none, some, List, [], ◌∷◌, ◌++◌, ltb, leb, ◌==◌,
  if◌then◌else◌, Bytes, length, get_elem?, take, drop,
}
use exim_fuzzer.Token.{
  TextToken, number, whitespace, text, TokenStream, token_len, whitespace_byte, digit_byte,
  sign_byte, contains,
}

-- `Result<TokenStream, u8>`
pub data ParseResult : Type 0 where
  ok : TokenStream → ParseResult
  err : ℕ → ParseResult

-- The loops that count bytes up to the first that fails a test.
unfoldable pub prefix_len : (ℕ → Bool) → Bytes → ℕ
prefix_len p [] = 0
prefix_len p (b ∷ bs) = if p b then suc (prefix_len p bs) else 0

unfoldable pub try_parse_whitespace : Bytes → Option TextToken
try_parse_whitespace s =
    let len = prefix_len whitespace_byte s in
    if len == 0 then none else some (whitespace (take len s))

-- `sign` of `try_parse_number`
unfoldable pub sign_len : Bytes → ℕ
sign_len [] = 0
sign_len (b ∷ bs) = if sign_byte b then 1 else 0

unfoldable pub try_parse_number : Bytes → Option TextToken
unfolding sign_len
try_parse_number s =
    let sign = sign_len s in
    let len = prefix_len digit_byte (drop sign s) in
    if len == 0 then none else some (number (take (sign + len) s))

-- `BLACKLIST` of `try_parse_text`
abbrev pub blacklist : List ℕ
blacklist =
    32 ∷ 9 ∷ 10 ∷ 11 ∷ 12 ∷ 13 ∷ 43 ∷ 45 ∷ 48 ∷ 49 ∷ 50 ∷ 51 ∷ 52 ∷ 53 ∷ 54 ∷ 55 ∷ 56 ∷ 57 ∷ []

-- The test that ends the loop of `try_parse_text`, after `len` bytes.
unfoldable pub text_ends : ℕ → ℕ → Bool
text_ends len b = leb 128 b || contains blacklist b && ltb 0 len

-- The loop of `try_parse_text`, from `len` on.
unfoldable pub text_len : ℕ → Bytes → ℕ
text_len len [] = len
text_len len (b ∷ bs) = let rest = text_len (len + 1) bs in if text_ends len b then len else rest

unfoldable pub try_parse_text : Bytes → Option TextToken
unfolding text_len
try_parse_text s = let len = text_len 0 s in if len == 0 then none else some (text (take len s))

-- The `if let … else if let …` chain in the loop of `from_str`.
unfoldable pub next_token : Bytes → Option TextToken
next_token s = elim (try_parse_whitespace s) [
  | some t ↦ some t
  | none ↦ elim (try_parse_number s) [ some t ↦ some t | none ↦ try_parse_text s ]
]

-- The loop of `from_str`, with fuel for its rounds; `none` means that the fuel ran out, or that
-- `s[cursor]` is out of range.
unfoldable pub from_str_loop : ℕ → Bytes → ℕ → TokenStream → Option ParseResult
from_str_loop zero s cursor stream = none
from_str_loop (suc fuel) s cursor stream =
    let round : Option ParseResult = elim (next_token (drop cursor s)) [
      | some t ↦ from_str_loop fuel s (cursor + token_len t) (stream ++ t ∷ [])
      | none ↦ elim (get_elem? s cursor) [ none ↦ none | some b ↦ some (err b) ]
    ] in
    if ltb cursor (length s) then round else some (ok stream)

-- Each round moves the cursor by at least one byte.
unfoldable pub from_str : Bytes → Option ParseResult
unfolding from_str_loop
from_str s = from_str_loop (length s + 1) s 0 []
