-- ===== src/Token.antt =====
-- fuzzer/src/tokens/tokenstream.rs: the type `TextToken` with its accessors and its test `verify`,
-- and `TokenStream`, a vector of tokens, which stands here for its one field.
pub mod Constants
pub mod WellFormed
pub mod Parse
pub mod Random
pub mod Serialize
pub mod Deserialize
pub mod Generate
pub mod Length
pub mod RoundTrip
use exim_fuzzer.Base.{
  ℕ, zero, suc, ◌+◌, Bool, true, false, not, ◌&&◌, ◌||◌, List, [], ◌∷◌, ◌++◌, leb, ◌==◌, Bytes,
  length, if◌then◌else◌,
}

pub data TextToken : Type 0 where
  constant number whitespace text : Bytes → TextToken

abbrev pub TokenStream : Type 0
TokenStream = List TextToken

-- `data`
abbrev pub bytes_of : TextToken → Bytes
bytes_of (constant b) = b
bytes_of (number b) = b
bytes_of (whitespace b) = b
bytes_of (text b) = b

-- A write through `data_mut`.
abbrev pub with_data : TextToken → Bytes → TextToken
with_data (constant _) b = constant b
with_data (number _) b = number b
with_data (whitespace _) b = whitespace b
with_data (text _) b = text b

abbrev pub clone_nodata : TextToken → TextToken
clone_nodata t = with_data t []

abbrev pub is_constant : TextToken → Bool
is_constant (constant _) = true
is_constant _ = false

abbrev pub is_number : TextToken → Bool
is_number (number _) = true
is_number _ = false

abbrev pub is_whitespace : TextToken → Bool
is_whitespace (whitespace _) = true
is_whitespace _ = false

-- `len`
abbrev pub token_len : TextToken → ℕ
token_len t = length (bytes_of t)

-- `is_empty`
abbrev pub token_is_empty : TextToken → Bool
token_is_empty t = token_len t == 0

-- The whitespace bytes that the source lists: space, tab, line feed, 0x0b, 0x0c, carriage return.
unfoldable pub whitespace_byte : ℕ → Bool
whitespace_byte b = b == 32 || b == 9 || b == 10 || b == 11 || b == 12 || b == 13

-- `u8::is_ascii_digit`, and the list of digits
unfoldable pub digit_byte : ℕ → Bool
digit_byte b = leb 48 b && leb b 57

unfoldable pub sign_byte : ℕ → Bool
sign_byte b = b == 43 || b == 45

-- `slice.contains(&byte)`
unfoldable pub contains : List ℕ → ℕ → Bool
contains [] b = false
contains (x ∷ xs) b = b == x || contains xs b

-- Each loop of `verify` returns false at the first bad byte.
all_bytes : (ℕ → Bool) → Bytes → Bool
all_bytes p [] = true
all_bytes p (b ∷ bs) = p b && all_bytes p bs

-- The loop over `data.iter().enumerate()`, from index `i` on.
verify_number : ℕ → Bytes → Bool
verify_number i [] = true
verify_number i (b ∷ bs) =
    (if sign_byte b then i == 0 else digit_byte b) && verify_number (i + 1) bs

-- `BLACKLIST` of `verify`
abbrev verify_blacklist : List ℕ
verify_blacklist = 32 ∷ 9 ∷ 10 ∷ 11 ∷ 12 ∷ 13 ∷ 48 ∷ 49 ∷ 50 ∷ 51 ∷ 52 ∷ 53 ∷ 54 ∷ 55 ∷ 56 ∷ 57 ∷ []

unfoldable pub verify_text_byte : ℕ → Bool
unfolding contains
verify_text_byte b = not (leb 128 b || contains verify_blacklist b)

unfoldable pub verify : TextToken → Bool
unfolding all_bytes verify_number
verify (constant _) = true
verify (number b) = verify_number 0 b
verify (whitespace b) = all_bytes whitespace_byte b
verify (text b) = all_bytes verify_text_byte b

-- The text that a stream stands for: the bytes of its tokens, one after the other.
abbrev pub text_of : TokenStream → Bytes
text_of [] = []
text_of (t ∷ ts) = bytes_of t ++ text_of ts

-- `matches!(data.first(), Some(b'-') | Some(b'+'))`
unfoldable pub first_is_sign : Bytes → Bool
unfolding sign_byte
first_is_sign [] = false
first_is_sign (b ∷ bs) = sign_byte b
