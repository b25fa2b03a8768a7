-- ===== src/Token/Constants.antt =====
-- What is asked of the bytes of constants, the only tokens whose bytes `verify` does not look at: a
-- property `C` that the constants of a stream have from the dictionary or the corpus.
use exim_fuzzer.Base.{◌≡◌, Bool, true, false, [], ◌∷◌, Bytes, inl, inr}
use exim_fuzzer.Token.{
  TextToken, constant, number, whitespace, text, TokenStream, bytes_of, with_data, is_constant,
  text_of,
}
use exim_fuzzer.Token.Parse.Next.{
  is_ascii, whitespace_ascii, digit_ascii, sign_ascii, verify_text_ascii,
}
use exim_fuzzer.Token.WellFormed.{
  All, AllBytes, All-append, All-append_left, All-append_right, IsNumber, IsWellFormed,
  AllWellFormed,
}

abbrev pub ConstantOf : (Bytes → Type 0) → TextToken → Type 0
ConstantOf C (constant b) = C b
ConstantOf C (number _) = Unit
ConstantOf C (whitespace _) = Unit
ConstantOf C (text _) = Unit

-- A well-formed token that, as a constant, has the property.
abbrev pub IsTokenOf : (Bytes → Type 0) → TextToken → Type 0
IsTokenOf C t = IsWellFormed t × ConstantOf C t

abbrev pub AllTokensOf : (Bytes → Type 0) → TokenStream → Type 0
AllTokensOf C = All (IsTokenOf C)

-- The property that every constant has.
abbrev pub Anything : Bytes → Type 0
Anything _ = Unit

pub not_constant-ConstantOf :
    (C : Bytes → Type 0) (t : TextToken) → is_constant t ≡ false → ConstantOf C t
not_constant-ConstantOf C (constant b) e = cc
not_constant-ConstantOf C (number b) e = tt
not_constant-ConstantOf C (whitespace b) e = tt
not_constant-ConstantOf C (text b) e = tt

pub with_data-ConstantOf :
    (C : Bytes → Type 0) (t : TextToken) (b : Bytes)
    → is_constant t ≡ false
    → ConstantOf C (with_data t b)
with_data-ConstantOf C (constant _) b e = cc
with_data-ConstantOf C (number _) b e = tt
with_data-ConstantOf C (whitespace _) b e = tt
with_data-ConstantOf C (text _) b e = tt

pub AllTokensOf-AllWellFormed :
    (C : Bytes → Type 0) (ts : TokenStream) → AllTokensOf C ts → AllWellFormed ts
AllTokensOf-AllWellFormed C [] h = tt
AllTokensOf-AllWellFormed C (t ∷ ts) h = (h.0.0, AllTokensOf-AllWellFormed C ts h.1)

-- The tokens of a stream whose text is ASCII, for a property that all ASCII bytes have.
pub ascii-AllTokensOf :
    (C : Bytes → Type 0)
    → ((b : Bytes) → AllBytes is_ascii b → C b)
    → (ts : TokenStream) → AllWellFormed ts
    → AllBytes is_ascii (text_of ts)
    → AllTokensOf C ts
ascii-AllTokensOf C ascii_in [] w a = tt
ascii-AllTokensOf C ascii_in (t ∷ ts) w a = (
  (w.0, constant_of t (All-append_left _ (bytes_of t) (text_of ts) a)),
  ascii-AllTokensOf C ascii_in ts w.1 (All-append_right _ (bytes_of t) (text_of ts) a),
)
  where
    constant_of : (t : TextToken) → AllBytes is_ascii (bytes_of t) → ConstantOf C t
    constant_of (constant b) a = ascii_in b a
    constant_of (number b) a = tt
    constant_of (whitespace b) a = tt
    constant_of (text b) a = tt

AllBytes-ascii :
    (p : _ → Bool)
    → ((b : _) → p b ≡ true → is_ascii b ≡ true)
    → (bs : Bytes) → AllBytes p bs
    → AllBytes is_ascii bs
AllBytes-ascii p f [] h = tt
AllBytes-ascii p f (b ∷ bs) h = (f b h.0, AllBytes-ascii p f bs h.1)

IsNumber-ascii : (bs : Bytes) → IsNumber bs → AllBytes is_ascii bs
IsNumber-ascii [] h = absurd h
IsNumber-ascii (b ∷ bs) h = elim h [
  | inl d ↦ (digit_ascii b d.0, AllBytes-ascii _ digit_ascii bs d.1)
  | inr s ↦ (sign_ascii b s.0, AllBytes-ascii _ digit_ascii bs s.2)
]

-- A well-formed stream of ASCII constants has ASCII text.
pub text_of-ascii :
    (ts : TokenStream) → AllTokensOf (AllBytes is_ascii) ts → AllBytes is_ascii (text_of ts)
text_of-ascii [] h = tt
text_of-ascii (t ∷ ts) h =
    All-append _ (bytes_of t) (text_of ts) (bytes t h.0) (text_of-ascii ts h.1)
  where
    bytes : (t : TextToken) → IsTokenOf (AllBytes is_ascii) t → AllBytes is_ascii (bytes_of t)
    bytes (constant b) h = h.1
    bytes (number b) h = IsNumber-ascii b h.0
    bytes (whitespace b) h = AllBytes-ascii _ whitespace_ascii b h.0.1
    bytes (text b) h = AllBytes-ascii _ verify_text_ascii b h.0.1
