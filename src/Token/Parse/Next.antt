-- ===== src/Token/Parse/Next.antt =====
-- What one round of `from_str` reads.
use exim_fuzzer.Base.{
  ℕ, zero, suc, ◌+◌, ◌≤◌, ◌<◌, ◌≡◌, refl, inl, inr, Bool, true, false, not, Option, none, some, [],
  ◌∷◌, ◌++◌, ltb, leb, ◌==◌, if◌then◌else◌, Bytes, length, take, drop, arith, Bool-cases,
  suc-==-zero, Option-cases, lt→ltb, length-take, take-append-drop, sym,
}
use exim_fuzzer.Token.{
  TextToken, number, text, token_len, bytes_of, whitespace_byte, digit_byte, sign_byte, contains,
  verify_text_byte,
}
use exim_fuzzer.Token.WellFormed.{All-imp, AllBytes, IsWellFormed}
use exim_fuzzer.Token.Parse.{
  prefix_len, text_len, text_ends, try_parse_whitespace, try_parse_number, try_parse_text,
  next_token,
}

prefix_len-le : (p : ℕ → Bool) (s : Bytes) → prefix_len p s ≤ length s
unfolding prefix_len
prefix_len-le p [] = omega arith
prefix_len-le p (b ∷ s) = ground (arith, prefix_len-le p s)

prefix_len-AllBytes : (p : ℕ → Bool) (s : Bytes) → AllBytes p (take (prefix_len p s) s)
unfolding prefix_len
prefix_len-AllBytes p [] = tt
prefix_len-AllBytes p (b ∷ s) = ground (arith, prefix_len-AllBytes p s)

abbrev pub is_ascii : ℕ → Bool
is_ascii b = ltb b 128

-- Behind its first byte a text token goes on up to a byte of the blacklist or above 127.
abbrev text_goes_on : ℕ → Bool
text_goes_on b = not (text_ends 1 b)

text_ends-pos : (len b : ℕ) → 0 < len → text_ends len b ≡ text_ends 1 b
unfolding text_ends
text_ends-pos len b h = let e : ltb 0 len ≡ true = lt→ltb 0 len h in rw e

text_len-pos : (len : ℕ) (s : Bytes) → 0 < len → text_len len s ≡ len + prefix_len text_goes_on s
unfolding text_len prefix_len
text_len-pos len [] h = omega arith
text_len-pos len (b ∷ s) h =
    ground (arith, text_ends-pos len b h, text_len-pos (len + 1) s (omega arith))

text_goes_on-verify : (b : ℕ) → text_goes_on b ≡ true → verify_text_byte b ≡ true
unfolding text_ends verify_text_byte contains
text_goes_on-verify b h = ground arith

text_ends-zero : (b : ℕ) → text_ends 0 b ≡ leb 128 b
unfolding text_ends
text_ends-zero b = ground arith

text_first :
    (b : ℕ)
    → leb 128 b ≡ false
    → whitespace_byte b ≡ false
    → digit_byte b ≡ false
    → verify_text_byte b ≡ true
unfolding verify_text_byte contains whitespace_byte digit_byte
text_first b h w d = ground arith

-- The slice begins with the bytes of the token, which is well-formed, not empty and ASCII.
pub record Reads (s : Bytes) (t : TextToken) : Type 0 where
  pub rest : Bytes
  pub splits : s ≡ bytes_of t ++ rest
  pub not_empty : 0 < token_len t
  pub well_formed : IsWellFormed t
  pub ascii : AllBytes is_ascii (bytes_of t)

-- A slice on which all three attempts fail is empty or begins with a byte above 127.
abbrev pub Next : Bytes → Option TextToken → Type 0
Next s (some t) = Reads s t
Next [] none = Unit
Next (b ∷ s) none = leb 128 b ≡ true

abbrev Attempt : Bytes → Option TextToken → Type 0
Attempt s (some t) = Reads s t
Attempt s none = Unit

length-take_le : (n : ℕ) (s : Bytes) → n ≤ length s → length (take n s) ≡ n
length-take_le n s h = omega (arith, length-take n s)

pub whitespace_ascii : (b : ℕ) → whitespace_byte b ≡ true → is_ascii b ≡ true
unfolding whitespace_byte
whitespace_ascii b h = ground arith

pub digit_ascii : (b : ℕ) → digit_byte b ≡ true → is_ascii b ≡ true
unfolding digit_byte
digit_ascii b h = ground arith

pub sign_ascii : (b : ℕ) → sign_byte b ≡ true → is_ascii b ≡ true
unfolding sign_byte
sign_ascii b h = ground arith

pub verify_text_ascii : (b : ℕ) → verify_text_byte b ≡ true → is_ascii b ≡ true
unfolding verify_text_byte contains
verify_text_ascii b h = ground arith

pub try_parse_whitespace-Attempt : (s : Bytes) → Attempt s (try_parse_whitespace s)
unfolding try_parse_whitespace
try_parse_whitespace-Attempt s = elim (Bool-cases (prefix_len whitespace_byte s == 0)) [
  | inl e ↦ rw e tt
  | inr e ↦
      let n = prefix_len whitespace_byte s in
      let len = length-take_le n s (prefix_len-le whitespace_byte s) in
      let bytes = prefix_len-AllBytes whitespace_byte s in
      rw e (record {
        rest = drop n s;
        splits = sym (take-append-drop n s);
        not_empty = ground (arith, len);
        well_formed = (ground (arith, len), bytes);
        ascii = All-imp _ _ whitespace_ascii _ bytes;
      })
]

-- A prefix of the slice as a token.
Reads-take :
    (t : TextToken) (n : ℕ) (s : Bytes)
    → bytes_of t ≡ take n s
    → 0 < n
    → n ≤ length s
    → IsWellFormed t
    → AllBytes is_ascii (take n s)
    → Reads s t
Reads-take t n s e pos fits well ascii = record {
  rest = drop n s;
  splits = rw e (sym (take-append-drop n s));
  not_empty = rw e (omega (arith, length-take n s));
  well_formed = well;
  ascii = rw e ascii;
}

signed_number :
    (b : ℕ) (s : Bytes) (n : ℕ)
    → sign_byte b ≡ true
    → n ≤ length s
    → AllBytes digit_byte (take n s)
    → Attempt (b ∷ s) (if n == 0 then none else some (number (take (1 + n) (b ∷ s))))
signed_number b s zero sign fits digits = tt
signed_number b s (suc n) sign fits digits =
    let e : 1 + suc n ≡ suc (suc n) = omega arith in
    rw (e, suc-==-zero)
      (Reads-take (number (b ∷ take (suc n) s)) (suc (suc n)) (b ∷ s) refl (omega arith)
        (omega arith) (inr (sign, omega (arith, length-take (suc n) s), digits))
        (sign_ascii b sign, All-imp _ _ digit_ascii (take (suc n) s) digits))

unsigned_number :
    (s : Bytes) (n : ℕ)
    → n ≤ length s
    → AllBytes digit_byte (take n s)
    → Attempt s (if n == 0 then none else some (number (take (0 + n) s)))
unsigned_number s zero fits digits = tt
unsigned_number [] (suc n) fits digits = absurd (omega arith)
unsigned_number (b ∷ s) (suc n) fits digits =
    let e : 0 + suc n ≡ suc n = omega arith in
    rw (e, suc-==-zero)
      (Reads-take (number (b ∷ take n s)) (suc n) (b ∷ s) refl (omega arith) fits (inl digits)
        (All-imp _ _ digit_ascii (b ∷ take n s) digits))

try_parse_number-Attempt : (s : Bytes) → Attempt s (try_parse_number s)
unfolding try_parse_number
try_parse_number-Attempt [] = unfold prefix_len in tt
try_parse_number-Attempt (b ∷ s) = elim (Bool-cases (sign_byte b)) [
  | inl sign ↦ rw sign (
      signed_number b s (prefix_len digit_byte s) sign (prefix_len-le digit_byte s)
        (prefix_len-AllBytes digit_byte s))
  | inr unsigned ↦ rw unsigned (
      unsigned_number (b ∷ s) (prefix_len digit_byte (b ∷ s)) (prefix_len-le digit_byte (b ∷ s))
        (prefix_len-AllBytes digit_byte (b ∷ s)))
]

-- Where the first attempt fails the slice begins with no whitespace; likewise the second.
whitespace_fails :
    (b : ℕ) (s : Bytes) → try_parse_whitespace (b ∷ s) ≡ none → whitespace_byte b ≡ false
unfolding try_parse_whitespace prefix_len
whitespace_fails b s h = ground arith

number_fails : (b : ℕ) (s : Bytes) → try_parse_number (b ∷ s) ≡ none → digit_byte b ≡ false
unfolding try_parse_number prefix_len sign_byte digit_byte
number_fails b s h = ground arith

text_found :
    (b : ℕ) (s : Bytes) (n : ℕ)
    → n ≤ length s
    → AllBytes verify_text_byte (b ∷ take n s)
    → Reads (b ∷ s) (text (b ∷ take n s))
text_found b s n fits good =
    Reads-take (text (b ∷ take n s)) (suc n) (b ∷ s) refl (omega arith) (omega arith)
      (omega arith, good) (All-imp _ _ verify_text_ascii (b ∷ take n s) good)

try_parse_text-Next :
    (b : ℕ) (s : Bytes)
    → whitespace_byte b ≡ false
    → digit_byte b ≡ false
    → Next (b ∷ s) (try_parse_text (b ∷ s))
unfolding try_parse_text text_len
try_parse_text-Next b s w d = elim (Bool-cases (leb 128 b)) [
  | inl high ↦ rw (text_ends-zero, high) high
  | inr low ↦
      let n = prefix_len text_goes_on s in
      let e : text_len (0 + 1) s ≡ suc n = omega (arith, text_len-pos (0 + 1) s) in
      rw (text_ends-zero, low, e, suc-==-zero)
        (text_found b s n (prefix_len-le text_goes_on s) (
          text_first b low w d,
          All-imp _ _ text_goes_on-verify _ (prefix_len-AllBytes text_goes_on s),
        ))
]

-- One round of `from_str` reads a well-formed token, or stands at a byte above 127.
pub next_token-Next : (s : Bytes) → Next s (next_token s)
unfolding next_token
next_token-Next [] = unfold try_parse_whitespace try_parse_number try_parse_text prefix_len in tt
next_token-Next (b ∷ s) = elim (Option-cases (try_parse_whitespace (b ∷ s))) [
  | inr (t, e) ↦ rw (e, next_token) (rw e at (try_parse_whitespace-Attempt (b ∷ s)))
  | inl e ↦ elim (Option-cases (try_parse_number (b ∷ s))) [
    | inr (t, f) ↦ rw (e, next_token, f) (rw f at (try_parse_number-Attempt (b ∷ s)))
    | inl f ↦
        rw (e, next_token, f)
          (try_parse_text-Next b s (whitespace_fails b s e) (number_fails b s f))
  ]
]
