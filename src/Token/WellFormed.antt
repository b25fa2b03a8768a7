-- ===== src/Token/WellFormed.antt =====
-- The invariant of tokens. It is stronger than the check `verify` of the repository's own tests:
-- only constants may be empty, and a number has a digit behind its sign.
pub mod Parts
use exim_fuzzer.Base.{
  ℕ, zero, suc, ◌+◌, ◌<◌, ◌≡◌, ◌⊎◌, refl, Bool, true, List, [], ◌∷◌, ◌++◌, arith, Bytes, length,
  take, drop, get_elem?, set, some,
}
use exim_fuzzer.Token.{
  TextToken, constant, number, whitespace, text, TokenStream, whitespace_byte, digit_byte,
  sign_byte, all_bytes, verify_number, verify_text_byte, verify,
}

abbrev pub All {ℓ} : {A : Type ℓ} → (A → Type 0) → List A → Type 0
All P [] = Unit
All P (x ∷ xs) = P x × All P xs

-- One proof for each item, written as a list is.
infixr 4 ◌▸◌
abbrev pub ◌▸◌ : {A B : Type 0} → A → B → A × B
a ▸ b = (a, b)

abbrev pub AllBytes : (ℕ → Bool) → Bytes → Type 0
AllBytes p = All (λ b. p b ≡ true)

-- Digits, or a sign and digits; at least one digit in both cases.
abbrev pub IsNumber : Bytes → Type 0
IsNumber [] = ⊥
IsNumber (b ∷ bs) =
    (digit_byte b ≡ true) × AllBytes digit_byte bs
    ⊎ (sign_byte b ≡ true) × (0 < length bs) × AllBytes digit_byte bs

abbrev pub IsWellFormed : TextToken → Type 0
IsWellFormed (constant b) = Unit
IsWellFormed (number b) = IsNumber b
IsWellFormed (whitespace b) = (0 < length b) × AllBytes whitespace_byte b
IsWellFormed (text b) = (0 < length b) × AllBytes verify_text_byte b

abbrev pub AllWellFormed : TokenStream → Type 0
AllWellFormed = All IsWellFormed

module _ {ℓ} {A : Type ℓ} (P : A → Type 0) where
  pub All-append : (xs ys : List A) → All P xs → All P ys → All P (xs ++ ys)
  All-append [] ys hx hy = hy
  All-append (x ∷ xs) ys hx hy = (hx.0, All-append xs ys hx.1 hy)

  pub All-append_left : (xs ys : List A) → All P (xs ++ ys) → All P xs
  All-append_left [] ys h = tt
  All-append_left (x ∷ xs) ys h = (h.0, All-append_left xs ys h.1)

  pub All-append_right : (xs ys : List A) → All P (xs ++ ys) → All P ys
  All-append_right [] ys h = h
  All-append_right (x ∷ xs) ys h = All-append_right xs ys h.1

  pub All-take : (n : ℕ) (xs : List A) → All P xs → All P (take n xs)
  All-take zero xs h = tt
  All-take (suc n) [] h = tt
  All-take (suc n) (x ∷ xs) h = (h.0, All-take n xs h.1)

  pub All-drop : (n : ℕ) (xs : List A) → All P xs → All P (drop n xs)
  All-drop zero xs h = h
  All-drop (suc n) [] h = tt
  All-drop (suc n) (x ∷ xs) h = All-drop n xs h.1

  pub All-set : (xs : List A) (i : ℕ) (v : A) → All P xs → P v → All P (set xs i v)
  All-set [] i v h p = tt
  All-set (x ∷ xs) zero v h p = (p, h.1)
  All-set (x ∷ xs) (suc i) v h p = (h.0, All-set xs i v h.1 p)

  pub All-get_elem? : (xs : List A) (i : ℕ) {x : A} → All P xs → get_elem? xs i ≡ some x → P x
  All-get_elem? [] i h e = cc
  All-get_elem? (y ∷ xs) zero h e = ground (arith, h.0)
  All-get_elem? (y ∷ xs) (suc i) h e = All-get_elem? xs i h.1 e

all_bytes-AllBytes : (p : ℕ → Bool) (b : Bytes) → AllBytes p b → all_bytes p b ≡ true
unfolding all_bytes
all_bytes-AllBytes p [] h = refl
all_bytes-AllBytes p (x ∷ b) h = ground (arith, all_bytes-AllBytes p b h.1)

verify_number-digits : (i : ℕ) (b : Bytes) → AllBytes digit_byte b → verify_number i b ≡ true
unfolding verify_number sign_byte digit_byte
verify_number-digits i [] h = refl
verify_number-digits i (x ∷ b) h = ground (arith, verify_number-digits (i + 1) b h.1)

verify_number-IsNumber : (b : Bytes) → IsNumber b → verify_number 0 b ≡ true
unfolding verify_number sign_byte digit_byte
verify_number-IsNumber [] h = refl
verify_number-IsNumber (x ∷ b) h = ground (arith, verify_number-digits 1 b)

-- A well-formed token passes `verify`.
pub verify-IsWellFormed : (t : TextToken) → IsWellFormed t → verify t ≡ true
unfolding verify
verify-IsWellFormed (constant b) h = refl
verify-IsWellFormed (number b) h = verify_number-IsNumber b h
verify-IsWellFormed (whitespace b) h = all_bytes-AllBytes whitespace_byte b h.1
verify-IsWellFormed (text b) h = all_bytes-AllBytes verify_text_byte b h.1

pub All-imp {ℓ} :
    {A : Type ℓ} (P Q : A → Type 0) → ((x : A) → P x → Q x) → (xs : List A) → All P xs → All Q xs
All-imp P Q k [] h = tt
All-imp P Q k (x ∷ xs) h = (k x h.0, All-imp P Q k xs h.1)
