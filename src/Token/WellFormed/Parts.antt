-- ===== src/Token/WellFormed/Parts.antt =====
-- When parts of a well-formed token are well-formed: what truncating, splitting and stretching need.
use exim_fuzzer.Base.{
  ℕ, zero, suc, ◌+◌, ◌<◌, ◌≡◌, refl, inl, inr, true, some, List, [], ◌∷◌, ◌++◌, arith, Bytes,
  length, get_elem?, get_elem?-lt, take, drop, replicate, length-append, length-take, length-drop,
  length-replicate,
}
use exim_fuzzer.Token.{
  TextToken, constant, number, whitespace, text, bytes_of, with_data, is_number, token_len,
  digit_byte,
}
use exim_fuzzer.Token.WellFormed.{
  All, AllBytes, All-append, All-take, All-drop, All-get_elem?, IsNumber, IsWellFormed,
}

All-replicate : {A : Type 0} (P : A → Type 0) (n : ℕ) (x : A) → P x → All P (replicate n x)
All-replicate P zero x h = tt
All-replicate P (suc n) x h = (h, All-replicate P n x h)

pub All-repeat :
    {A : Type 0} (P : A → Type 0) (xs : List A) (here n : ℕ) {x : A}
    → All P xs
    → get_elem? xs here ≡ some x
    → All P (take here xs ++ (replicate n x ++ drop here xs))
All-repeat P xs here n {x} h e =
    let copies = replicate n x in
    All-append P (take here xs) (copies ++ drop here xs) (All-take P here xs h) (
      All-append P copies (drop here xs) (All-replicate P n x (All-get_elem? P xs here h e))
        (All-drop P here xs h))

pub length-repeat :
    {A : Type 0} (xs : List A) (here n : ℕ) {x : A}
    → get_elem? xs here ≡ some x
    → length (take here xs ++ (replicate n x ++ drop here xs)) ≡ length xs + n
length-repeat xs here n {x} e = omega (
  arith,
  get_elem?-lt xs here e,
  length-append (take here xs) (replicate n x ++ drop here xs),
  length-append (replicate n x) (drop here xs),
  length-take here xs,
  length-replicate n x,
  length-drop here xs,
)

abbrev IsDigit : ℕ → Type 0
IsDigit b = digit_byte b ≡ true

digits-IsNumber : (bs : Bytes) → 0 < length bs → AllBytes digit_byte bs → IsNumber bs
digits-IsNumber [] h a = absurd (omega arith)
digits-IsNumber (b ∷ bs) h a = inl a

-- What stands behind the first byte of a number are digits.
number_tail : (b : ℕ) (bs : Bytes) → IsNumber (b ∷ bs) → AllBytes digit_byte bs
number_tail b bs (inl (_, ds)) = ds
number_tail b bs (inr (_, _, ds)) = ds

-- The first byte of a number may be followed by other digits, if there are any.
other_tail :
    (b : ℕ) (bs cs : Bytes)
    → IsNumber (b ∷ bs)
    → 0 < length cs
    → AllBytes digit_byte cs
    → IsNumber (b ∷ cs)
other_tail b bs cs (inl (d, _)) h a = inl (d, a)
other_tail b bs cs (inr (s, _, _)) h a = inr (s, h, a)

-- The front part, for a number of more than one byte.
pub IsWellFormed-take :
    (t : TextToken) (n : ℕ)
    → 0 < n
    → n < token_len t
    → (is_number t ≡ true → 1 < n)
    → IsWellFormed t
    → IsWellFormed (with_data t (take n (bytes_of t)))
IsWellFormed-take (constant b) n h k m w = tt
IsWellFormed-take (whitespace b) n h k m (_, a) = (omega (arith, length-take n b), All-take _ n b a)
IsWellFormed-take (text b) n h k m (_, a) = (omega (arith, length-take n b), All-take _ n b a)
IsWellFormed-take (number []) n h k m w = absurd w
IsWellFormed-take (number (b ∷ bs)) zero h k m w = absurd (omega arith)
IsWellFormed-take (number (b ∷ bs)) (suc n) h k m w =
    let more : 1 < suc n = m refl in
    other_tail b bs (take n bs) w (omega (arith, length-take n bs))
      (All-take IsDigit n bs (number_tail b bs w))

-- The part behind the first byte or later.
pub IsWellFormed-drop :
    (t : TextToken) (n : ℕ)
    → 0 < n
    → n < token_len t
    → IsWellFormed t
    → IsWellFormed (with_data t (drop n (bytes_of t)))
IsWellFormed-drop (constant b) n h k w = tt
IsWellFormed-drop (whitespace b) n h k (_, a) = (omega (arith, length-drop n b), All-drop _ n b a)
IsWellFormed-drop (text b) n h k (_, a) = (omega (arith, length-drop n b), All-drop _ n b a)
IsWellFormed-drop (number []) n h k w = absurd w
IsWellFormed-drop (number (b ∷ bs)) zero h k w = absurd (omega arith)
IsWellFormed-drop (number (b ∷ bs)) (suc n) h k w =
    digits-IsNumber (drop n bs) (omega (arith, length-drop n bs))
      (All-drop IsDigit n bs (number_tail b bs w))

-- The token with one byte repeated, of a number not the first.
pub IsWellFormed-repeat :
    (t : TextToken) (here n : ℕ) {x : ℕ}
    → get_elem? (bytes_of t) here ≡ some x
    → (is_number t ≡ true → 0 < here)
    → IsWellFormed t
    → IsWellFormed
        (with_data t (take here (bytes_of t) ++ (replicate n x ++ drop here (bytes_of t))))
IsWellFormed-repeat (constant b) here n e m w = tt
IsWellFormed-repeat (whitespace b) here n e m (l, a) =
    (omega (arith, length-repeat b here n e), All-repeat _ b here n a e)
IsWellFormed-repeat (text b) here n e m (l, a) =
    (omega (arith, length-repeat b here n e), All-repeat _ b here n a e)
IsWellFormed-repeat (number []) here n e m w = absurd w
IsWellFormed-repeat (number (b ∷ bs)) zero n e m w = let no : 0 < 0 = m refl in absurd (omega arith)
IsWellFormed-repeat (number (b ∷ bs)) (suc here) n {x} e m w =
    other_tail b bs (take here bs ++ (replicate n x ++ drop here bs)) w
      (omega (arith, get_elem?-lt bs here e, length-repeat bs here n e))
      (All-repeat IsDigit bs here n (number_tail b bs w) e)
