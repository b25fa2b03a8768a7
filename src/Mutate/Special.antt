-- ===== src/Mutate/Special.antt =====
-- fuzzer/src/tokens/mutators/special.rs
use exim_fuzzer.Base.{
  ℕ, ◌-◌, ◌<◌, ◌≡◌, refl, Bool, true, false, Option, none, some, List, [], ◌∷◌, ◌++◌, ◌==◌,
  if◌then◌else◌, Bytes, length, take, drop, set, get_elem?-total, arith, subst, some-injective,
}
use exim_fuzzer.Mutate.Common.{Outcome}
use exim_fuzzer.Mutate.Rewrite.{Rewritten, first_match_from, first_match_from_lem}
use exim_fuzzer.Rand.{Rand}
use exim_fuzzer.Rand.Rules.{Ensures-between, Ensures-choose}
use exim_fuzzer.Run.{Run, pure, lift, ◌>>=◌, usize_sub}
use exim_fuzzer.Run.Ensures.{Ensures, Ensures-pure, Ensures-if, Ensures-lift-bind, Ensures-sub-bind}
use exim_fuzzer.Token.{
  TextToken, constant, number, whitespace, text, TokenStream, verify_text_byte, contains,
}
use exim_fuzzer.Token.Random.Laws.{All-Mem}
use exim_fuzzer.Token.WellFormed.{AllBytes}
use exim_fuzzer.Vec.{insert, assign}
use exim_fuzzer.Vec.Laws.{Spliced, inserted-Spliced, insert-inserted, assign-set, set-Spliced}

-- `SPECIAL`
abbrev pub special : List ℕ
special =
    0 ∷ 33 ∷ 34 ∷ 35 ∷ 36 ∷ 37 ∷ 38 ∷ 39 ∷ 40 ∷ 41 ∷ 42 ∷ 43 ∷ 44 ∷ 45 ∷ 46 ∷ 47 ∷ 58 ∷ 59 ∷ 60 ∷ 61
    ∷ 62 ∷ 63 ∷ 64 ∷ 92 ∷ 91 ∷ 93 ∷ 94 ∷ 95 ∷ 96 ∷ 123 ∷ 124 ∷ 125 ∷ 127 ∷ []

-- A special character is added to a text.
pub record Extended (old new : TextToken) : Type 0 where
  pub bytes : Bytes
  pub bytes' : Bytes
  pub byte : ℕ
  pub text_before : old ≡ text bytes
  pub text_after : new ≡ text bytes'
  pub splice : Spliced bytes [] (byte ∷ []) bytes'
  pub is_special : verify_text_byte byte ≡ true

-- A byte of a text becomes a special character.
pub record Altered (old new : TextToken) : Type 0 where
  pub bytes : Bytes
  pub bytes' : Bytes
  pub byte : ℕ
  pub replaced : ℕ
  pub text_before : old ≡ text bytes
  pub text_after : new ≡ text bytes'
  pub splice : Spliced bytes (replaced ∷ []) (byte ∷ []) bytes'
  pub is_special : verify_text_byte byte ≡ true

special-verify : AllBytes verify_text_byte special
unfolding verify_text_byte contains
special-verify = ground arith

module _ (R : Rand) where
  open R use {State, between, choose}

  -- What the loop of `mutate_special_insert` does to a text.
  unfoldable pub insert_special : TextToken → Option (Run State TextToken)
  insert_special (text bytes) = some (do
    o ← choose special
    c ← lift o
    idx ← between 0 (length bytes)
    bytes' ← lift (insert bytes idx c)
    pure (text bytes'))
  insert_special _ = none

  unfoldable pub mutate_special_insert : TokenStream → Run State (Bool × TokenStream)
  unfolding insert_special
  mutate_special_insert stream = if length stream == 0 then pure (false, stream) else do
    last ← usize_sub (length stream) 1
    start ← between 0 last
    first_match_from insert_special stream start

  -- What the loop of `mutate_special_replace` does to a text that is not empty.
  unfoldable pub replace_special : TextToken → Option (Run State TextToken)
  replace_special (text []) = none
  replace_special (text (b ∷ bs)) = some (do
    o ← choose special
    c ← lift o
    last ← usize_sub (length (b ∷ bs)) 1
    idx ← between 0 last
    bytes' ← lift (assign (b ∷ bs) idx c)
    pure (text bytes'))
  replace_special _ = none

  unfoldable pub mutate_special_replace : TokenStream → Run State (Bool × TokenStream)
  unfolding replace_special
  mutate_special_replace stream = if length stream == 0 then pure (false, stream) else do
    last ← usize_sub (length stream) 1
    start ← between 0 last
    first_match_from replace_special stream start

  insert_run :
      (bytes : Bytes)
      → Ensures (Extended (text bytes)) (
          choose special >>= λ o. lift o >>= λ c. between 0 (length bytes) >>= λ idx.
          lift (insert bytes idx c) >>= λ bytes'. pure (text bytes'))
  insert_run bytes =
      Ensures-choose R special (λ e. cc)
        λ c m. Ensures-between R 0 (length bytes) (omega arith) λ idx hi.
          Ensures-lift-bind _ (insert-inserted bytes idx c hi.1) (
            Ensures-pure _ (record {
              bytes = bytes;
              bytes' = take idx bytes ++ (c ∷ drop idx bytes);
              byte = c;
              text_before = refl;
              text_after = refl;
              splice = inserted-Spliced bytes idx (c ∷ []);
              is_special = All-Mem (λ x. verify_text_byte x ≡ true) c special special-verify m;
            }))

  insert_special_lem :
      (t : TextToken) (act : Run State TextToken)
      → insert_special t ≡ some act
      → Ensures (Extended t) act
  unfolding insert_special
  insert_special_lem (text bytes) act e =
      subst (Ensures (Extended (text bytes))) (some-injective e) (insert_run bytes)
  insert_special_lem (constant b) act e = cc
  insert_special_lem (number b) act e = cc
  insert_special_lem (whitespace b) act e = cc

  replace_run :
      (b : ℕ) (bs : Bytes)
      → Ensures (Altered (text (b ∷ bs))) (
          choose special >>= λ o. lift o >>= λ c. usize_sub (length (b ∷ bs)) 1 >>= λ last.
          between 0 last >>= λ idx. lift (assign (b ∷ bs) idx c) >>= λ bytes'. pure (text bytes'))
  replace_run b bs =
      Ensures-choose R special (λ e. cc)
        λ c m. Ensures-sub-bind _ (omega arith) (
          Ensures-between R 0 (length (b ∷ bs) - 1) (omega arith) λ idx hi.
            let (old, e) = get_elem?-total (b ∷ bs) idx (omega arith) in
            Ensures-lift-bind _ (assign-set (b ∷ bs) idx c (omega arith)) (
              Ensures-pure _ (record {
                bytes = b ∷ bs;
                bytes' = set (b ∷ bs) idx c;
                byte = c;
                replaced = old;
                text_before = refl;
                text_after = refl;
                splice = set-Spliced (b ∷ bs) idx c e;
                is_special = All-Mem (λ x. verify_text_byte x ≡ true) c special special-verify m;
              })))

  replace_special_lem :
      (t : TextToken) (act : Run State TextToken)
      → replace_special t ≡ some act
      → Ensures (Altered t) act
  unfolding replace_special
  replace_special_lem (text []) act e = cc
  replace_special_lem (text (b ∷ bs)) act e =
      subst (Ensures (Altered (text (b ∷ bs)))) (some-injective e) (replace_run b bs)
  replace_special_lem (constant b) act e = cc
  replace_special_lem (number b) act e = cc
  replace_special_lem (whitespace b) act e = cc

  -- `mutate_special_insert` never panics, and adds one character that a text may hold to one text, or
  -- returns false and leaves the stream alone.
  pub mutate_special_insert_lem :
      (stream : TokenStream)
      → Ensures (Outcome stream (Rewritten Extended stream)) (mutate_special_insert stream)
  unfolding mutate_special_insert
  mutate_special_insert_lem stream =
      Ensures-if (length stream == 0) (λ _. Ensures-pure _ refl)
        λ go.
          let some_token : 0 < length stream = ground arith in
          Ensures-sub-bind _ some_token (
            Ensures-between R 0 (length stream - 1) (omega arith) λ start hs.
              first_match_from_lem insert_special insert_special_lem stream start (omega arith))

  -- `mutate_special_replace` never panics, and replaces one byte of one text by a character that a
  -- text may hold, or returns false and leaves the stream alone.
  pub mutate_special_replace_lem :
      (stream : TokenStream)
      → Ensures (Outcome stream (Rewritten Altered stream)) (mutate_special_replace stream)
  unfolding mutate_special_replace
  mutate_special_replace_lem stream =
      Ensures-if (length stream == 0) (λ _. Ensures-pure _ refl)
        λ go.
          let some_token : 0 < length stream = ground arith in
          Ensures-sub-bind _ some_token (
            Ensures-between R 0 (length stream - 1) (omega arith) λ start hs.
              first_match_from_lem replace_special replace_special_lem stream start (omega arith))
