-- ===== src/Mutate/Interesting.antt =====
-- fuzzer/src/tokens/mutators/interesting.rs
use mathlib.Core.List.{Memᴰ}
use exim_fuzzer.Base.{
  ◌-◌, ◌<◌, ◌≡◌, refl, Bool, true, false, Option, none, some, List, [], ◌∷◌, ◌==◌, if◌then◌else◌,
  Bytes, length, arith, subst, codes, some-injective,
}
use exim_fuzzer.Mutate.Common.{copy_vec, copy_vec_lem, Outcome}
use exim_fuzzer.Mutate.Rewrite.{Rewritten, first_match_from, first_match_from_lem}
use exim_fuzzer.Rand.{Rand}
use exim_fuzzer.Rand.Rules.{Ensures-between, Ensures-choose}
use exim_fuzzer.Run.{Run, pure, lift, ◌>>=◌, usize_sub}
use exim_fuzzer.Run.Ensures.{Ensures, Ensures-pure, Ensures-if, Ensures-lift-bind, Ensures-sub-bind}
use exim_fuzzer.Token.{
  TextToken, constant, number, whitespace, text, TokenStream, is_number, sign_byte, digit_byte,
}
use exim_fuzzer.Token.WellFormed.{All, IsNumber}

-- `INTERESTING`
abbrev pub interesting : List Bytes
interesting =
    codes "0"
    ∷ codes "-1"
    ∷ codes "127"
    ∷ codes "-128"
    ∷ codes "128"
    ∷ codes "255"
    ∷ codes "32767"
    ∷ codes "-32768"
    ∷ codes "32768"
    ∷ codes "65535"
    ∷ codes "2147483647"
    ∷ codes "2147483648"
    ∷ codes "-2147483648"
    ∷ codes "4294967295"
    ∷ codes "9223372036854775807"
    ∷ codes "9223372036854775808"
    ∷ codes "-9223372036854775808"
    ∷ codes "18446744073709551615"
    ∷ codes "16"
    ∷ codes "32"
    ∷ codes "64"
    ∷ codes "256"
    ∷ codes "512"
    ∷ codes "1024"
    ∷ codes "4096"
    ∷ codes "65536"
    ∷ codes "1"
    ∷ codes "100"
    ∷ codes "-129"
    ∷ codes "1000"
    ∷ codes "-100663046"
    ∷ codes "-32769"
    ∷ codes "100663045"
    ∷ []

-- A number becomes one of the interesting numbers.
pub record MadeInteresting (old new : TextToken) : Type 0 where
  pub bytes : Bytes
  pub was_number : is_number old ≡ true
  pub now : new ≡ number bytes
  pub listed : Memᴰ bytes interesting

pub interesting-IsNumber : All IsNumber interesting
unfolding digit_byte sign_byte
interesting-IsNumber = ground arith

module _ (R : Rand) where
  open R use {State, between, choose}

  -- What the loop does to a number.
  unfoldable pub make_interesting : TextToken → Option (Run State TextToken)
  make_interesting (number bytes) = some (do
    o ← choose interesting
    item ← lift o
    bytes' ← lift (copy_vec bytes item)
    pure (number bytes'))
  make_interesting _ = none

  unfoldable pub mutate_interesting : TokenStream → Run State (Bool × TokenStream)
  unfolding make_interesting
  mutate_interesting stream = if length stream == 0 then pure (false, stream) else do
    last ← usize_sub (length stream) 1
    start ← between 0 last
    first_match_from make_interesting stream start

  interesting_run :
      (bytes : Bytes)
      → Ensures (MadeInteresting (number bytes)) (
          choose interesting >>= λ o.
          lift o >>= λ item. lift (copy_vec bytes item) >>= λ bytes'. pure (number bytes'))
  interesting_run bytes =
      Ensures-choose R interesting (λ e. cc)
        λ item m.
          Ensures-lift-bind _ (copy_vec_lem bytes item)
            (Ensures-pure _ (record { bytes = item; was_number = refl; now = refl; listed = m }))

  make_interesting_lem :
      (t : TextToken) (act : Run State TextToken)
      → make_interesting t ≡ some act
      → Ensures (MadeInteresting t) act
  unfolding make_interesting
  make_interesting_lem (number bytes) act e =
      subst (Ensures (MadeInteresting (number bytes))) (some-injective e) (interesting_run bytes)
  make_interesting_lem (constant b) act e = cc
  make_interesting_lem (text b) act e = cc
  make_interesting_lem (whitespace b) act e = cc

  -- `mutate_interesting` never panics, and makes one number one of the list, or returns false and
  -- leaves the stream alone.
  pub mutate_interesting_lem :
      (stream : TokenStream)
      → Ensures (Outcome stream (Rewritten MadeInteresting stream)) (mutate_interesting stream)
  unfolding mutate_interesting
  mutate_interesting_lem stream =
      Ensures-if (length stream == 0) (λ _. Ensures-pure _ refl)
        λ go.
          let some_token : 0 < length stream = ground arith in
          Ensures-sub-bind _ some_token (
            Ensures-between R 0 (length stream - 1) (omega arith) λ start hs.
              first_match_from_lem make_interesting make_interesting_lem stream start (omega arith))
