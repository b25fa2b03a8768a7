-- ===== src/Token/Random.antt =====
-- fuzzer/src/tokens/tokenstream.rs: `random_whitespace`, `random_number` and `random_text`. A const
-- parameter of the source is an argument. The byte order is that of the little-endian target.
pub mod Laws
use exim_fuzzer.Base.{
  ℕ, zero, suc, ◌+◌, ◌-◌, ◌*◌, ◌/◌, ◌%◌, ◌^◌, Bool, true, false, Option, none, some, List, [], ◌∷◌,
  ◌++◌, leb, ltb, ◌==◌, if◌then◌else◌, Bytes, length, get_elem?, replicate,
}
use exim_fuzzer.Rand.{Rand}
use exim_fuzzer.Run.{Run, pure, panic, lift, ◌>>=◌, ◌>>◌, debug_assert}
use exim_fuzzer.Token.{TextToken, number, whitespace, text}
use exim_fuzzer.Vec.{assign}

-- `WHITESPACE`
abbrev pub whitespace_bytes : List ℕ
whitespace_bytes = 32 ∷ 9 ∷ 10 ∷ 11 ∷ 12 ∷ 13 ∷ []

-- `DIGITS`
abbrev pub digits : List ℕ
digits = 48 ∷ 49 ∷ 50 ∷ 51 ∷ 52 ∷ 53 ∷ 54 ∷ 55 ∷ 56 ∷ 57 ∷ []

-- `ALLOW_MAP`, which the source writes out; flip.rs has the same table as `TEXT_ALLOW_MAP`. False
-- are 9 to 13, 32, 43, 45, 48 to 57 and all from 128 on.
unfoldable pub allow_map : List Bool
allow_map =
    replicate 9 true
    ++ (replicate 5 false
        ++ (replicate 18 true
            ++ (false
                ∷ (replicate 10 true
                    ++ (false
                        ∷ true
                        ∷ false
                        ∷ true
                        ∷ true
                        ∷ (replicate 10 false ++ (replicate 70 true ++ replicate 128 false)))))))

-- Byte `i` of a `u64`, masked by 0x7F.
abbrev pub masked_byte : ℕ → ℕ → ℕ
masked_byte q i = q / 256 ^ i % 256 % 128

abbrev pub masked_bytes : ℕ → Bytes
masked_bytes q =
    masked_byte q 0
    ∷ masked_byte q 1
    ∷ masked_byte q 2
    ∷ masked_byte q 3
    ∷ masked_byte q 4
    ∷ masked_byte q 5
    ∷ masked_byte q 6
    ∷ masked_byte q 7
    ∷ []

-- The `match` on `rand.below(4)`
unfoldable pub put_sign : ℕ → Bytes → Option Bytes
put_sign k bytes =
    if k == 0 then assign bytes 0 45 else if k == 1 then assign bytes 0 43 else some bytes

module _ (R : Rand) where
  open R use {State, next, between, below, choose}

  -- `for byte in &mut data { *byte = rand.choose(items).unwrap(); }`
  unfoldable pub fill : List ℕ → Bytes → Run State Bytes
  fill items [] = pure []
  fill items (_ ∷ rest) = do o ← choose items; b ← lift o; bs ← fill items rest; pure (b ∷ bs)

  unfoldable pub random_whitespace : ℕ → ℕ → Run State TextToken
  random_whitespace min_len max_len = do
    debug_assert (leb min_len max_len)
    random_len ← between min_len max_len
    bytes ← fill whitespace_bytes (replicate random_len 0)
    pure (whitespace bytes)

  unfoldable pub random_number : ℕ → Run State TextToken
  random_number max_len = do
    debug_assert (leb 2 max_len)
    random_len ← between 2 max_len
    bytes ← fill digits (replicate random_len 0)
    k ← below 4
    bytes' ← lift (put_sign k bytes)
    pure (number bytes')

  -- The first loop of `random_text`: eight bytes at a time.
  unfoldable pub fill_qwords : ℕ → Run State Bytes
  fill_qwords zero = pure []
  fill_qwords (suc n) = do q ← next; bs ← fill_qwords n; pure (masked_bytes q ++ bs)

  -- The second loop: the bytes that are left.
  unfoldable pub fill_bytes : ℕ → Run State Bytes
  fill_bytes zero = pure []
  fill_bytes (suc n) = do q ← next; bs ← fill_bytes n; pure (masked_byte q 0 ∷ bs)

  -- The third loop: a byte that the table does not allow is replaced. A byte outside the table
  -- would be undefined behaviour of `get_unchecked`, and is a panic here.
  unfoldable pub repair : Bytes → Run State Bytes
  repair [] = pure []
  repair (b ∷ bs) = do
    allowed ← lift (get_elem? allow_map b)
    b' ← (if allowed then pure b else between 58 126)
    rest ← repair bs
    pure (b' ∷ rest)

  unfoldable pub random_text : ℕ → ℕ → Run State TextToken
  random_text min_len max_len = do
    random_len ← between min_len max_len
    let num_qwords = random_len / 8
    front ← fill_qwords num_qwords
    back ← fill_bytes (random_len - num_qwords * 8)
    bytes ← repair (front ++ back)
    pure (text bytes)
