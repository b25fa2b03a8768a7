-- ===== src/Mutate/Flip.antt =====
-- fuzzer/src/tokens/mutators/flip.rs
pub mod Byte
use exim_fuzzer.Base.{
  ℕ, zero, suc, ◌+◌, ◌-◌, ◌≤◌, ◌<◌, ◌≡◌, ◌≢◌, refl, ◌⊎◌, inl, inr, Bool, true, false, not, ◌&&◌,
  Option, none, some, [], ◌∷◌, leb→le, ◌%◌, leb, ltb, ◌==◌, if◌then◌else◌, Bytes, length, set,
  get_elem?, get_elem?-total, length-set, arith, le→leb, lt→ltb,
}
use exim_fuzzer.Mutate.Common.{Outcome}
use exim_fuzzer.Mutate.Rewrite.{Rewritten}
use exim_fuzzer.Rand.{Rand, Chosen}
use exim_fuzzer.Rand.Rules.{Ensures-between, Ensures-choose}
use exim_fuzzer.Run.{Run, pure, panic, lift, ◌>>=◌, usize_sub}
use exim_fuzzer.Run.Ensures.{
  Ensures, Ensures-pure, Ensures-if, Ensures-bind, Ensures-lift, Ensures-lift-bind,
  Ensures-sub-bind, Ensures-weaken,
}
use exim_fuzzer.Token.{
  TextToken, constant, number, whitespace, text, TokenStream, bytes_of, with_data, is_constant,
  token_len, sign_byte, digit_byte, whitespace_byte,
}
use exim_fuzzer.Token.Random.{whitespace_bytes, digits, allow_map}
use exim_fuzzer.Token.Random.Laws.{All-Mem, whitespace_bytes-verify, digits-verify}
use exim_fuzzer.Token.WellFormed.{All-set, IsNumber, IsWellFormed}
use exim_fuzzer.Vec.{assign}
use exim_fuzzer.Vec.Laws.{assign-set, set-Spliced}
use exim_fuzzer.Token.Random.{masked_byte}
use exim_fuzzer.Token.Random.Laws.{table_holds, table_holds_at, allow_map-verify}
use exim_fuzzer.Mutate.Flip.Byte.{find_valid_byte, find_valid_byte_lem}

-- One byte of a token that is no constant is written, with another or with the one that was there, and
-- the token stays well-formed.
pub record Flipped (old new : TextToken) : Type 0 where
  pub here : ℕ
  pub byte : ℕ
  pub inside : here < token_len old
  pub now : new ≡ with_data old (set (bytes_of old) here byte)
  pub not_constant : is_constant old ≡ false
  pub well_formed : IsWellFormed old → IsWellFormed new

flip-IsNumber :
    (b : ℕ) (bs : Bytes) (i v : ℕ)
    → (digit_byte v ≡ true) ⊎ (i ≡ 0) × (0 < length bs) × (sign_byte v ≡ true)
    → IsNumber (b ∷ bs)
    → IsNumber (set (b ∷ bs) i v)
flip-IsNumber b bs zero v (inl d) (inl h) = inl (d, h.1)
flip-IsNumber b bs zero v (inl d) (inr h) = inl (d, h.2)
flip-IsNumber b bs zero v (inr s) (inl h) = inr (s.2, s.1, h.1)
flip-IsNumber b bs zero v (inr s) (inr h) = inr (s.2, s.1, h.2)
flip-IsNumber b bs (suc i) v (inl d) (inl h) = inl (h.0, All-set _ bs i v h.1 d)
flip-IsNumber b bs (suc i) v (inl d) (inr h) =
    inr (h.0, omega (arith, length-set bs i v), All-set _ bs i v h.2 d)
flip-IsNumber b bs (suc i) v (inr s) h = absurd (omega arith)

module _ (R : Rand) where
  open R use {State, next, between, choose}

  -- The `match rand.between(0, 2)` for the first byte of a number with more than one.
  unfoldable pub first_of_number : Run State ℕ
  first_of_number = do
    k ← between 0 2
    if k == 0
        then pure 45
        else if k == 1
        then pure 43
        else if k == 2
        then (choose digits >>= λ o. lift o)
        else panic

  -- The arms of the `match` on the token; `none` stands for `return false`.
  unfoldable pub flip_token : TextToken → Run State (Option TextToken)
  unfolding first_of_number
  flip_token (constant _) = pure none
  flip_token (whitespace bytes) = if length bytes == 0 then pure none else do
    last ← usize_sub (length bytes) 1
    idx ← between 0 last
    o ← choose whitespace_bytes
    c ← lift o
    bytes' ← lift (assign bytes idx c)
    pure (some (whitespace bytes'))
  flip_token (number bytes) = if length bytes == 0 then pure none else do
    last ← usize_sub (length bytes) 1
    idx ← between 0 last
    c ←
        (if idx == 0 && ltb 1 (length bytes)
          then first_of_number
          else (choose digits >>= λ o. lift o))
    bytes' ← lift (assign bytes idx c)
    pure (some (number bytes'))
  flip_token (text bytes) = if length bytes == 0 then pure none else do
    last ← usize_sub (length bytes) 1
    idx ← between 0 last
    q ← next
    c ← lift (find_valid_byte (masked_byte q 0))
    bytes' ← lift (assign bytes idx c)
    pure (some (text bytes'))

  -- The stream with the new token in its place.
  unfoldable pub flip_at : TokenStream → ℕ → Option TextToken → Run State (Bool × TokenStream)
  flip_at stream idx none = pure (false, stream)
  flip_at stream idx (some t) = do stream' ← lift (assign stream idx t); pure (true, stream')

  unfoldable pub mutate_flip : TokenStream → Run State (Bool × TokenStream)
  unfolding flip_token flip_at
  mutate_flip stream = if length stream == 0 then pure (false, stream) else do
    last ← usize_sub (length stream) 1
    idx ← between 0 last
    token ← lift (get_elem? stream idx)
    new ← flip_token token
    flip_at stream idx new

  abbrev FlippedIf : TextToken → Option TextToken → Type 0
  FlippedIf t none = Unit
  FlippedIf t (some t') = Flipped t t'

  choose_digit : Ensures (λ c. digit_byte c ≡ true) (choose digits >>= λ o. lift o)
  choose_digit = Ensures-weaken' (R.choose_lem digits (λ e. cc))
    where
      go :
          (o : Option ℕ) → Chosen digits o → Ensures {S = State} (λ c. digit_byte c ≡ true) (lift o)
      go none c = absurd c
      go (some x) c =
          Ensures-lift x refl (All-Mem (λ b. digit_byte b ≡ true) x digits digits-verify c)

      Ensures-weaken' :
          Ensures (Chosen digits) (choose digits)
          → Ensures (λ c. digit_byte c ≡ true) (choose digits >>= λ o. lift o)
      Ensures-weaken' h = Ensures-bind h go

  first_of_number_lem : Ensures (λ c. (digit_byte c ≡ true) ⊎ (sign_byte c ≡ true)) first_of_number
  unfolding first_of_number sign_byte
  first_of_number_lem = Ensures-between R 0 2 (omega arith) λ k hk.
      Ensures-if (k == 0) (λ _. Ensures-pure _ (inr refl))
        λ k0.
          Ensures-if (k == 1) (λ _. Ensures-pure _ (inr refl))
            λ k1.
              Ensures-if (k == 2) (λ _. Ensures-weaken choose_digit (λ c h. inl h))
                λ k2. absurd (ground arith)

  flip_number_byte :
      (bytes : Bytes) (idx : ℕ)
      → Ensures
          (λ c. (digit_byte c ≡ true) ⊎ (idx ≡ 0) × (1 < length bytes) × (sign_byte c ≡ true))
          (if idx == 0 && ltb 1 (length bytes)
            then first_of_number
            else (choose digits >>= λ o. lift o))
  flip_number_byte bytes idx =
      Ensures-if (idx == 0 && ltb 1 (length bytes))
        (λ first. Ensures-weaken first_of_number_lem (λ c h. ground arith))
        λ _. Ensures-weaken choose_digit (λ c h. inl h)

  flip_token_lem : (t : TextToken) → Ensures (FlippedIf t) (flip_token t)
  unfolding flip_token
  flip_token_lem (constant b) = Ensures-pure _ tt
  flip_token_lem (whitespace bytes) =
      Ensures-if (length bytes == 0) (λ _. Ensures-pure _ tt)
        λ full.
          let some_byte : 0 < length bytes = ground arith in
          Ensures-sub-bind _ some_byte (
            Ensures-between R 0 (length bytes - 1) (omega arith) λ idx hi.
              Ensures-choose R whitespace_bytes (λ e. cc)
                λ c m. Ensures-lift-bind _ (assign-set bytes idx c (omega arith)) (
                  Ensures-pure _ (record {
                    here = idx;
                    byte = c;
                    inside = omega arith;
                    now = refl;
                    not_constant = refl;
                    well_formed = λ w. (
                      omega (arith, length-set bytes idx c),
                      All-set _ bytes idx c w.1 (
                          All-Mem (λ b. whitespace_byte b ≡ true) c whitespace_bytes
                            whitespace_bytes-verify m),
                    );
                  })))
  flip_token_lem (number bytes) =
      Ensures-if (length bytes == 0) (λ _. Ensures-pure _ tt)
        λ full.
          let some_byte : 0 < length bytes = ground arith in
          Ensures-sub-bind _ some_byte (
            Ensures-between R 0 (length bytes - 1) (omega arith) λ idx hi.
              Ensures-bind (flip_number_byte bytes idx) λ c hc.
                Ensures-lift-bind _ (assign-set bytes idx c (omega arith)) (
                  Ensures-pure _ (record {
                    here = idx;
                    byte = c;
                    inside = omega arith;
                    now = refl;
                    not_constant = refl;
                    well_formed = flip-IsWellFormed bytes idx c hc;
                  })))
    where
      flip-IsWellFormed :
          (bytes : Bytes) (idx c : ℕ)
          → (digit_byte c ≡ true) ⊎ (idx ≡ 0) × (1 < length bytes) × (sign_byte c ≡ true)
          → IsNumber bytes
          → IsNumber (set bytes idx c)
      flip-IsWellFormed [] idx c hc w = absurd w
      flip-IsWellFormed (b ∷ bs) idx c (inl d) w = flip-IsNumber b bs idx c (inl d) w
      flip-IsWellFormed (b ∷ bs) idx c (inr s) w =
          flip-IsNumber b bs idx c (inr (s.0, omega arith, s.2)) w
  flip_token_lem (text bytes) =
      Ensures-if (length bytes == 0) (λ _. Ensures-pure _ tt)
        λ full.
          let some_byte : 0 < length bytes = ground arith in
          Ensures-sub-bind _ some_byte (
            Ensures-between R 0 (length bytes - 1) (omega arith) λ idx hi.
              Ensures-bind R.next_lem λ q hq.
                let (c, found, ok) = find_valid_byte_lem (masked_byte q 0) (omega arith) in
                Ensures-lift-bind _ found (
                  Ensures-lift-bind _ (assign-set bytes idx c (omega arith)) (
                    Ensures-pure _ (record {
                      here = idx;
                      byte = c;
                      inside = omega arith;
                      now = refl;
                      not_constant = refl;
                      well_formed = λ w. (
                        omega (arith, length-set bytes idx c),
                        All-set _ bytes idx c w.1 (allow_map-verify c ok.is_allowed),
                      );
                    }))))

  -- `mutate_flip` never panics. It writes one byte of one token that is no constant and not empty, so that
  -- the token stays well-formed, or returns false and leaves the stream alone. The byte that is written
  -- may be the one that was there.
  pub mutate_flip_lem :
      (stream : TokenStream)
      → Ensures (Outcome stream (Rewritten Flipped stream)) (mutate_flip stream)
  unfolding mutate_flip
  mutate_flip_lem stream =
      Ensures-if (length stream == 0) (λ _. Ensures-pure _ refl)
        λ go.
          let some_token : 0 < length stream = ground arith in
          Ensures-sub-bind _ some_token (
            Ensures-between R 0 (length stream - 1) (omega arith) λ idx hi.
              let (token, e) = get_elem?-total stream idx (omega arith) in
              Ensures-lift-bind _ e (
                Ensures-bind (flip_token_lem token) λ new h. place idx token (omega arith) e new h))
    where
      place :
          (idx : ℕ) (token : TextToken)
          → idx < length stream
          → get_elem? stream idx ≡ some token
          → (new : Option TextToken) → FlippedIf token new
          → Ensures (Outcome stream (Rewritten Flipped stream)) (flip_at stream idx new)
      place idx token lt e none h = Ensures-pure _ refl
      place idx token lt e (some t) h = Ensures-lift-bind _ (assign-set stream idx t lt) (
          Ensures-pure _
            (record { old = token; new = t; splice = set-Spliced stream idx t e; change = h }))
