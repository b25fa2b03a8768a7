-- ===== src/Token/Random/Laws.antt =====
-- Random tokens are well-formed and of the length that was asked for.
use mathlib.Core.List.{Memᴰ}
use exim_fuzzer.Base.{
  ℕ, zero, suc, ◌-◌, ◌*◌, ◌/◌, ◌≤◌, ◌<◌, ◌≡◌, ◌≢◌, refl, sym, ap, ◌∙◌, inl, inr, Bool, true, false,
  not, ◌&&◌, ◌||◌, none, some, List, [], ◌∷◌, ◌++◌, ltb, ◌==◌, Bytes, length, get_elem?,
  get_elem?-total, get_elem?-lt, subst, replicate, length-replicate, length-append, arith, lt→ltb,
  le→leb, Bool-cases,
}
use exim_fuzzer.Rand.{Rand}
use exim_fuzzer.Rand.Rules.{Ensures-between, Ensures-choose}
use exim_fuzzer.Run.Ensures.{
  Ensures, Ensures-pure, Ensures-if, Ensures-bind, Ensures-lift-bind, Ensures-assert-then,
  Ensures-weaken,
}
use exim_fuzzer.Token.{
  TextToken, token_len, is_constant, whitespace_byte, digit_byte, sign_byte, contains,
  verify_text_byte,
}
use exim_fuzzer.Token.WellFormed.{All, AllBytes, All-append, IsWellFormed, IsNumber}
use exim_fuzzer.Token.Random.{
  whitespace_bytes, digits, allow_map, masked_bytes, fill, random_whitespace, put_sign,
  random_number, fill_qwords, fill_bytes, repair, random_text,
}
use exim_fuzzer.Vec.{assign}

-- What every generator promises of its token.
pub record IsRandomToken (lo hi : ℕ) (t : TextToken) : Type 0 where
  pub well_formed : IsWellFormed t
  pub at_least : lo ≤ token_len t
  pub at_most : token_len t ≤ hi
  pub not_constant : is_constant t ≡ false

-- `test` holds of every byte under `limit`. A closed table is checked by evaluating this.
unfoldable pub table_holds : (ℕ → Bool) → ℕ → Bool
table_holds test zero = true
table_holds test (suc limit) = table_holds test limit && test limit

pub table_holds_at :
    (test : ℕ → Bool) {limit : ℕ} (byte : ℕ)
    → byte < limit
    → table_holds test limit ≡ true
    → test byte ≡ true
unfolding table_holds
table_holds_at test {limit = zero} byte under h = absurd (omega arith)
table_holds_at test {limit = suc limit} byte under h =
    ground (arith, table_holds_at test {limit = limit} byte)

pub length-allow_map : length allow_map ≡ 256
unfolding allow_map
length-allow_map = refl

abbrev allows : ℕ → Bool
allows b = elim (get_elem? allow_map b) [ none ↦ false | some a ↦ a ]

allow_map-table : table_holds (λ b. not (allows b) || verify_text_byte b) 256 ≡ true
unfolding table_holds allow_map verify_text_byte
allow_map-table = refl

-- The table allows only bytes that `verify` accepts in a text.
pub allow_map-verify : (b : ℕ) → get_elem? allow_map b ≡ some true → verify_text_byte b ≡ true
allow_map-verify b h =
    let fits : b < 256 = omega (arith, get_elem?-lt allow_map b h, length-allow_map) in
    let entry = table_holds_at (λ b. not (allows b) || verify_text_byte b) b fits allow_map-table in
    ground (arith, entry)

-- The range from which replacements are drawn.
replacement_verify : (b : ℕ) → 58 ≤ b → b ≤ 126 → verify_text_byte b ≡ true
unfolding verify_text_byte contains
replacement_verify b h k = ground arith

pub All-Mem {ℓ} : {A : Type ℓ} (P : A → Type 0) (x : A) (xs : List A) → All P xs → Memᴰ x xs → P x
All-Mem P x [] h m = elim m [ ]
All-Mem P x (y ∷ xs) h (Memᴰ.head e) = subst P (sym e) h.0
All-Mem P x (y ∷ xs) h (Memᴰ.tail m) = All-Mem P x xs h.1 m

pub whitespace_bytes-verify : AllBytes whitespace_byte whitespace_bytes
unfolding whitespace_byte
whitespace_bytes-verify = ground arith

pub digits-verify : AllBytes digit_byte digits
unfolding digit_byte
digits-verify = ground arith

-- A number that begins with a sign, if `k` asks for one.
put_sign-IsNumber :
    (k : ℕ) (bs : Bytes)
    → 2 ≤ length bs
    → AllBytes digit_byte bs
    → (bs' : Bytes) × (put_sign k bs ≡ some bs') × IsNumber bs' × (length bs' ≡ length bs)
unfolding put_sign assign sign_byte
put_sign-IsNumber k [] h d = absurd (omega arith)
put_sign-IsNumber k (b ∷ bs) h d =
    let lt : ltb 0 (length (b ∷ bs)) ≡ true = lt→ltb 0 (length (b ∷ bs)) (omega arith) in
    rw lt (elim (Bool-cases (k == 0)) [
      | inl e ↦ rw e (45 ∷ bs, refl, inr (refl, omega arith, d.1), refl)
      | inr e ↦ elim (Bool-cases (k == 1)) [
        | inl f ↦ rw (e, f) (43 ∷ bs, refl, inr (refl, omega arith, d.1), refl)
        | inr f ↦ rw (e, f) (b ∷ bs, refl, inl d, refl)
      ]
    ])

module _ (R : Rand) where
  open R use {State, next, between, below, choose}

  fill_lem :
      (items : List ℕ) (p : ℕ → Bool) (old : Bytes)
      → items ≢ []
      → AllBytes p items
      → Ensures (λ bs. (length bs ≡ length old) × AllBytes p bs) (fill R items old)
  unfolding fill
  fill_lem items p [] ne good = Ensures-pure _ (refl, tt)
  fill_lem items p (o ∷ old) ne good = Ensures-choose R items ne λ b m.
      Ensures-bind (fill_lem items p old ne good)
        λ bs h. Ensures-pure _ (ap suc h.0, (All-Mem _ b items good m, h.1))

  -- `random_whitespace` with the bounds 1 ≤ lo ≤ hi never panics, and returns a well-formed token
  -- of lo to hi bytes.
  pub random_whitespace_lem :
      (lo hi : ℕ) → 1 ≤ lo → lo ≤ hi → Ensures (IsRandomToken lo hi) (random_whitespace R lo hi)
  unfolding random_whitespace
  random_whitespace_lem lo hi one h = Ensures-assert-then (le→leb lo hi h) (
      Ensures-between R lo hi h λ n hn.
        Ensures-bind
          (fill_lem whitespace_bytes whitespace_byte (replicate n 0) (λ e. cc)
            whitespace_bytes-verify)
          λ bs hb.
            let len = length-replicate {A = ℕ} n 0 in
            Ensures-pure _ (record {
              well_formed = (omega arith, hb.1);
              at_least = omega arith;
              at_most = omega arith;
              not_constant = refl;
            }))

  -- `random_number` with a bound of at least 2 never panics, and returns a well-formed token of
  -- two bytes up to the bound.
  pub random_number_lem : (hi : ℕ) → 2 ≤ hi → Ensures (IsRandomToken 2 hi) (random_number R hi)
  unfolding random_number
  random_number_lem hi h = Ensures-assert-then (le→leb 2 hi h) (
      Ensures-between R 2 hi h λ n hn.
        Ensures-bind (fill_lem digits digit_byte (replicate n 0) (λ e. cc) digits-verify) λ bs hb.
          Ensures-bind (R.below_lem 4 (omega arith)) λ k hk.
            let len = length-replicate {A = ℕ} n 0 in
            let (bs', put, num, same) = put_sign-IsNumber k bs (omega arith) hb.1 in
            Ensures-lift-bind _ put (
              Ensures-pure _ (record {
                well_formed = num;
                at_least = omega arith;
                at_most = omega arith;
                not_constant = refl;
              })))

  -- Bytes that the table has an entry for.
  abbrev Masked : ℕ → Bytes → Type 0
  Masked n bs = (length bs ≡ n) × All (λ b. b < 128) bs

  fill_qwords_lem : (n : ℕ) → Ensures (Masked (8 * n)) (fill_qwords R n)
  unfolding fill_qwords
  fill_qwords_lem zero = Ensures-pure _ (omega arith, tt)
  fill_qwords_lem (suc n) = Ensures-bind R.next_lem λ q hq. Ensures-bind (fill_qwords_lem n) λ bs h.
      Ensures-pure _ (
        omega (arith, length-append (masked_bytes q) bs),
        All-append _ (masked_bytes q) bs (ground arith) h.1,
      )

  fill_bytes_lem : (n : ℕ) → Ensures (Masked n) (fill_bytes R n)
  unfolding fill_bytes
  fill_bytes_lem zero = Ensures-pure _ (refl, tt)
  fill_bytes_lem (suc n) = Ensures-bind R.next_lem λ q hq.
      Ensures-bind (fill_bytes_lem n) λ bs h. Ensures-pure _ (ap suc h.0, (omega arith, h.1))

  repair_lem :
      (bs : Bytes)
      → All (λ b. b < 128) bs
      → Ensures (λ bs'. (length bs' ≡ length bs) × AllBytes verify_text_byte bs') (repair R bs)
  unfolding repair
  repair_lem [] h = Ensures-pure _ (refl, tt)
  repair_lem (b ∷ bs) h =
      let (allowed, e) = get_elem?-total allow_map b (omega (arith, length-allow_map, h.0)) in
      Ensures-lift-bind _ e (
        Ensures-bind {P = λ c. verify_text_byte c ≡ true}
          (Ensures-if allowed (λ ok. Ensures-pure b (allow_map-verify b (e ∙ ap some ok)))
            (λ _.
              Ensures-weaken (R.between_lem 58 126 (omega arith))
                (λ c hc. replacement_verify c hc.0 hc.1)))
          λ c hc.
            Ensures-bind (repair_lem bs h.1) λ bs' hb. Ensures-pure _ (ap suc hb.0, (hc, hb.1)))

  -- `random_text` with the bounds 1 ≤ lo ≤ hi never panics, its loop included, and returns a
  -- well-formed token of lo to hi bytes.
  pub random_text_lem :
      (lo hi : ℕ) → 1 ≤ lo → lo ≤ hi → Ensures (IsRandomToken lo hi) (random_text R lo hi)
  unfolding random_text
  random_text_lem lo hi one h = Ensures-between R lo hi h λ n hn.
      Ensures-bind (fill_qwords_lem (n / 8)) λ front hf.
        Ensures-bind (fill_bytes_lem (n - n / 8 * 8)) λ back hb.
          Ensures-bind (repair_lem (front ++ back) (All-append _ front back hf.1 hb.1)) λ bs h'.
            let len : length bs ≡ n = omega (arith, length-append front back) in
            Ensures-pure _ (record {
              well_formed = (omega arith, h'.1);
              at_least = omega arith;
              at_most = omega arith;
              not_constant = refl;
            })
