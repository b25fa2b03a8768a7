-- ===== src/Mutate/Keeps.antt =====
-- What all mutators of a token stream keep: that its tokens are well-formed, and the bound on its
-- length. This follows from what each of them does to the stream.
pub mod Tokens
pub mod Each
use exim_fuzzer.Base.{
  ℕ, suc, ◌≤◌, ◌≡◌, refl, sym, ap, ◌∙◌, subst, inl, inr, Bool, true, false, some, List, [], ◌∷◌,
  ◌++◌, arith, Bytes, length, get_elem?, length-append, ℕ_discrete, ◌⊎◌,
}
use exim_fuzzer.Mutate.Common.{Outcome}
use exim_fuzzer.Mutate.Rewrite.{Rewritten}
use exim_fuzzer.Mutate.Crossover.{Crossed}
use exim_fuzzer.Mutate.Dict.{DictInserted}
use exim_fuzzer.Mutate.Interesting.{MadeInteresting, interesting, interesting-IsNumber}
use exim_fuzzer.Mutate.Repeat.{Repeated, Stretched}
use exim_fuzzer.Mutate.Special.{Extended, Altered}
use exim_fuzzer.Mutate.Split.{IsSplit}
use exim_fuzzer.Mutate.Words.{WordsSwapped}
use exim_fuzzer.Run.{Run}
use exim_fuzzer.Run.Ensures.{Ensures, Ensures-weaken}
use exim_fuzzer.Token.{
  TextToken, constant, text, TokenStream, verify_text_byte, with_data, is_constant,
}
use mathlib.Core.List.{Memᴰ}
use exim_fuzzer.Token.Constants.{
  ConstantOf, IsTokenOf, AllTokensOf, not_constant-ConstantOf, with_data-ConstantOf,
}
use exim_fuzzer.Token.Random.Laws.{IsRandomToken, All-Mem}
use exim_fuzzer.Token.WellFormed.{
  All, All-append, All-append_left, All-append_right, All-get_elem?, IsNumber, IsWellFormed,
  AllWellFormed,
}
use exim_fuzzer.Token.WellFormed.Parts.{
  IsWellFormed-take, IsWellFormed-drop, IsWellFormed-repeat, All-repeat,
}
use exim_fuzzer.Vec.Exchange.{Exchanged}
use exim_fuzzer.Vec.Laws.{Spliced, Segment, length-Spliced}

-- A stream that is in order: well-formed tokens, their constants with the property `C`, and not more
-- than `max_tokens` of them.
abbrev pub InOrder : (Bytes → Type 0) → ℕ → TokenStream → Type 0
InOrder C max_tokens stream = AllTokensOf C stream × (length stream ≤ max_tokens)

module _ {ℓ} {A : Type ℓ} (P : A → Type 0) where
  pub All-Spliced :
      {xs old new ys : List A} → Spliced xs old new ys → All P xs → All P new → All P ys
  All-Spliced {old} {new} s h n =
      let front_and_rest = subst (All P) s.from h in
      let rest = All-append_right P s.before (old ++ s.after) front_and_rest in
      subst (All P) (sym s.to) (
        All-append P s.before (new ++ s.after)
          (All-append_left P s.before (old ++ s.after) front_and_rest)
          (All-append P new s.after n (All-append_right P old s.after rest)))

  All-old : {xs old new ys : List A} → Spliced xs old new ys → All P xs → All P old
  All-old {old} s h =
      All-append_left P old s.after
        (All-append_right P s.before (old ++ s.after) (subst (All P) s.from h))

  pub All-Segment : {xs part : List A} → Segment xs part → All P xs → All P part
  All-Segment {part} s h =
      All-append_left P part s.after
        (All-append_right P s.before (part ++ s.after) (subst (All P) s.splits h))

  All-at : (xs : List A) → ((k : ℕ) (x : A) → get_elem? xs k ≡ some x → P x) → All P xs
  All-at [] f = tt
  All-at (x ∷ xs) f = (f 0 x refl, All-at xs (λ k y e. f (suc k) y e))

  pub All-Exchanged : {xs ys : List A} (i j : ℕ) → Exchanged xs i j ys → All P xs → All P ys
  All-Exchanged {xs} {ys} i j ex h = All-at ys λ k x e. elim (ℕ_discrete k j) [
    | yes same ↦ All-get_elem? P xs i h (sym ex.there ∙ subst (λ k. get_elem? ys k ≡ some x) same e)
    | no kj ↦ elim (ℕ_discrete k i) [
      | yes same ↦
          All-get_elem? P xs j h (sym ex.back ∙ subst (λ k. get_elem? ys k ≡ some x) same e)
      | no ki ↦ All-get_elem? P xs k h (sym (ex.others k ki kj) ∙ e)
    ]
  ]

module _ (C : Bytes → Type 0) (max_tokens : ℕ) where
  -- From what a mutator does to what it keeps.
  pub Ensures-InOrder :
      {S : Type 0} (stream : TokenStream) {Q : TokenStream → Type 0}
      {m : Run S (Bool × TokenStream)}
      → ((stream' : TokenStream) → Q stream' → InOrder C max_tokens stream')
      → InOrder C max_tokens stream
      → Ensures (Outcome stream Q) m
      → Ensures (λ r. InOrder C max_tokens r.1) m
  Ensures-InOrder stream {Q} {m} keeps ok h = Ensures-weaken h go
    where
      go : (r : Bool × TokenStream) → Outcome stream Q r → InOrder C max_tokens r.1
      go (true, stream') q = keeps stream' q
      go (false, stream') e = subst (InOrder C max_tokens) (sym e) ok

  pub InOrder-Spliced :
      {stream old new stream' : TokenStream}
      → InOrder C max_tokens stream
      → Spliced stream old new stream'
      → AllTokensOf C new
      → length new ≤ length old
      → InOrder C max_tokens stream'
  InOrder-Spliced ok s n fits =
      (All-Spliced (IsTokenOf C) s ok.0 n, omega (arith, length-Spliced s, ok.1))

  pub InOrder-Rewritten :
      {Q : TextToken → TextToken → Type 0} {stream : TokenStream}
      → ((old new : TextToken) → Q old new → IsTokenOf C old → IsTokenOf C new)
      → InOrder C max_tokens stream
      → (stream' : TokenStream) → Rewritten Q stream stream'
      → InOrder C max_tokens stream'
  InOrder-Rewritten each ok stream' r =
      InOrder-Spliced ok r.splice
        (each r.old r.new r.change (All-old (IsTokenOf C) r.splice ok.0).0, tt) (omega arith)

swapped_parts :
    (C : Bytes → Type 0) (a r m s z : TokenStream)
    → AllTokensOf C (a ++ (r ++ (m ++ (s ++ z))))
    → AllTokensOf C (a ++ (s ++ (m ++ (r ++ z))))
      × (length (a ++ (s ++ (m ++ (r ++ z)))) ≡ length (a ++ (r ++ (m ++ (s ++ z)))))
swapped_parts C a r m s z h =
    let W = IsTokenOf C in
    let behind = All-append_right W a (r ++ (m ++ (s ++ z))) h in
    let mid = All-append_right W r (m ++ (s ++ z)) behind in
    let last = All-append_right W m (s ++ z) mid in
    let wa = All-append_left W a (r ++ (m ++ (s ++ z))) h in
    let wr = All-append_left W r (m ++ (s ++ z)) behind in
    let wm = All-append_left W m (s ++ z) mid in
    let ws = All-append_left W s z last in
    let wz = All-append_right W s z last in
    (
      All-append W a (s ++ (m ++ (r ++ z))) wa
          (All-append W s (m ++ (r ++ z)) ws (All-append W m (r ++ z) wm (All-append W r z wr wz))),
      omega (
        arith,
        length-append a (s ++ (m ++ (r ++ z))),
        length-append s (m ++ (r ++ z)),
        length-append m (r ++ z),
        length-append r z,
        length-append a (r ++ (m ++ (s ++ z))),
        length-append r (m ++ (s ++ z)),
        length-append m (s ++ z),
        length-append s z,
      ),
    )

pub Random-IsTokenOf :
    (C : Bytes → Type 0) {lo hi : ℕ} {t : TextToken} → IsRandomToken lo hi t → IsTokenOf C t
Random-IsTokenOf C {t} r = (r.well_formed, not_constant-ConstantOf C t r.not_constant)

-- A mutator stops adding at `max_tokens`; `limit` is the bound that streams keep, which may be larger.
module _ (C : Bytes → Type 0) (max_tokens limit : ℕ) (within : max_tokens ≤ limit)
    {stream stream' : TokenStream} (ok : InOrder C limit stream) where
  pub InOrder-Random :
      {lo hi : ℕ} {new : TextToken}
      → IsRandomToken lo hi new
      → Spliced stream [] (new ∷ []) stream'
      → length stream' ≤ max_tokens
      → InOrder C limit stream'
  InOrder-Random r s bound =
      (All-Spliced (IsTokenOf C) s ok.0 (Random-IsTokenOf C r, tt), omega (arith, bound, within))

  pub InOrder-Crossed :
      {other old : TokenStream}
      → AllTokensOf C other
      → Crossed stream other old max_tokens stream'
      → InOrder C limit stream'
  InOrder-Crossed w q = (
    All-Spliced (IsTokenOf C) q.to ok.0 (All-Segment (IsTokenOf C) q.from w),
    omega (arith, q.bound, within),
  )

  pub InOrder-IsSplit : IsSplit stream max_tokens stream' → InOrder C limit stream'
  InOrder-IsSplit q =
      let old = (All-old (IsTokenOf C) q.splice ok.0).0 in
      (
        All-Spliced (IsTokenOf C) q.splice ok.0 (
          (
            IsWellFormed-take q.old q.pos q.inside.0 q.inside.1 q.not_sign old.0,
            with_data-ConstantOf C q.old _ q.not_constant,
          ),
          (
            Random-IsTokenOf C q.random,
            (
              (
                IsWellFormed-drop q.old q.pos q.inside.0 q.inside.1 old.0,
                with_data-ConstantOf C q.old _ q.not_constant,
              ),
              tt,
            ),
          ),
        ),
        omega (arith, q.bound, within),
      )

  pub InOrder-Repeated :
      {amount : ℕ} → Repeated amount stream max_tokens stream' → InOrder C limit stream'
  InOrder-Repeated q = (
    subst (AllTokensOf C) (sym q.splice) (All-repeat (IsTokenOf C) stream q.here q.count ok.0 q.at),
    omega (arith, q.bound, within),
  )

  pub InOrder-Exchanged : (i j : ℕ) → Exchanged stream i j stream' → InOrder C limit stream'
  InOrder-Exchanged i j q =
      (All-Exchanged (IsTokenOf C) i j q ok.0, omega (arith, q.same_length, ok.1))

  pub InOrder-DictInserted :
      {dict : List Bytes}
      → All C dict
      → DictInserted dict stream max_tokens stream'
      → InOrder C limit stream'
  InOrder-DictInserted {dict} good q = (
    All-Spliced (IsTokenOf C) q.splice ok.0
        (inserted (All-Mem C q.item dict good q.listed) q.shape),
    omega (arith, q.bound, within),
  )
    where
      inserted :
          {item : Bytes} {new : TokenStream}
          → C item
          → (new ≡ constant item ∷ [])
            ⊎ ((l : TextToken) × (r : TextToken) × (new ≡ l ∷ constant item ∷ r ∷ [])
                × IsRandomToken 1 1 l
                × IsRandomToken 1 1 r)
          → AllTokensOf C new
      inserted c (inl e) = subst (AllTokensOf C) (sym e) ((tt, c), tt)
      inserted c (inr (l, r, e, hl, hr)) =
          subst (AllTokensOf C) (sym e)
            (Random-IsTokenOf C hl, ((tt, c), (Random-IsTokenOf C hr, tt)))

  pub InOrder-WordsSwapped : WordsSwapped stream stream' → InOrder C limit stream'
  InOrder-WordsSwapped q =
      let (w, len) =
        swapped_parts C q.before q.first q.between_them q.second q.after
          (subst (AllTokensOf C) q.was ok.0) in
      (
        subst (AllTokensOf C) (sym q.is) w,
        omega (arith, ap length q.was, ap length q.is, len, ok.1),
      )
