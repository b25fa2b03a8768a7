-- ===== src/Mutate/Words.antt =====
-- fuzzer/src/tokens/mutators/swap.rs: `mutate_swap_words`, on the words between whitespace tokens.
-- Its wrapping arithmetic is that of 64 bits.
pub mod Ranges
use exim_fuzzer.Base.{
  ℕ, zero, suc, ◌+◌, ◌-◌, ◌%◌, ◌^◌, ◌≤◌, ◌<◌, ◌≡◌, refl, sym, ap, ap₂, ◌∙◌, Bool, true, false, none,
  some, List, [], ◌∷◌, ◌++◌, ltb, ◌==◌, if◌then◌else◌, length, get_elem?, get_elem?-total, arith,
  take, drop, append_assoc, length-append, length-take, length-drop, subst,
}
use exim_fuzzer.Mutate.Common.{Outcome}
use exim_fuzzer.Mutate.Words.Ranges.{
  collect_words, IsWord, Words, collect_words_lem, Words-pick, collect_words-length,
}
use exim_fuzzer.Rand.{Rand}
use exim_fuzzer.Rand.Rules.{Ensures-between}
use exim_fuzzer.Run.{Run, pure, lift, ◌>>=◌, usize_sub}
use exim_fuzzer.Run.Ensures.{
  Ensures, Ensures-pure, Ensures-if, Ensures-bind, Ensures-weaken, Ensures-lift-bind,
  Ensures-sub-bind,
}
use exim_fuzzer.Token.{TokenStream}
use exim_fuzzer.Token.WellFormed.{All}
use exim_fuzzer.Vec.{Range, range, splice}
use exim_fuzzer.Vec.Laws.{part, length-part, splice-append, cut_two}

-- `a.wrapping_sub(b)` and `a.wrapping_add(b)` for a `usize`
unfoldable pub wrapping_sub : ℕ → ℕ → ℕ
wrapping_sub a b = (a + 2 ^ 64 - b) % 2 ^ 64

unfoldable pub wrapping_add : ℕ → ℕ → ℕ
wrapping_add a b = (a + b) % 2 ^ 64

unfoldable pub range_dist : {S : Type 0} → Range → Range → Run S ℕ
unfolding wrapping_sub
range_dist a b = do
  a_len ← usize_sub a.end a.start
  b_len ← usize_sub b.end b.start
  pure (wrapping_sub a_len b_len)

-- Two words change places: whole words, between whitespace tokens or the stream's ends, and the one
-- before the other.
pub record WordsSwapped (stream stream' : TokenStream) : Type 0 where
  pub before : TokenStream
  pub first : TokenStream
  pub between_them : TokenStream
  pub second : TokenStream
  pub after : TokenStream
  pub was : stream ≡ before ++ (first ++ (between_them ++ (second ++ after)))
  pub is : stream' ≡ before ++ (second ++ (between_them ++ (first ++ after)))
  pub first_range : Range
  pub second_range : Range
  pub first_word : IsWord stream first_range
  pub second_word : IsWord stream second_range
  pub order : first_range.end < second_range.start
  pub before_is : before ≡ take first_range.start stream
  pub first_is : first ≡ part stream first_range
  pub second_is : second ≡ part stream second_range
  pub after_is : after ≡ drop second_range.end stream

-- From `let to_slice` on, where `from < to`.
unfoldable pub swap_words_at :
    {S : Type 0} → List Range → TokenStream → ℕ → ℕ → Run S (Bool × TokenStream)
unfolding range_dist wrapping_add
swap_words_at words stream from to = do
  to_word ← lift (get_elem? words to)
  (stream1, to_slice) ← lift (splice stream to_word [])
  from_word ← lift (get_elem? words from)
  (stream2, from_slice) ← lift (splice stream1 from_word to_slice)
  delta ← range_dist to_word from_word
  let idx = wrapping_add to_word.start delta
  (stream3, _) ← lift (splice stream2 (range idx idx) from_slice)
  pure (true, stream3)

-- The place for the first word, computed with wrapping, is where the second one was, moved by the
-- difference of their lengths.
wrapping_place :
    (a r m s : ℕ) → a + r + m + s < 2 ^ 64 → wrapping_add (a + r + m) (wrapping_sub s r) ≡ a + s + m
unfolding wrapping_add wrapping_sub
wrapping_place a r m s h = omega arith

module _ {S : Type 0} where
  range_dist_lem :
      (a b : Range)
      → a.start ≤ a.end
      → b.start ≤ b.end
      → Ensures {S = S} (λ d. d ≡ wrapping_sub (a.end - a.start) (b.end - b.start)) (range_dist a b)
  unfolding range_dist
  range_dist_lem a b h k = Ensures-sub-bind _ h (Ensures-sub-bind _ k (Ensures-pure _ refl))

  -- The three splices, on the five parts of the stream.
  swap_parts :
      (a r m s z : TokenStream) (fr sr : Range)
      → fr.start ≡ length a
      → fr.end ≡ length a + length r
      → sr.start ≡ length a + length r + length m
      → sr.end ≡ length a + length r + length m + length s
      → length a + length r + length m + length s < 2 ^ 64
      → (words : List Range) (from to : ℕ) → get_elem? words from ≡ some fr
      → get_elem? words to ≡ some sr
      → Ensures {S = S}
          (λ x. x ≡ (true, a ++ (s ++ (m ++ (r ++ z)))))
          (swap_words_at words (a ++ (r ++ (m ++ (s ++ z)))) from to)
  unfolding swap_words_at
  swap_parts a r m s z fr sr f1 f2 s1 s2 small words from to ef et =
      let front = a ++ (r ++ m) in
      let len : length front ≡ length a + length r + length m =
        omega (arith, length-append a (r ++ m), length-append r m) in
      let regroup : (y : TokenStream) → a ++ (r ++ (m ++ y)) ≡ front ++ y =
        λ y. ap (λ t. a ++ t) (sym (append_assoc r m y)) ∙ sym (append_assoc a (r ++ m) y) in
      let front' = a ++ (s ++ m) in
      let len' : length front' ≡ length a + length s + length m =
        omega (arith, length-append a (s ++ m), length-append s m) in
      let regroup' : (y : TokenStream) → a ++ (s ++ (m ++ y)) ≡ front' ++ y =
        λ y. ap (λ t. a ++ t) (sym (append_assoc s m y)) ∙ sym (append_assoc a (s ++ m) y) in
      let step1 : splice (a ++ (r ++ (m ++ (s ++ z)))) sr [] ≡ some (a ++ (r ++ (m ++ z)), s) =
        ap (λ t. splice t sr []) (regroup (s ++ z))
        ∙ splice-append front s z [] sr.start sr.end (omega arith) (omega arith)
        ∙ ap (λ t. some (t, s)) (sym (regroup z)) in
      let step2 : splice (a ++ (r ++ (m ++ z))) fr s ≡ some (a ++ (s ++ (m ++ z)), r) =
        splice-append a r (m ++ z) s fr.start fr.end f1 f2 in
      let size_s : sr.end - sr.start ≡ length s = omega arith in
      let size_r : fr.end - fr.start ≡ length r = omega arith in
      let place : wrapping_add sr.start (wrapping_sub (sr.end - sr.start) (fr.end - fr.start))
          ≡ length front' =
        ap₂ wrapping_add s1 (ap₂ wrapping_sub size_s size_r)
        ∙ wrapping_place (length a) (length r) (length m) (length s) small
        ∙ sym len' in
      let step3 : splice (a ++ (s ++ (m ++ z))) (range (length front') (length front')) r
          ≡ some (a ++ (s ++ (m ++ (r ++ z))), []) =
        ap (λ t. splice t (range (length front') (length front')) r) (regroup' z)
        ∙ splice-append front' [] z r (length front') (length front') refl (omega arith)
        ∙ ap (λ t. some (t, [])) (sym (regroup' (r ++ z))) in
      Ensures-lift-bind _ et (
        Ensures-lift-bind _ step1 (
          Ensures-lift-bind _ ef (
            Ensures-lift-bind _ step2 (
              Ensures-bind (range_dist_lem sr fr (omega arith) (omega arith)) λ delta hd.
                let at : wrapping_add sr.start delta ≡ length front' =
                  ap (wrapping_add sr.start) hd ∙ place in
                Ensures-lift-bind _
                  (ap (λ i. splice (a ++ (s ++ (m ++ z))) (range i i) r) at ∙ step3)
                  (Ensures-pure _ refl)))))

module _ (R : Rand) where
  open R use {State, between}

  unfoldable pub mutate_swap_words : TokenStream → Run State (Bool × TokenStream)
  unfolding swap_words_at collect_words
  mutate_swap_words stream = if ltb (length stream) 3 then pure (false, stream) else do
    let words = collect_words stream 0 0 (length stream)
    last ← usize_sub (length words) 1
    from ← between 0 last
    to ← between 0 last
    if from == to
        then pure (false, stream)
        else if ltb to from
        then swap_words_at words stream to from
        else swap_words_at words stream from to

  module _ (stream : TokenStream) (small : length stream < 2 ^ 64) where
    -- The two words that are picked, in their order, change places.
    swap_words_at_lem :
        (from to : ℕ)
        → from < to
        → to < length (collect_words stream 0 0 (length stream))
        → Ensures {S = State}
            (Outcome stream (WordsSwapped stream))
            (swap_words_at (collect_words stream 0 0 (length stream)) stream from to)
    swap_words_at_lem from to lt inside =
        let words = collect_words stream 0 0 (length stream) in
        let (fr, ef) = get_elem?-total words from (omega arith) in
        let (sr, et) = get_elem?-total words to inside in
        let (_, o1, o2, o3, o4, v1, v2) =
          Words-pick stream 0 words from to (collect_words_lem stream) lt ef et in
        let a = take fr.start stream in
        let r = part stream fr in
        let m = take (sr.start - fr.end) (drop fr.end stream) in
        let s = part stream sr in
        let z = drop sr.end stream in
        let parts : stream ≡ a ++ (r ++ (m ++ (s ++ z))) =
          cut_two stream fr sr o1 (omega arith) o3 in
        let la = length-take fr.start stream in
        let lr = length-part stream fr (omega arith) in
        let lm : length m ≡ sr.start - fr.end = omega (
          arith,
          length-take (sr.start - fr.end) (drop fr.end stream),
          length-drop fr.end stream,
        ) in
        let ls = length-part stream sr o4 in
        let run =
          swap_parts a r m s z fr sr (omega arith) (omega arith) (omega arith) (omega arith)
            (omega arith) words from to ef et in
        subst
          (λ st.
            Ensures {S = State} (Outcome stream (WordsSwapped stream))
              (swap_words_at words st from to))
          (sym parts)
          (Ensures-weaken run λ x e. subst (Outcome stream (WordsSwapped stream)) (sym e) (record {
            before = a;
            first = r;
            between_them = m;
            second = s;
            after = z;
            was = parts;
            is = refl;
            first_range = fr;
            second_range = sr;
            first_word = v1;
            second_word = v2;
            order = o2;
            before_is = refl;
            first_is = refl;
            second_is = refl;
            after_is = refl;
          }))

    -- On a stream of fewer than 2 ^ 64 tokens, `mutate_swap_words` never panics. It makes two words
    -- change places and keeps all tokens around and between them; or it returns false and leaves the
    -- stream alone. A word is what stands between whitespace tokens or the stream's ends, all of it; it
    -- is empty between two whitespace tokens in a row.
    pub mutate_swap_words_lem :
        Ensures (Outcome stream (WordsSwapped stream)) (mutate_swap_words stream)
    unfolding mutate_swap_words
    mutate_swap_words_lem =
        Ensures-if (ltb (length stream) 3) (λ _. Ensures-pure _ refl)
          λ go.
            let words = collect_words stream 0 0 (length stream) in
            let some_word : 0 < length words = collect_words-length stream 0 0 (length stream) in
            Ensures-sub-bind _ some_word (
              Ensures-between R 0 (length words - 1) (omega arith) λ from hf.
                Ensures-between R 0 (length words - 1) (omega arith) λ to ht.
                  Ensures-if (from == to) (λ _. Ensures-pure _ refl)
                    λ differ.
                      Ensures-if (ltb to from)
                        (λ less. swap_words_at_lem to from (ground arith) (omega arith))
                        λ more. swap_words_at_lem from to (ground arith) (omega arith))
