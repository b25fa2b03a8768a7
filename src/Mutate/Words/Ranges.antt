-- ===== src/Mutate/Words/Ranges.antt =====
-- fuzzer/src/tokens/mutators/swap.rs: the loop of `mutate_swap_words` that collects the words.
use exim_fuzzer.Base.{
  ℕ, zero, suc, ◌+◌, ◌-◌, ◌≤◌, ◌<◌, ◌≡◌, refl, sym, ap, ◌∙◌, false, some, List, [], ◌∷◌, ◌++◌,
  if◌then◌else◌, length, get_elem?, get_elem?-length-append, arith, drop, append_assoc, append-nil,
  length-append, take-length-append, drop-all, Bool-cases, inl, inr, ◌⊎◌, true, subst, length-drop,
  some-injective,
}
use exim_fuzzer.Token.{TextToken, TokenStream, is_whitespace}
use exim_fuzzer.Token.WellFormed.{All, All-append}
use exim_fuzzer.Vec.{Range, range}
use exim_fuzzer.Vec.Laws.{part}

-- The loop over the tokens from `i` on, and the last word up to the stream's end.
unfoldable pub collect_words : TokenStream → ℕ → ℕ → ℕ → List Range
collect_words [] i start end = range start end ∷ []
collect_words (token ∷ tokens) i start end =
    let next = collect_words tokens (i + 1) (i + 1) end in
    let same = collect_words tokens (i + 1) start end in
    if is_whitespace token then range start i ∷ next else same

pub collect_words-length :
    (ts : TokenStream) (i start end : ℕ) → 0 < length (collect_words ts i start end)
unfolding collect_words
collect_words-length [] i start end = omega arith
collect_words-length (t ∷ ts) i start end = elim (Bool-cases (is_whitespace t)) [
  | inl e ↦ rw (e, collect_words) (omega arith)
  | inr e ↦ rw (e, collect_words) (collect_words-length ts (i + 1) start end)
]

abbrev pub Visible : TextToken → Type 0
Visible t = is_whitespace t ≡ false

-- A place where a word begins: at the stream's start, or behind a whitespace token.
abbrev pub Begins : TokenStream → ℕ → Type 0
Begins stream i =
    (i ≡ 0)
    ⊎ (token : TextToken) × (get_elem? stream (i - 1) ≡ some token) × (is_whitespace token ≡ true)

-- A place where a word ends: at the stream's end, or at a whitespace token.
abbrev pub Ends : TokenStream → ℕ → Type 0
Ends stream i =
    (i ≡ length stream)
    ⊎ (token : TextToken) × (get_elem? stream i ≡ some token) × (is_whitespace token ≡ true)

-- The range is that of a whole word: it holds no whitespace token, and cannot be made longer. It is empty
-- between two whitespace tokens in a row.
pub record IsWord (stream : TokenStream) (r : Range) : Type 0 where
  pub visible : All Visible (part stream r)
  pub begins : Begins stream r.start
  pub ends : Ends stream r.end

-- The words follow each other from `lo` on, at least one token apart.
abbrev pub Words : TokenStream → ℕ → List Range → Type 0
Words stream lo [] = Unit
Words stream lo (r ∷ rs) =
    (lo ≤ r.start)
    × (r.start ≤ r.end)
    × (r.end ≤ length stream)
    × IsWord stream r
    × Words stream (r.end + 1) rs

pub drop-append_left :
    {A : Type 0} (n : ℕ) (xs ys : List A) → n ≤ length xs → drop n (xs ++ ys) ≡ drop n xs ++ ys
drop-append_left zero xs ys h = refl
drop-append_left (suc n) [] ys h = absurd (omega arith)
drop-append_left (suc n) (x ∷ xs) ys h = drop-append_left n xs ys (omega arith)

part-front :
    (pre ts : TokenStream) (start : ℕ)
    → start ≤ length pre
    → part (pre ++ ts) (range start (length pre)) ≡ drop start pre
part-front pre ts start h =
    let e : length pre - start ≡ length (drop start pre) = omega (arith, length-drop start pre) in
    rw (drop-append_left start pre ts h, e) (take-length-append (drop start pre) ts)

ranges_from :
    (pre ts : TokenStream) (start : ℕ)
    → start ≤ length pre
    → All Visible (drop start pre)
    → Begins (pre ++ ts) start
    → Words (pre ++ ts) start (collect_words ts (length pre) start (length (pre ++ ts)))
unfolding collect_words
ranges_from pre [] start h v b = rw (append-nil pre) (
  omega arith,
  h,
  omega arith,
  record {
    visible =
        subst (All Visible)
          (sym (
            ap (λ s. part s (range start (length pre))) (sym (append-nil pre))
            ∙ part-front pre [] start h))
          v;
    begins = subst (λ s. Begins s start) (append-nil pre) b;
    ends = inl refl;
  },
  tt,
)
ranges_from pre (t ∷ ts) start h v b =
    let pre' = pre ++ t ∷ [] in
    let len : length pre + 1 ≡ length pre' = omega (arith, length-append pre (t ∷ [])) in
    let next : get_elem? (pre ++ t ∷ ts) (length pre) ≡ some t = get_elem?-length-append pre t ts in
    let whole : pre' ++ ts ≡ pre ++ t ∷ ts = append_assoc pre (t ∷ []) ts in
    let begun : get_elem? (pre' ++ ts) (length pre' - 1) ≡ some t =
      rw whole (ap (get_elem? (pre ++ t ∷ ts)) (omega arith) ∙ next) in
    elim (Bool-cases (is_whitespace t)) [
      | inl e ↦
          rw (e, collect_words, len)
            (
              omega arith,
              h,
              omega (arith, length-append pre (t ∷ ts)),
              record {
                visible = subst (All Visible) (sym (part-front pre (t ∷ ts) start h)) v;
                begins = b;
                ends = inr (t, next, e);
              },
              subst
                  (λ s.
                    Words s (length pre') (collect_words ts (length pre') (length pre') (length s)))
                  whole
                  (ranges_from pre' ts (length pre') (omega arith)
                    (subst (All Visible) (sym (drop-all pre' (length pre') (omega arith))) tt)
                    (inr (t, begun, e))),
            )
      | inr e ↦
          rw (e, collect_words, len)
            (subst (λ s. Words s start (collect_words ts (length pre') start (length s))) whole
              (ranges_from pre' ts start (omega arith)
                (subst (All Visible) (sym (drop-append_left start pre (t ∷ []) h))
                  (All-append Visible (drop start pre) (t ∷ []) v (e, tt)))
                (subst (λ s. Begins s start) (sym whole) b)))
    ]

pub collect_words_lem :
    (stream : TokenStream) → Words stream 0 (collect_words stream 0 0 (length stream))
collect_words_lem stream = ranges_from [] stream 0 (omega arith) tt (inl refl)

Words-one :
    (stream : TokenStream) (lo : ℕ) (ws : List Range) (b : ℕ) {s : Range}
    → Words stream lo ws
    → get_elem? ws b ≡ some s
    → (lo ≤ s.start) × (s.start ≤ s.end) × (s.end ≤ length stream) × IsWord stream s
Words-one stream lo [] b w f = cc
Words-one stream lo (r ∷ rs) zero (p, q, u, v, w) f =
    subst
      (λ (s : Range).
        (lo ≤ s.start) × (s.start ≤ s.end) × (s.end ≤ length stream) × IsWord stream s)
      (some-injective f) (p, q, u, v)
Words-one stream lo (r ∷ rs) (suc b) (p, q, u, v, w) f =
    let (g1, g2, g3, g4) = Words-one stream (r.end + 1) rs b w f in (omega arith, g2, g3, g4)

-- Two of the words, the one before the other.
pub Words-pick :
    (stream : TokenStream) (lo : ℕ) (ws : List Range) (a b : ℕ) {r s : Range}
    → Words stream lo ws
    → a < b
    → get_elem? ws a ≡ some r
    → get_elem? ws b ≡ some s
    → (lo ≤ r.start)
      × (r.start ≤ r.end)
      × (r.end < s.start)
      × (s.start ≤ s.end)
      × (s.end ≤ length stream)
      × IsWord stream r
      × IsWord stream s
Words-pick stream lo [] a b w lt e f = cc
Words-pick stream lo (r ∷ rs) (suc a) (suc b) (p, q, u, v, w) lt e f =
    let (g1, g2, g3, g4, g5, g6, g7) = Words-pick stream (r.end + 1) rs a b w (omega arith) e f in
    (omega arith, g2, g3, g4, g5, g6, g7)
Words-pick stream lo (r ∷ rs) a zero w lt e f = absurd (omega arith)
Words-pick stream lo (r ∷ rs) zero (suc b) {r = r'} {s} (p, q, u, v, w) lt e f =
    let (g1, g2, g3, g4) = Words-one stream (r.end + 1) rs b w f in
    subst
      (λ (r : Range).
        (lo ≤ r.start)
        × (r.start ≤ r.end)
        × (r.end < s.start)
        × (s.start ≤ s.end)
        × (s.end ≤ length stream)
        × IsWord stream r
        × IsWord stream s)
      (some-injective e) (p, q, omega arith, g2, g3, v, g4)
