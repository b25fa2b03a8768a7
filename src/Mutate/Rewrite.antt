-- ===== src/Mutate/Rewrite.antt =====
-- Mutators that change one token, and the loop with which some of them look for it:
-- `for token in &mut tokens[start..] { if let … = token { …; return true; } } false`.
use exim_fuzzer.Base.{
  ℕ, ◌-◌, ◌≤◌, ◌≡◌, refl, sym, ap, ◌∙◌, Bool, true, false, Option, none, some, [], ◌∷◌, ◌++◌, arith,
  length, take, drop, subst, append_assoc, take-append-drop, take-all, length-drop, Option-cases,
  inl, inr,
}
use exim_fuzzer.Mutate.Common.{Outcome}
use exim_fuzzer.Run.{Run, pure, lift, ◌>>=◌}
use exim_fuzzer.Run.Ensures.{Ensures, Ensures-pure, Ensures-bind, Ensures-lift-bind}
use exim_fuzzer.Token.{TextToken, TokenStream}
use exim_fuzzer.Vec.{range, slice}
use exim_fuzzer.Vec.Laws.{Spliced, length-Spliced, slice-part}

-- One token is replaced by another that `Q` relates to it; all others stay as they are.
pub record Rewritten (Q : TextToken → TextToken → Type 0) (stream stream' : TokenStream)
    : Type 0 where
  pub old : TextToken
  pub new : TextToken
  pub splice : Spliced stream (old ∷ []) (new ∷ []) stream'
  pub change : Q old new

module _ {Q : TextToken → TextToken → Type 0} where
  pub length-Rewritten :
      {stream stream' : TokenStream} → Rewritten Q stream stream' → length stream' ≡ length stream
  length-Rewritten r = omega (arith, length-Spliced r.splice)

  pub Rewritten-append :
      (front : TokenStream) {stream stream' : TokenStream}
      → Rewritten Q stream stream'
      → Rewritten Q (front ++ stream) (front ++ stream')
  Rewritten-append front r = record {
    old = r.old;
    new = r.new;
    splice = record {
      before = front ++ r.splice.before;
      after = r.splice.after;
      from = ap (λ s. front ++ s) r.splice.from ∙ sym (append_assoc front r.splice.before _);
      to = ap (λ s. front ++ s) r.splice.to ∙ sym (append_assoc front r.splice.before _);
    };
    change = r.change;
  }

-- The loop over the tokens; `f` says what is done to the first token that it is for.
unfoldable pub first_match :
    {S : Type 0} → (TextToken → Option (Run S TextToken)) → TokenStream → Run S (Bool × TokenStream)
first_match f [] = pure (false, [])
first_match f (t ∷ ts) = elim (f t) [
  | some act ↦ act >>= λ t'. pure (true, t' ∷ ts)
  | none ↦ first_match f ts >>= λ r. pure (r.0, t ∷ r.1)
]

-- The loop over `stream[start..]`.
unfoldable pub first_match_from :
    {S : Type 0}
    → (TextToken → Option (Run S TextToken))
    → TokenStream
    → ℕ
    → Run S (Bool × TokenStream)
unfolding first_match
first_match_from f stream start = lift (slice stream (range start (length stream))) >>= λ tail.
    first_match f tail >>= λ r. pure (r.0, take start stream ++ r.1)

module _ {S : Type 0} {Q : TextToken → TextToken → Type 0}
    (f : TextToken → Option (Run S TextToken))
    (each : (t : TextToken) (act : Run S TextToken) → f t ≡ some act → Ensures (Q t) act) where
  Outcome-append :
      (front ts : TokenStream) (r : Bool × TokenStream)
      → Outcome ts (Rewritten Q ts) r
      → Outcome (front ++ ts) (Rewritten Q (front ++ ts)) (r.0, front ++ r.1)
  Outcome-append front ts (false, ts') h = ap (λ s. front ++ s) h
  Outcome-append front ts (true, ts') h = Rewritten-append front h

  first_match_lem : (ts : TokenStream) → Ensures (Outcome ts (Rewritten Q ts)) (first_match f ts)
  unfolding first_match
  first_match_lem [] = Ensures-pure _ refl
  first_match_lem (t ∷ ts) = elim (Option-cases (f t)) [
    | inl e ↦
        rw (e, first_match)
          (Ensures-bind (first_match_lem ts) λ r h. Ensures-pure _ (Outcome-append (t ∷ []) ts r h))
    | inr (act, e) ↦
        rw (e, first_match)
          (Ensures-bind (each t act e) λ t' h. Ensures-pure _ (record {
            old = t;
            new = t';
            splice = record { before = []; after = ts; from = refl; to = refl };
            change = h;
          }))
  ]

  -- The loop never panics where `f` does not: it rewrites one token, or finds none.
  pub first_match_from_lem :
      (stream : TokenStream) (start : ℕ)
      → start ≤ length stream
      → Ensures (Outcome stream (Rewritten Q stream)) (first_match_from f stream start)
  unfolding first_match_from
  first_match_from_lem stream start h =
      let tail = drop start stream in
      let cut : slice stream (range start (length stream)) ≡ some tail =
        slice-part stream (range start (length stream)) h (omega arith)
        ∙ ap some
            (take-all tail (length stream - start) (omega (arith, length-drop start stream))) in
      Ensures-lift-bind _ cut (
        Ensures-bind (first_match_lem tail) λ r hr. Ensures-pure _ (
          subst (λ s. Outcome s (Rewritten Q s) (r.0, take start stream ++ r.1))
            (take-append-drop start stream) (Outcome-append (take start stream) tail r hr)))
