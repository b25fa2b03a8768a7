-- ===== src/Mutators/Token/InOrder.antt =====
-- What a stack of mutations keeps of a token stream.
use exim_fuzzer.Base.{
  ℕ, zero, suc, ◌-◌, ◌^◌, ◌≤◌, ◌<◌, ◌≡◌, refl, Bool, false, ◌||◌, Option, none, some, List, ◌==◌,
  Bytes, length, get_elem?-total, arith, inl, inr, Option-cases,
}
use exim_fuzzer.Mutate.Keeps.{InOrder}
use exim_fuzzer.Mutate.Keeps.Each.{
  Keeping, mutate_copy-InOrder, mutate_crossover_insert-InOrder, mutate_crossover_replace-InOrder,
  mutate_delete-InOrder, mutate_flip-InOrder, mutate_interesting-InOrder,
  mutate_random_insert-InOrder, mutate_random_replace-InOrder, mutate_repeat_char-InOrder,
  mutate_repeat_token-InOrder, mutate_special_insert-InOrder, mutate_special_replace-InOrder,
  mutate_split-InOrder, mutate_swap_tokens-InOrder, mutate_swap_words-InOrder,
  mutate_truncate-InOrder, mutate_dict_insert-InOrder, mutate_dict_replace-InOrder,
  mutate_swap_constants-InOrder,
}
use exim_fuzzer.Mutators.Token.{
  PacketResult, Round, changed, continued, failed, stacks, is_current, apply, with_other, with_dict,
  arms, after, mutate_loop, mutate_packet,
}
use exim_fuzzer.Rand.{Rand, Chosen}
use exim_fuzzer.Rand.Rules.{Ensures-between}
use exim_fuzzer.Run.{Run, lift, ◌>>=◌, on_right}
use exim_fuzzer.Run.Ensures.{
  Ensures, Ensures-pure, Ensures-if, Ensures-bind, Ensures-lift-bind, Ensures-sub-bind,
  Ensures-on_left, Ensures-on_right,
}
use exim_fuzzer.Token.{TokenStream}
use exim_fuzzer.Token.Constants.{AllTokensOf}
use exim_fuzzer.Token.WellFormed.{All, ◌▸◌, All-get_elem?}

module _ (C : Bytes → Type 0) (R : Rand) (max_tokens limit : ℕ) (dict : Option (List Bytes))
    (random_corpus_id : Run R.State ℕ) (current : Option ℕ) (load : ℕ → Option (List TokenStream))
    (draws : Ensures (λ _. Unit {0}) random_corpus_id)
    (stored : (id : ℕ) (packets : List TokenStream)
      → load id ≡ some packets
      → All (AllTokensOf C) packets)
    (known : (d : List Bytes) → dict ≡ some d → All C d) (within : max_tokens ≤ limit)
    (small : limit < 2 ^ 64) where
  open R use {State, between}

  abbrev Kept : Round → Type 0
  Kept (changed b packet) = InOrder C limit packet
  Kept continued = Unit
  Kept failed = Unit

  Keeping-apply :
      {m : Run State (Bool × TokenStream)}
      → Keeping C limit m
      → Ensures Kept (apply R max_tokens dict random_corpus_id current load m)
  unfolding apply
  Keeping-apply h = Ensures-bind h λ r ok. Ensures-pure _ ok

  Keeping-with_other :
      (mutate : TokenStream → Run State (Bool × TokenStream))
      → ((other : TokenStream) → AllTokensOf C other → Keeping C limit (mutate other))
      → Ensures Kept (with_other R max_tokens dict random_corpus_id current load mutate)
  unfolding with_other
  Keeping-with_other mutate h = Ensures-bind draws λ idx _.
      Ensures-if (is_current current idx) (λ _. Ensures-pure _ tt)
        λ _. elim (Option-cases (load idx)) [
          | inl e ↦ rw (e, with_other) (Ensures-pure _ tt)
          | inr (packets, e) ↦
              rw (e, with_other)
                (Ensures-if (length packets == 0) (λ _. Ensures-pure _ tt)
                  λ go. Ensures-sub-bind _ (ground arith) (
                    Ensures-between R 0 (length packets - 1) (omega arith) λ i hi.
                      let (other, f) = get_elem?-total packets i (ground arith) in
                      Ensures-lift-bind _ f (
                        Keeping-apply (
                          h other
                            (All-get_elem? (AllTokensOf C) packets i (stored idx packets e) f)))))
        ]

  Keeping-with_dict :
      (packet : TokenStream) (mutate : List Bytes → Run State (Bool × TokenStream))
      → InOrder C limit packet
      → ((d : List Bytes) → All C d → Keeping C limit (mutate d))
      → Ensures Kept (with_dict R max_tokens dict random_corpus_id current load packet mutate)
  unfolding with_dict
  Keeping-with_dict packet mutate ok h = elim (Option-cases dict) [
    | inl e ↦ rw (e, with_dict) (Ensures-pure _ ok)
    | inr (d, e) ↦ rw (e, with_dict) (Keeping-apply (h d (known d e)))
  ]

  arms_keep :
      (packet : TokenStream)
      → InOrder C limit packet
      → All (Ensures Kept) (arms R max_tokens dict random_corpus_id current load packet)
  unfolding arms
  arms_keep packet ok =
      Keeping-apply (mutate_copy-InOrder C R limit packet ok max_tokens within)
      ▸ Keeping-with_other _
          (λ other w. mutate_crossover_insert-InOrder C R limit packet ok max_tokens within other w)
      ▸ Keeping-with_other _ (λ other w.
        mutate_crossover_replace-InOrder C R limit packet ok max_tokens within other w)
      ▸ Keeping-apply (mutate_delete-InOrder C R limit packet ok)
      ▸ Keeping-apply (mutate_flip-InOrder C R limit packet ok)
      ▸ Keeping-apply (mutate_interesting-InOrder C R limit packet ok)
      ▸ Keeping-apply (mutate_random_insert-InOrder C R limit packet ok max_tokens within)
      ▸ Keeping-apply (mutate_random_replace-InOrder C R limit packet ok)
      ▸ Keeping-apply (mutate_repeat_char-InOrder C R limit packet ok 16)
      ▸ Keeping-apply (mutate_repeat_token-InOrder C R limit packet ok max_tokens within 4)
      ▸ Keeping-apply (mutate_special_insert-InOrder C R limit packet ok)
      ▸ Keeping-apply (mutate_special_replace-InOrder C R limit packet ok)
      ▸ Keeping-apply (mutate_split-InOrder C R limit packet ok max_tokens within)
      ▸ Keeping-apply (mutate_swap_tokens-InOrder C R limit packet ok)
      ▸ Keeping-apply (mutate_swap_words-InOrder C R limit packet ok small)
      ▸ Keeping-apply (mutate_truncate-InOrder C R limit packet ok)
      ▸ Keeping-with_dict packet _ ok
          (λ d good. mutate_dict_insert-InOrder C R limit packet ok max_tokens within d good)
      ▸ Keeping-with_dict packet _ ok
          (λ d good. mutate_dict_replace-InOrder C R limit packet ok d good)
      ▸ Keeping-with_dict packet _ ok
          (λ d good. mutate_swap_constants-InOrder C R limit packet ok d good)
      ▸ tt

  after_keeps :
      (any : Bool) (packet : TokenStream)
      (next : Bool → TokenStream → Run State (PacketResult × TokenStream))
      → InOrder C limit packet
      → ((b : Bool) (p : TokenStream)
          → InOrder C limit p
          → Ensures (λ r. InOrder C limit r.1) (next b p))
      → (round : Round) → Kept round
      → Ensures
          (λ r. InOrder C limit r.1)
          (after R max_tokens dict random_corpus_id current load any packet next round)
  unfolding after
  after_keeps any packet next ok h (changed b packet') kept = h (any || b) packet' kept
  after_keeps any packet next ok h continued kept = h any packet ok
  after_keeps any packet next ok h failed kept = Ensures-pure _ ok

  length-arms :
      (packet : TokenStream)
      → length (arms R max_tokens dict random_corpus_id current load packet) ≡ 19
  unfolding arms
  length-arms packet = refl

  mutate_loop_keeps :
      (n : ℕ) (any : Bool) (packet : TokenStream)
      → InOrder C limit packet
      → Ensures
          (λ r. InOrder C limit r.1)
          (mutate_loop R max_tokens dict random_corpus_id current load n any packet)
  unfolding mutate_loop
  mutate_loop_keeps zero any packet ok = Ensures-pure _ ok
  mutate_loop_keeps (suc n) any packet ok = Ensures-between R 0 18 (omega arith) λ choice h.
      let all = arms R max_tokens dict random_corpus_id current load packet in
      let (arm, e) = get_elem?-total all choice (omega (arith, length-arms packet)) in
      Ensures-lift-bind _ e (
        Ensures-bind (All-get_elem? (Ensures Kept) all choice (arms_keep packet ok) e)
          (after_keeps any packet _ ok (λ b p o. mutate_loop_keeps n b p o)))

  -- Where drawing an id from the corpus does not panic, the streams stored in it are well-formed, `limit`
  -- is at least `max_tokens` and below 2 ^ 64, and `C` is any property that the constants of the stored
  -- streams and the entries of the dictionary have, `TokenStreamMutator` never panics on a well-formed
  -- stream of at most `limit` tokens whose constants have `C`. It reaches no `unreachable!`, and whatever
  -- it returns, an error of the corpus included, the stream is again well-formed, its constants have `C`,
  -- and it has at most `limit` tokens: the mutator never makes a stream longer than the larger of
  -- `max_tokens` and its length before.
  pub mutate_packet-InOrder :
      (state_rand : Rand) (packet : TokenStream)
      → InOrder C limit packet
      → Ensures
          (λ r. InOrder C limit r.1)
          (mutate_packet R max_tokens dict random_corpus_id current load state_rand packet)
  unfolding mutate_packet
  mutate_packet-InOrder state_rand packet ok =
      Ensures-bind (Ensures-on_left (state_rand.choose_lem stacks λ e. cc)) go
    where
      go :
          (o : Option ℕ)
          → Chosen stacks o
          → Ensures {S = state_rand.State × State}
              (λ r. InOrder C limit r.1)
              (lift o >>= λ stack.
                on_right
                  (mutate_loop R max_tokens dict random_corpus_id current load stack false packet))
      go none chosen = absurd chosen
      go (some stack) chosen =
          Ensures-lift-bind _ refl (Ensures-on_right (mutate_loop_keeps stack false packet ok))
